-- ===== src/Http.antt =====
-- The HTTP layer: the files of src/http/.
pub mod Types
pub mod Utils
pub mod Numbers
pub mod Packet
pub mod Fields
pub mod Request
pub mod Outcome
pub mod Parser
pub mod Context
pub mod Client
pub mod Wire
