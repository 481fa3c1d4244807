-- ===== src/Http/Parser.antt =====
-- HttpParser: src/http/HttpParser.h and HttpParser.cpp. Logging is left out.
pub mod State
pub mod Body
pub mod Lines
pub mod Machine
pub mod Fill
pub mod Reassembly
pub mod Feed
pub mod Length
pub mod Faults
pub mod FirstLine
mod Tests
