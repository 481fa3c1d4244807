-- ===== src/Http/Context.antt =====
-- HttpContext: src/http/HttpContext.h and HttpContext.cpp.
pub mod Receive
pub mod Send
pub mod Hang
pub mod Delivery
pub mod Sending
pub mod ChunkText
pub mod ChunkLength
mod Tests
