-- ===== src/Http.antt =====
-- http/: the HTTP server. `Request` and `Context` are what it reads, `Response` what it writes, and `Server`
-- puts them together.
pub mod Request
pub mod Response
pub mod Context
pub mod Lines
pub mod Refine
pub mod Progress
pub mod Incremental
pub mod Total
pub mod Refused
pub mod Wire
pub mod RoundTrip
pub mod Versions
pub mod Server
mod Tests
