-- ===== src/Http/Parser.antt =====
-- include/elio/http/http_parser.hpp.
pub mod Errors
pub mod Lines
pub mod Chunks
pub mod Request
pub mod Cut
pub mod Response
mod Tests
