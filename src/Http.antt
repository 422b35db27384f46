-- ===== src/Http.antt =====
-- include/elio/http.
pub mod WebSocket
pub mod Text
pub mod Url
pub mod Headers
pub mod Targets
pub mod Parser
mod Tests
