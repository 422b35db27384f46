-- ===== src/Http/WebSocket.antt =====
-- include/elio/http/websocket_frame.hpp: the frame codec and the message assembly of RFC 6455.
pub mod Opcode
pub mod Header
pub mod Mask
pub mod Encode
pub mod Utf8
pub mod Close
pub mod Parser
pub mod Queues
mod Tests
