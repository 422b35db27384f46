-- ===== src/Rpc.antt =====
-- include/elio/rpc: the buffers of the RPC protocol.
pub mod Buffer
pub mod Protocol
mod Tests
