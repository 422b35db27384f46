-- ===== src/Sync.antt =====
-- include/elio/sync: the primitives that coroutines wait on.
pub mod WakeState
pub mod Semaphore
pub mod Mutex
pub mod Ring
mod Tests
