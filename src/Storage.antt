-- ===== src/Storage.antt =====
-- internal/storage: the in-memory store, and what is proved of it.
pub mod Memory
pub mod Consistency
pub mod Calls
pub mod Contract
mod Tests
