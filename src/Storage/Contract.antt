-- ===== src/Storage/Contract.antt =====
-- What the callers of internal/storage/memory.go rely on, operation by operation.
pub mod Objects
pub mod Deletion
pub mod Events
pub mod Accounts
