-- ===== src/Storage/Consistency.antt =====
-- internal/storage/memory.go: the invariant of the five maps. Routes refer to services, the index
-- of names and the users describe each other, and API keys belong to users.
pub mod Routing
pub mod Rules
pub mod Cascade
pub mod Names
pub mod Directory
pub mod Accounts
