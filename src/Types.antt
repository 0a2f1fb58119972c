-- ===== src/Types.antt =====
-- internal/types: the records that the components share, the errors and their classification.
pub mod Errors
pub mod Service
pub mod Route
pub mod User
pub mod Server
mod Tests
