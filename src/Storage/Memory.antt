-- ===== src/Storage/Memory.antt =====
-- internal/storage/memory.go. The state and the channels of the watchers stand in State, each
-- group of operations in a child. An operation returns its result with the new store, and an
-- object that it changes through the caller's pointer is part of the result. Every operation runs
-- under the store's mutex, so one call is one step; the clock's reading is its argument `now`.
mod State
mod Services
mod Routes
mod Users
mod ApiKeys
unfoldable pub use State.*
unfoldable pub use Services.*
unfoldable pub use Routes.*
unfoldable pub use Users.*
unfoldable pub use ApiKeys.*
