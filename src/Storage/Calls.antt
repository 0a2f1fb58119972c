-- ===== src/Storage/Calls.antt =====
-- internal/storage/memory.go: the store under any sequence of calls, with the clients that watch it.
pub mod Channels
pub mod Frames
pub mod Invariant
pub mod Atomicity
use discobox.Prelude.{
  Str, ℕ, ◌≡◌, refl, Bool, List, [], ◌∷◌, ◌++◌, Option, none, some, if◌then◌else◌, ◌==◌, nat_eq,
  arith,
}
use discobox.Types.Errors.{Error, Result, ok, err}
use discobox.Types.Service.{Service}
use discobox.Types.Route.{Route}
use discobox.Types.User.{User, ApiKey}
use discobox.Storage.Memory.{
  MemoryStorage, Channel, StorageEvent, create_service, update_service, delete_service,
  create_route, update_route, delete_route, create_user, update_user, delete_user, get_api_key,
  create_api_key, revoke_api_key, watch, cancel, close,
}

-- The operations that change the store, with their arguments; a number in front is the clock's
-- reading. `cancels` is the end of a watcher's context, and `receives` a reader that takes the
-- oldest event from its channel.
pub data Call : Type 0 where
  creates_service updates_service : ℕ → Option Service → Call
  deletes_service : Str → Call
  creates_route updates_route : Option Route → Call
  deletes_route : Str → Call
  creates_user updates_user : ℕ → Option User → Call
  deletes_user : Str → Call
  reads_api_key : ℕ → Str → Call
  creates_api_key : ℕ → Option ApiKey → Call
  revokes_api_key : Str → Call
  watches : Call
  cancels receives : ℕ → Call
  closes : Call

take_oldest : List StorageEvent → List StorageEvent
take_oldest [] = []
take_oldest (event ∷ events) = events

receive_from : ℕ → List Channel → List Channel
unfolding take_oldest
receive_from id [] = []
receive_from id (ch ∷ chs) =
    (if ch.id == id then record ch { buffer = take_oldest ch.buffer } else ch) ∷ receive_from id chs

unfoldable pub receive : ℕ → MemoryStorage → MemoryStorage
unfolding receive_from
receive id s = record s { watchers = receive_from id s.watchers; closed = receive_from id s.closed }

-- The error of a call, if it has one, and the store after it.
abbrev pub report : {A : Type 0} → Result A × MemoryStorage → Option Error × MemoryStorage
report (ok a, s) = (none, s)
report (err e, s) = (some e, s)

unfoldable pub step : Call → MemoryStorage → Option Error × MemoryStorage
step (creates_service now o) s = report (create_service now o s)
step (updates_service now o) s = report (update_service now o s)
step (deletes_service id) s = report (delete_service id s)
step (creates_route o) s = report (create_route o s)
step (updates_route o) s = report (update_route o s)
step (deletes_route id) s = report (delete_route id s)
step (creates_user now o) s = report (create_user now o s)
step (updates_user now o) s = report (update_user now o s)
step (deletes_user id) s = report (delete_user id s)
step (reads_api_key now key) s = report (get_api_key now key s)
step (creates_api_key now o) s = report (create_api_key now o s)
step (revokes_api_key key) s = report (revoke_api_key key s)
step watches s = (none, (watch s).1)
step (cancels id) s = (none, cancel id s)
step (receives id) s = (none, receive id s)
step closes s = (none, close s)

unfoldable pub run : List Call → MemoryStorage → MemoryStorage
run [] s = s
run (c ∷ cs) s = run cs (step c s).1
