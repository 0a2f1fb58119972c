-- ===== src/Storage/Calls/Atomicity.antt =====
-- Errors of internal/storage/memory.go: a call that fails changes nothing.
use discobox.Prelude.{◌≡◌, refl, none, some, str_eq, arith}
use discobox.Types.Errors.{Error}
use discobox.Storage.Memory.{
  MemoryStorage, create_service, update_service, delete_service, create_route, update_route,
  delete_route, create_user, update_user, delete_user, get_api_key, create_api_key, revoke_api_key,
}
use discobox.Storage.Calls.{
  Call, creates_service, updates_service, deletes_service, creates_route, updates_route,
  deletes_route, creates_user, updates_user, deletes_user, reads_api_key, creates_api_key,
  revokes_api_key, watches, cancels, receives, closes, step,
}

-- A call that returns an error leaves the store as it was, its watchers' buffers included.
pub step_failed :
    (c : Call) (s : MemoryStorage) (e : Error) → (step c s).0 ≡ some e → (step c s).1 ≡ s
unfolding step create_service update_service delete_service create_route update_route delete_route
    create_user update_user delete_user get_api_key create_api_key revoke_api_key
step_failed (creates_service now none) s e h = refl
step_failed (creates_service now (some service)) s e h = ground arith
step_failed (updates_service now none) s e h = refl
step_failed (updates_service now (some service)) s e h = ground arith
step_failed (deletes_service id) s e h = ground arith
step_failed (creates_route none) s e h = refl
step_failed (creates_route (some route)) s e h = ground arith
step_failed (updates_route none) s e h = refl
step_failed (updates_route (some route)) s e h = ground arith
step_failed (deletes_route id) s e h = ground arith
step_failed (creates_user now none) s e h = refl
step_failed (creates_user now (some user)) s e h = ground arith
step_failed (updates_user now none) s e h = refl
step_failed (updates_user now (some user)) s e h = ground arith
step_failed (deletes_user id) s e h = ground arith
step_failed (reads_api_key now key) s e h = ground arith
step_failed (creates_api_key now none) s e h = refl
step_failed (creates_api_key now (some api_key)) s e h = ground arith
step_failed (revokes_api_key key) s e h = ground arith
step_failed watches s e h = cc
step_failed (cancels id) s e h = cc
step_failed (receives id) s e h = cc
step_failed closes s e h = cc
