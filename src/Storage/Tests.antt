-- ===== src/Storage/Tests.antt =====
-- The store of internal/storage/memory.go on small inputs.
use discobox.Prelude.{
  Str, ℕ, ◌≡◌, ◌≢◌, refl, true, false, List, [], ◌∷◌, ◌++◌, none, some, text, ◌+◌, length,
  get_elem?, str_eq, list_beq,
}
use discobox.Prelude.Int.{pos}
use discobox.Prelude.Dict.{lookup, insert}
use discobox.Types.Errors.{ok, err, service_not_found, already_exists, Error, new}
use discobox.Types.Service.{Service}
use discobox.Types.Route.{Route}
use discobox.Types.User.{User, ApiKey}
use discobox.Storage.Memory.{
  MemoryStorage, Channel, new_memory, send, send_all, notify_watchers, create_service,
  delete_service, create_route, create_user, delete_user, create_api_key, get_service, get_user,
  get_user_by_username, get_api_key, watch, service_event,
}
use discobox.Storage.Calls.{
  Call, creates_service, creates_route, creates_user, creates_api_key, watches, step, run,
}
use discobox.Storage.Calls.Invariant.{IsConsistent, run-new_memory-IsConsistent}
use discobox.Storage.Calls.Atomicity.{step_failed}
use discobox.Storage.Contract.Deletion.{delete_service_cascades, OnlyOtherRoutes}
use discobox.Storage.Consistency.Cascade.{others_of}
use discobox.Storage.Contract.Events.{delete_service_events, cascade_events, received, HasRoom}
use discobox.Storage.Contract.Accounts.{delete_user_revokes}

abbrev web : Service
web = record {
  id = text "web";
  name = text "Web";
  endpoints = text "http://a" ∷ [];
  health_path = text "/health";
  weight = pos 1;
  max_conns = pos 0;
  timeout = pos 0;
  metadata = [];
  tls = none;
  strip_prefix = false;
  active = true;
  created_at = 0;
  updated_at = 0;
}

abbrev home : Route
home = record {
  id = text "home";
  priority = pos 1;
  host = [];
  path_prefix = text "/";
  path_regex = [];
  headers = [];
  service_id = text "web";
  middlewares = [];
  rewrite_rules = [];
  metadata = [];
}

abbrev ann : User
ann = record {
  id = text "u1";
  username = text "ann";
  password_hash = text "hash";
  email = text "ann@example.com";
  is_admin = false;
  must_change_password = false;
  active = true;
  created_at = 0;
  updated_at = 0;
  last_login_at = none;
  metadata = [];
}

abbrev ann_key : ApiKey
ann_key = record {
  key = text "k1";
  user_id = text "u1";
  name = text "ci";
  description = [];
  active = true;
  created_at = 0;
  last_used_at = none;
  expires_at = none;
  metadata = [];
}

abbrev calls : List Call
calls =
    watches
    ∷ creates_service 5 (some web)
    ∷ creates_route (some home)
    ∷ creates_user 6 (some ann)
    ∷ creates_api_key 7 (some ann_key)
    ∷ []

abbrev store : MemoryStorage
store = run calls new_memory

abbrev web_at : ℕ → ℕ → Service
web_at made changed = record web { created_at = made; updated_at = changed }

delete_service_cascades_example :
    (get_service (text "web") (delete_service (text "web") store).1 ≡ err service_not_found)
    × ((j : Str)
        → text "web" ≢ j
        → get_service j (delete_service (text "web") store).1 ≡ get_service j store)
    × OnlyOtherRoutes (text "web") store (delete_service (text "web") store).1
    × (others_of (delete_service (text "web") store).1 ≡ others_of store)
unfolding run step create_service create_route create_user create_api_key notify_watchers watch send
    send_all lookup insert delete_service list_beq
delete_service_cascades_example =
    delete_service_cascades (text "web") store (delete_service (text "web") store).1
      (run-new_memory-IsConsistent calls).routing refl

run-new_memory-IsConsistent_example : IsConsistent store
run-new_memory-IsConsistent_example = run-new_memory-IsConsistent calls

delete_service_events_example :
    (length (delete_service (text "web") store).1.watchers ≡ length store.watchers)
    × ((i : ℕ) (ch : Channel)
        → get_elem? store.watchers i ≡ some ch
        → HasRoom (length (cascade_events (text "web") store.routes) + 1) ch
        → get_elem? (delete_service (text "web") store).1.watchers i
          ≡ some (
              received
                (cascade_events (text "web") store.routes
                  ++ service_event (text "deleted") (text "web") (web_at 5 5) ∷ [])
                ch))
unfolding run step create_service create_route create_user create_api_key notify_watchers watch send
    send_all lookup insert list_beq delete_service get_service cascade_events
delete_service_events_example =
    delete_service_events (text "web") (web_at 5 5) store (delete_service (text "web") store).1
      (run-new_memory-IsConsistent calls).routing refl refl

step_failed_example : (step (creates_service 8 (some web)) store).1 ≡ store
unfolding run step create_service create_route create_user create_api_key notify_watchers watch send
    send_all lookup insert list_beq
step_failed_example = step_failed (creates_service 8 (some web)) store already_exists refl

abbrev no_user : Error
no_user = new (text "user not found")

abbrev ann_at : Str → ℕ → User
ann_at name changed = record ann { username = name; created_at = 6; updated_at = changed }

delete_user_revokes_example :
    (get_user (text "u1") (delete_user (text "u1") store).1 ≡ err no_user)
    × (get_user_by_username (text "ann") (delete_user (text "u1") store).1 ≡ err no_user)
    × ((now : ℕ) (key : Str) (a : ApiKey)
        → (get_api_key now key (delete_user (text "u1") store).1).0 ≡ ok a
        → text "u1" ≢ a.user_id)
    × ((key : Str) (a : ApiKey)
        → lookup key store.api_keys ≡ some a
        → a.user_id ≢ text "u1"
        → lookup key (delete_user (text "u1") store).1.api_keys ≡ some a)
unfolding run step create_service create_route create_user create_api_key notify_watchers watch send
    send_all lookup insert list_beq delete_user get_user
delete_user_revokes_example =
    delete_user_revokes (text "u1") (ann_at (text "ann") 6) store (delete_user (text "u1") store).1
      (run-new_memory-IsConsistent calls).directory refl refl
