-- ===== src/Storage/Calls/Invariant.antt =====
-- The invariant of the whole store under every sequence of calls.
use mathlib.Core.List.{not-mem-nil, Nodup-nil}
use discobox.Prelude.{ℕ, List, [], ◌∷◌, str_eq}
use discobox.Prelude.Dict.{lookup}
use discobox.Types.Errors.{Result, ok, err}
use discobox.Storage.Memory.{MemoryStorage, new_memory, watch, cancel, close}
use discobox.Storage.Consistency.Routing.{Routing}
use discobox.Storage.Consistency.Rules.{
  create_service-Routing, update_service-Routing, create_route-Routing, update_route-Routing,
  delete_route-Routing,
}
use discobox.Storage.Consistency.Cascade.{delete_service-Routing}
use discobox.Storage.Consistency.Accounts.{
  Directory, create_user-Directory, update_user-Directory, delete_user-Directory,
  get_api_key-Directory, create_api_key-Directory, revoke_api_key-Directory,
}
use discobox.Storage.Calls.Channels.{
  Channels, receive-Channels, cancel-Channels, close-Channels, watch-Channels,
}
use discobox.Storage.Calls.{
  Call, creates_service, updates_service, deletes_service, creates_route, updates_route,
  deletes_route, creates_user, updates_user, deletes_user, reads_api_key, creates_api_key,
  revokes_api_key, watches, cancels, receives, closes, report, receive, step, run,
}
use discobox.Storage.Calls.Frames.{
  RestAfter, OthersAfter, create_service-Rest, update_service-Rest, delete_service-Rest,
  create_route-Rest, update_route-Rest, delete_route-Rest, create_user-Others, update_user-Others,
  delete_user-Others, get_api_key-Others, create_api_key-Others, revoke_api_key-Others,
}

pub record IsConsistent (s : MemoryStorage) : Type 0 where
  pub routing : Routing s
  pub directory : Directory s
  pub channels : Channels s

-- The store that a call reports is the one that it returns.
report-IsConsistent :
    {A : Type 0} (r : Result A × MemoryStorage) → IsConsistent r.1 → IsConsistent (report r).1
report-IsConsistent (ok a, s) v = v
report-IsConsistent (err e, s) v = v

by-Routing :
    {A : Type 0} (r : Result A × MemoryStorage)
    → Routing r.1
    → RestAfter r
    → IsConsistent (report r).1
by-Routing r v w = report-IsConsistent r (record { routing = v; directory = w.0; channels = w.1 })

by-Directory :
    {A : Type 0} (r : Result A × MemoryStorage)
    → Directory r.1
    → OthersAfter r
    → IsConsistent (report r).1
by-Directory r v w = report-IsConsistent r (record { routing = w.0; directory = v; channels = w.1 })

-- The four calls that only touch channels.
module _ {s : MemoryStorage} (v : IsConsistent s) where
  with_watch : IsConsistent (watch s).1
  unfolding watch
  with_watch = record {
    routing = v.routing;
    directory = v.directory;
    channels = watch-Channels s v.channels;
  }

  with_cancel : (id : ℕ) → IsConsistent (cancel id s)
  unfolding cancel
  with_cancel id = record {
    routing = v.routing;
    directory = v.directory;
    channels = cancel-Channels s v.channels id;
  }

  with_receive : (id : ℕ) → IsConsistent (receive id s)
  unfolding receive
  with_receive id = record {
    routing = v.routing;
    directory = v.directory;
    channels = receive-Channels s v.channels id;
  }

  with_close : IsConsistent (close s)
  unfolding close
  with_close = record {
    routing = v.routing;
    directory = v.directory;
    channels = close-Channels s v.channels;
  }

-- Every call keeps the invariant.
pub step-IsConsistent : (c : Call) (s : MemoryStorage) → IsConsistent s → IsConsistent (step c s).1
unfolding step
step-IsConsistent (creates_service now o) s v =
    by-Routing _ (create_service-Routing s v.routing now o)
      (create_service-Rest s (v.directory, v.channels) now o)
step-IsConsistent (updates_service now o) s v =
    by-Routing _ (update_service-Routing s v.routing now o)
      (update_service-Rest s (v.directory, v.channels) now o)
step-IsConsistent (deletes_service id) s v =
    by-Routing _ (delete_service-Routing s v.routing id)
      (delete_service-Rest s (v.directory, v.channels) id)
step-IsConsistent (creates_route o) s v =
    by-Routing _ (create_route-Routing s v.routing o)
      (create_route-Rest s (v.directory, v.channels) o)
step-IsConsistent (updates_route o) s v =
    by-Routing _ (update_route-Routing s v.routing o)
      (update_route-Rest s (v.directory, v.channels) o)
step-IsConsistent (deletes_route id) s v =
    by-Routing _ (delete_route-Routing s v.routing id)
      (delete_route-Rest s (v.directory, v.channels) id)
step-IsConsistent (creates_user now o) s v =
    by-Directory _ (create_user-Directory s v.directory now o)
      (create_user-Others s (v.routing, v.channels) now o)
step-IsConsistent (updates_user now o) s v =
    by-Directory _ (update_user-Directory s v.directory now o)
      (update_user-Others s (v.routing, v.channels) now o)
step-IsConsistent (deletes_user id) s v =
    by-Directory _ (delete_user-Directory s v.directory id)
      (delete_user-Others s (v.routing, v.channels) id)
step-IsConsistent (reads_api_key now key) s v =
    by-Directory _ (get_api_key-Directory s v.directory now key)
      (get_api_key-Others s (v.routing, v.channels) now key)
step-IsConsistent (creates_api_key now o) s v =
    by-Directory _ (create_api_key-Directory s v.directory now o)
      (create_api_key-Others s (v.routing, v.channels) now o)
step-IsConsistent (revokes_api_key key) s v =
    by-Directory _ (revoke_api_key-Directory s v.directory key)
      (revoke_api_key-Others s (v.routing, v.channels) key)
step-IsConsistent watches s v = with_watch v
step-IsConsistent (cancels id) s v = with_cancel v id
step-IsConsistent (receives id) s v = with_receive v id
step-IsConsistent closes s v = with_close v

run-IsConsistent : (cs : List Call) (s : MemoryStorage) → IsConsistent s → IsConsistent (run cs s)
unfolding run
run-IsConsistent [] s v = v
run-IsConsistent (c ∷ cs) s v = run-IsConsistent cs (step c s).1 (step-IsConsistent c s v)

new_memory-IsConsistent : IsConsistent new_memory
unfolding lookup
new_memory-IsConsistent = record {
  routing = record {
    services_distinct = tt;
    services_keyed = λ k v h. cc;
    routes_distinct = tt;
    routes_keyed = λ k v h. cc;
    served = λ k v h. cc;
  };
  directory = record {
    users_distinct = tt;
    users_keyed = λ k v h. cc;
    index = record { indexed = λ k v h. cc; named = λ k v h. cc };
    keys_distinct = tt;
    keys_keyed = λ k v h. cc;
    owned = λ k v h. cc;
  };
  channels = record {
    bounded = tt;
    numbered = λ i m. absurd (not-mem-nil m);
    distinct = Nodup-nil;
  };
}

-- After any sequence of calls on a new store every route refers to a service that is there, the
-- index of names and the users agree, every API key belongs to a user that is there, no buffer of
-- a watcher holds more than its capacity, and no channel is at once open and closed or closed twice.
pub run-new_memory-IsConsistent : (cs : List Call) → IsConsistent (run cs new_memory)
run-new_memory-IsConsistent cs = run-IsConsistent cs new_memory new_memory-IsConsistent
