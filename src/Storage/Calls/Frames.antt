-- ===== src/Storage/Calls/Frames.antt =====
-- What each operation of internal/storage/memory.go leaves alone, and the channels, which it only
-- sends to.
use discobox.Prelude.{
  Str, ℕ, ◌≡◌, ◌⊎◌, inl, inr, not, List, [], ◌∷◌, Option, none, some, ◌==◌, str_eq, Option-cases,
  if-cases,
}
use discobox.Prelude.Dict.{lookup, has}
use discobox.Types.Errors.{Result}
use discobox.Types.Service.{Service}
use discobox.Types.Route.{Route}
use discobox.Types.User.{User, ApiKey}
use discobox.Storage.Memory.{
  MemoryStorage, notify_watchers, create_service, update_service, delete_service, create_route,
  update_route, delete_route, create_user, update_user, delete_user, get_api_key, create_api_key,
  revoke_api_key, delete_listed_route, delete_listed_routes, routes_to_delete,
}
use discobox.Storage.Consistency.Routing.{Routing}
use discobox.Storage.Consistency.Accounts.{Directory}
use discobox.Storage.Calls.Channels.{Channels, send_all-IsChannels}

-- The cascade leaves the users and keys alone, and sends only events.
cascade_keeps :
    (ids : List Str) (s : MemoryStorage)
    → Directory s × Channels s
    → Directory (delete_listed_routes ids s) × Channels (delete_listed_routes ids s)
unfolding delete_listed_routes delete_listed_route notify_watchers
cascade_keeps [] s v = v
cascade_keeps (id ∷ ids) s v =
    cascade_keeps ids (delete_listed_route id s) (one (Option-cases (lookup id s.routes)))
  where
    one :
        (lookup id s.routes ≡ none) ⊎ ((r : Route) × (lookup id s.routes ≡ some r))
        → Directory (delete_listed_route id s) × Channels (delete_listed_route id s)
    one (inl p) = rw (p, delete_listed_route) v
    one (inr (r, p)) = rw (p, delete_listed_route) (v.0, send_all-IsChannels _ v.1)

-- What a call on services or routes keeps: the directory, and the channels.
abbrev pub RestAfter : {A : Type 0} → Result A × MemoryStorage → Type 0
RestAfter r = Directory r.1 × Channels r.1

module _ (s : MemoryStorage) (v : Directory s × Channels s) where
  pub create_service-Rest : (now : ℕ) (o : Option Service) → RestAfter (create_service now o s)
  unfolding create_service notify_watchers
  create_service-Rest now none = v
  create_service-Rest now (some service) =
      if-cases RestAfter (has service.id s.services) (λ _. v)
        (λ _. (v.0, send_all-IsChannels _ v.1))

  pub update_service-Rest : (now : ℕ) (o : Option Service) → RestAfter (update_service now o s)
  unfolding update_service notify_watchers
  update_service-Rest now none = v
  update_service-Rest now (some service) = elim (Option-cases (lookup service.id s.services)) [
    | inl p ↦ rw (p, update_service) v
    | inr (old, p) ↦ rw (p, update_service) (v.0, send_all-IsChannels _ v.1)
  ]

  pub delete_service-Rest : (id : Str) → RestAfter (delete_service id s)
  unfolding delete_service notify_watchers
  delete_service-Rest id = elim (Option-cases (lookup id s.services)) [
    | inl p ↦ rw (p, delete_service) v
    | inr (old, p) ↦
        let kept = cascade_keeps (routes_to_delete id s) s v in
        rw (p, delete_service) (kept.0, send_all-IsChannels _ kept.1)
  ]

  pub create_route-Rest : (o : Option Route) → RestAfter (create_route o s)
  unfolding create_route notify_watchers
  create_route-Rest none = v
  create_route-Rest (some route) =
      if-cases RestAfter (has route.id s.routes) (λ _. v)
        λ _.
          if-cases RestAfter (not (has route.service_id s.services)) (λ _. v)
            λ _. (v.0, send_all-IsChannels _ v.1)

  pub update_route-Rest : (o : Option Route) → RestAfter (update_route o s)
  unfolding update_route notify_watchers
  update_route-Rest none = v
  update_route-Rest (some route) =
      if-cases RestAfter (not (has route.id s.routes)) (λ _. v)
        λ _.
          if-cases RestAfter (not (has route.service_id s.services)) (λ _. v)
            λ _. (v.0, send_all-IsChannels _ v.1)

  pub delete_route-Rest : (id : Str) → RestAfter (delete_route id s)
  unfolding delete_route notify_watchers
  delete_route-Rest id = elim (Option-cases (lookup id s.routes)) [
    | inl p ↦ rw (p, delete_route) v
    | inr (old, p) ↦ rw (p, delete_route) (v.0, send_all-IsChannels _ v.1)
  ]

-- The calls on users and keys keep the routing and the channels, which they do not touch.
abbrev pub OthersAfter : {A : Type 0} → Result A × MemoryStorage → Type 0
OthersAfter r = Routing r.1 × Channels r.1

module _ (s : MemoryStorage) (v : Routing s × Channels s) where
  pub create_user-Others : (now : ℕ) (o : Option User) → OthersAfter (create_user now o s)
  unfolding create_user
  create_user-Others now none = v
  create_user-Others now (some user) =
      if-cases OthersAfter (has user.id s.users) (λ _. v)
        λ _. if-cases OthersAfter (has user.username s.usernames) (λ _. v) (λ _. v)

  pub update_user-Others : (now : ℕ) (o : Option User) → OthersAfter (update_user now o s)
  unfolding update_user
  update_user-Others now none = v
  update_user-Others now (some user) = elim (Option-cases (lookup user.id s.users)) [
    | inl p ↦ rw (p, update_user) v
    | inr (old, p) ↦
        rw (p, update_user)
          (if-cases OthersAfter (old.username == user.username) (λ _. v)
            λ _. if-cases OthersAfter (has user.username s.usernames) (λ _. v) (λ _. v))
  ]

  pub delete_user-Others : (id : Str) → OthersAfter (delete_user id s)
  unfolding delete_user
  delete_user-Others id = elim (Option-cases (lookup id s.users)) [
    | inl p ↦ rw (p, delete_user) v
    | inr (old, p) ↦ rw (p, delete_user) v
  ]

  pub get_api_key-Others : (now : ℕ) (key : Str) → OthersAfter (get_api_key now key s)
  unfolding get_api_key
  get_api_key-Others now key = elim (Option-cases (lookup key s.api_keys)) [
    | inl p ↦ rw (p, get_api_key) v
    | inr (a, p) ↦ rw (p, get_api_key) v
  ]

  pub create_api_key-Others : (now : ℕ) (o : Option ApiKey) → OthersAfter (create_api_key now o s)
  unfolding create_api_key
  create_api_key-Others now none = v
  create_api_key-Others now (some a) =
      if-cases OthersAfter (has a.key s.api_keys) (λ _. v)
        λ _. if-cases OthersAfter (not (has a.user_id s.users)) (λ _. v) (λ _. v)

  pub revoke_api_key-Others : (key : Str) → OthersAfter (revoke_api_key key s)
  unfolding revoke_api_key
  revoke_api_key-Others key = elim (Option-cases (lookup key s.api_keys)) [
    | inl p ↦ rw (p, revoke_api_key) v
    | inr (a, p) ↦ rw (p, revoke_api_key) v
  ]
