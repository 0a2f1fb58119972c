-- ===== src/Storage/Consistency/Cascade.antt =====
-- internal/storage/memory.go: DeleteService and the routes that go with the service.
use discobox.Prelude.{
  Str, ℕ, ◌≡◌, refl, ◌≢◌, ◌∙◌, inl, inr, List, [], ◌∷◌, none, some, arith, if◌then◌else◌, ◌==◌,
  str_eq, Option-cases,
}
use discobox.Prelude.Dict.{Dict, lookup, lookup-erase}
use discobox.Prelude.Ranges.{listed, holds, listed-keys_where}
use discobox.Types.Route.{Route}
use discobox.Types.User.{User, ApiKey}
use discobox.Storage.Memory.{
  MemoryStorage, Channel, notify_watchers, delete_service, delete_listed_route,
  delete_listed_routes, routes_to_delete,
}
use discobox.Storage.Consistency.Routing.{Routing, drop_route-IsRouting, drop_service-IsRouting}

-- One round of the cascade, and all of them: the services stay, and the listed routes go.
pub services-delete_listed_route :
    (id : Str) (s : MemoryStorage) → (delete_listed_route id s).services ≡ s.services
unfolding delete_listed_route notify_watchers
services-delete_listed_route id s = ground arith

abbrev pub Others : Type 0
Others = Dict Str User × Dict Str Str × Dict Str ApiKey × List Channel × ℕ

-- All but the services, the routes and the watchers of a store.
abbrev pub others_of : MemoryStorage → Others
others_of s = (s.users, s.usernames, s.api_keys, s.closed, s.opened)

others_of-delete_listed_route :
    (id : Str) (s : MemoryStorage) → others_of (delete_listed_route id s) ≡ others_of s
unfolding delete_listed_route notify_watchers
others_of-delete_listed_route id s = elim (Option-cases (lookup id s.routes)) [
  | inl p ↦ rw (p, delete_listed_route) refl
  | inr (r, p) ↦ rw (p, delete_listed_route) refl
]

pub others_of-delete_listed_routes :
    (ids : List Str) (s : MemoryStorage) → others_of (delete_listed_routes ids s) ≡ others_of s
unfolding delete_listed_routes
others_of-delete_listed_routes [] s = refl
others_of-delete_listed_routes (id ∷ ids) s =
    others_of-delete_listed_routes ids (delete_listed_route id s)
    ∙ others_of-delete_listed_route id s

pub lookup-delete_listed_route :
    (id j : Str) (s : MemoryStorage)
    → lookup j (delete_listed_route id s).routes ≡ (if id == j then none else lookup j s.routes)
unfolding delete_listed_route notify_watchers
lookup-delete_listed_route id j s = elim (Option-cases (lookup id s.routes)) [
  | inl p ↦ ground (arith, p, str_eq.beq_iff id j)
  | inr (r, p) ↦ rw (p, delete_listed_route) (lookup-erase id j s.routes)
]

delete_listed_route-Routing :
    (id : Str) (s : MemoryStorage) → Routing s → Routing (delete_listed_route id s)
unfolding delete_listed_route notify_watchers
delete_listed_route-Routing id s v = elim (Option-cases (lookup id s.routes)) [
  | inl p ↦ rw (p, delete_listed_route) v
  | inr (r, p) ↦ rw (p, delete_listed_route) (drop_route-IsRouting v id)
]

delete_listed_routes-Routing :
    (ids : List Str) (s : MemoryStorage) → Routing s → Routing (delete_listed_routes ids s)
unfolding delete_listed_routes
delete_listed_routes-Routing [] s v = v
delete_listed_routes-Routing (id ∷ ids) s v =
    delete_listed_routes-Routing ids (delete_listed_route id s) (delete_listed_route-Routing id s v)

pub services-delete_listed_routes :
    (ids : List Str) (s : MemoryStorage) → (delete_listed_routes ids s).services ≡ s.services
unfolding delete_listed_routes
services-delete_listed_routes [] s = refl
services-delete_listed_routes (id ∷ ids) s =
    services-delete_listed_routes ids (delete_listed_route id s) ∙ services-delete_listed_route id s

pub lookup-delete_listed_routes :
    (ids : List Str) (j : Str) (s : MemoryStorage)
    → lookup j (delete_listed_routes ids s).routes
      ≡ (if listed j ids then none else lookup j s.routes)
unfolding delete_listed_routes
lookup-delete_listed_routes [] j s = refl
lookup-delete_listed_routes (id ∷ ids) j s =
    lookup-delete_listed_routes ids j (delete_listed_route id s)
    ∙ ground (arith, lookup-delete_listed_route id j s, str_eq.beq_iff id j)

-- After the cascade of a service, a route is there if it was there and refers to another service.
pub lookup-cascade :
    (id j : Str) (s : MemoryStorage)
    → Routing s
    → lookup j (delete_listed_routes (routes_to_delete id s) s).routes ≡ (
        if holds (λ (r : Route). r.service_id == id) (lookup j s.routes)
        then none
        else lookup j s.routes)
unfolding routes_to_delete
lookup-cascade id j s v = rw (
  lookup-delete_listed_routes (routes_to_delete id s) j s,
  listed-keys_where _ j s.routes v.routes_distinct,
)

cascade_unused :
    (id j : Str) (r : Route) (s : MemoryStorage)
    → Routing s
    → lookup j (delete_listed_routes (routes_to_delete id s) s).routes ≡ some r
    → id ≢ r.service_id
cascade_unused id j r s v h same =
    ground (arith, lookup-cascade id j s v, str_eq.beq_iff r.service_id id)

pub delete_service-Routing :
    (s : MemoryStorage) → Routing s → (id : Str) → Routing (delete_service id s).1
unfolding delete_service notify_watchers
delete_service-Routing s v id = elim (Option-cases (lookup id s.services)) [
  | inl p ↦ rw (p, delete_service) v
  | inr (old, p) ↦
      rw (p, delete_service)
        (drop_service-IsRouting (delete_listed_routes-Routing (routes_to_delete id s) s v) id
          (λ j r h. cascade_unused id j r s v h))
]
