-- ===== src/Storage/Contract/Objects.antt =====
-- Reading back what CreateService, UpdateService, CreateRoute and UpdateRoute of
-- internal/storage/memory.go have written.
use discobox.Prelude.{
  Str, ℕ, ◌≡◌, ◌≢◌, inl, inr, Bool, true, false, not, some, if◌then◌else◌, str_eq, arith,
  Option-cases,
}
use discobox.Prelude.Dict.{lookup, has, lookup-insert_self, lookup-insert_ne}
use discobox.Types.Errors.{ok}
use discobox.Types.Service.{Service}
use discobox.Types.Route.{Route}
use discobox.Storage.Memory.{
  MemoryStorage, notify_watchers, create_service, update_service, get_service, create_route,
  update_route, get_route,
}

-- The other services are those of before.
abbrev pub OnlyService : Str → MemoryStorage → MemoryStorage → Type 0
OnlyService id s t = (j : Str) → id ≢ j → get_service j t ≡ get_service j s

abbrev pub OnlyRoute : Str → MemoryStorage → MemoryStorage → Type 0
OnlyRoute id s t = (j : Str) → id ≢ j → get_route j t ≡ get_route j s

-- CreateService succeeds only on a new id; the object is then read back with both timestamps set to
-- the clock, and all other services are as before.
pub create-get_service :
    (now : ℕ) (service made : Service) (s t : MemoryStorage)
    → create_service now (some service) s ≡ (ok made, t)
    → (has service.id s.services ≡ false)
      × (made ≡ record service { created_at = now; updated_at = now })
      × (get_service service.id t ≡ ok made)
      × OnlyService service.id s t
unfolding create_service notify_watchers get_service
create-get_service now service made s t h =
    let stamped : Service = record service { created_at = now; updated_at = now } in
    (
      ground arith,
      ground arith,
      ground (arith, lookup-insert_self service.id stamped s.services),
      λ j other. ground (arith, lookup-insert_ne service.id j stamped s.services other),
    )

-- UpdateService succeeds only on an id that is there; the object is then read back with the old
-- creation time and the clock as its time of update, and all other services are as before.
pub update-get_service :
    (now : ℕ) (service made : Service) (s t : MemoryStorage)
    → update_service now (some service) s ≡ (ok made, t)
    → (old : Service) × (get_service service.id s ≡ ok old)
      × (made ≡ record service { created_at = old.created_at; updated_at = now })
      × (get_service service.id t ≡ ok made)
      × OnlyService service.id s t
unfolding update_service notify_watchers get_service
update-get_service now service made s t h = elim (Option-cases (lookup service.id s.services)) [
  | inl p ↦ absurd (ground (arith, p))
  | inr (old, p) ↦
      let stamped : Service = record service { created_at = old.created_at; updated_at = now } in
      (
        old,
        ground (arith, p),
        ground (arith, p),
        ground (arith, p, lookup-insert_self service.id stamped s.services),
        λ j other. ground (arith, p, lookup-insert_ne service.id j stamped s.services other),
      )
]

-- Both route writes need the service; the route is then read back unchanged, the other routes are
-- as before, and CreateRoute wants a new id where UpdateRoute wants one that is there.
pub put-get_route :
    (fresh : Bool) (route : Route) (s t : MemoryStorage)
    → (if fresh then create_route (some route) s else update_route (some route) s) ≡ (ok tt, t)
    → (has route.id s.routes ≡ not fresh)
      × (has route.service_id s.services ≡ true)
      × (get_route route.id t ≡ ok route)
      × OnlyRoute route.id s t
unfolding create_route update_route notify_watchers get_route
put-get_route true route s t h = (
  ground arith,
  ground arith,
  ground (arith, lookup-insert_self route.id route s.routes),
  λ j other. ground (arith, lookup-insert_ne route.id j route s.routes other),
)
put-get_route false route s t h = (
  ground arith,
  ground arith,
  ground (arith, lookup-insert_self route.id route s.routes),
  λ j other. ground (arith, lookup-insert_ne route.id j route s.routes other),
)
