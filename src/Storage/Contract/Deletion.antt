-- ===== src/Storage/Contract/Deletion.antt =====
-- DeleteService of internal/storage/memory.go: what is gone afterwards, and what is left.
use discobox.Prelude.{
  Str, ◌≡◌, ◌≢◌, refl, sym, ap, ◌∙◌, some, inl, inr, str_eq, arith, Option-cases,
}
use discobox.Prelude.Dict.{lookup, lookup-erase_self, lookup-erase_ne}
use discobox.Types.Errors.{Result, ok, err, service_not_found}
use discobox.Types.Service.{Service}
use discobox.Types.Route.{Route}
use discobox.Storage.Memory.{
  MemoryStorage, notify_watchers, delete_service, get_service, get_route, routes_to_delete,
}
use discobox.Storage.Consistency.Routing.{Routing}
use discobox.Storage.Consistency.Cascade.{
  lookup-cascade, services-delete_listed_routes, others_of, others_of-delete_listed_routes,
}

-- The routes after a service is deleted: those of other services, and no others.
abbrev pub OnlyOtherRoutes : Str → MemoryStorage → MemoryStorage → Type 0
OnlyOtherRoutes id s t =
    (j : Str) (r : Route)
    → (get_route j t ≡ ok r → (get_route j s ≡ ok r) × (r.service_id ≢ id))
      × (get_route j s ≡ ok r → r.service_id ≢ id → get_route j t ≡ ok r)

-- DeleteService deletes the service with every route that refers to it. All other services and
-- routes are read as before, and the users, their names, the API keys and the closed channels are
-- those of before.
pub delete_service_cascades :
    (id : Str) (s t : MemoryStorage)
    → Routing s
    → delete_service id s ≡ (ok tt, t)
    → (get_service id t ≡ err service_not_found)
      × ((j : Str) → id ≢ j → get_service j t ≡ get_service j s)
      × OnlyOtherRoutes id s t
      × (others_of t ≡ others_of s)
unfolding delete_service notify_watchers get_service get_route
delete_service_cascades id s t v h = elim (Option-cases (lookup id s.services)) [
  | inl p ↦ absurd (ground (arith, p))
  | inr (old, p) ↦
      let kept = services-delete_listed_routes (routes_to_delete id s) s in
      (
        ground (arith, p, kept, lookup-erase_self id s.services),
        λ j other. ground (arith, p, kept, lookup-erase_ne id j s.services other),
        λ j r. (
          λ q. ground (arith, p, lookup-cascade id j s v, str_eq.beq_iff r.service_id id),
          λ q other. ground (arith, p, lookup-cascade id j s v, str_eq.beq_iff r.service_id id),
        ),
        dropped old p,
      )
]
  where
    dropped : (old : Service) → lookup id s.services ≡ some old → others_of t ≡ others_of s
    dropped old p =
        ap others_of (sym (ap (λ (x : Result (Unit {0}) × MemoryStorage). x.1) h))
        ∙ rw (p, delete_service) refl
        ∙ others_of-delete_listed_routes (routes_to_delete id s) s
