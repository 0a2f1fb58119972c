-- ===== src/Storage/Consistency/Rules.antt =====
-- internal/storage/memory.go: the operations that write one service or one route keep the routing.
use discobox.Prelude.{
  Str, ℕ, inl, inr, Option, none, some, str_eq, Option-cases, not, if-cases, not-eq-false,
}
use discobox.Prelude.Dict.{lookup, has}
use discobox.Types.Errors.{Result}
use discobox.Types.Service.{Service}
use discobox.Types.Route.{Route}
use discobox.Storage.Memory.{
  MemoryStorage, notify_watchers, create_service, update_service, create_route, update_route,
  delete_route,
}
use discobox.Storage.Consistency.Routing.{
  Routing, put_service-IsRouting, put_route-IsRouting, drop_route-IsRouting,
}

abbrev RoutingAfter : {A : Type 0} → Result A × MemoryStorage → Type 0
RoutingAfter r = Routing r.1

module _ (s : MemoryStorage) (v : Routing s) where
  pub create_service-Routing : (now : ℕ) (o : Option Service) → Routing (create_service now o s).1
  unfolding create_service notify_watchers
  create_service-Routing now none = v
  create_service-Routing now (some service) =
      if-cases RoutingAfter (has service.id s.services) (λ _. v)
        (λ _. put_service-IsRouting v (record service { created_at = now; updated_at = now }))

  pub update_service-Routing : (now : ℕ) (o : Option Service) → Routing (update_service now o s).1
  unfolding update_service notify_watchers
  update_service-Routing now none = v
  update_service-Routing now (some service) = elim (Option-cases (lookup service.id s.services)) [
    | inl p ↦ rw (p, update_service) v
    | inr (old, p) ↦
        rw (p, update_service)
          (put_service-IsRouting v
            (record service { updated_at = now; created_at = old.created_at }))
  ]

  pub create_route-Routing : (o : Option Route) → Routing (create_route o s).1
  unfolding create_route notify_watchers
  create_route-Routing none = v
  create_route-Routing (some route) =
      if-cases RoutingAfter (has route.id s.routes) (λ _. v)
        λ _.
          if-cases RoutingAfter (not (has route.service_id s.services)) (λ _. v)
            λ there. put_route-IsRouting v route (not-eq-false _ there)

  pub update_route-Routing : (o : Option Route) → Routing (update_route o s).1
  unfolding update_route notify_watchers
  update_route-Routing none = v
  update_route-Routing (some route) =
      if-cases RoutingAfter (not (has route.id s.routes)) (λ _. v)
        λ _.
          if-cases RoutingAfter (not (has route.service_id s.services)) (λ _. v)
            λ there. put_route-IsRouting v route (not-eq-false _ there)

  pub delete_route-Routing : (id : Str) → Routing (delete_route id s).1
  unfolding delete_route notify_watchers
  delete_route-Routing id = elim (Option-cases (lookup id s.routes)) [
    | inl p ↦ rw (p, delete_route) v
    | inr (old, p) ↦ rw (p, delete_route) (drop_route-IsRouting v id)
  ]
