-- ===== src/Router/Reloading.antt =====
-- AddRoute and RemoveRoute of internal/router/router.go, with the store: what Match answers after.
mod Tests
use mathlib.Core.List.{Mem}
use discobox.Prelude.{
  Str, ◌≡◌, ◌≢◌, refl, sym, ap, subst, ◌∙◌, ◌⊎◌, inl, inr, Bool, true, false, List, [], ◌∷◌, Option,
  none, some, if◌then◌else◌, ◌==◌, str_eq, arith, All, any, Bool-cases, Option-cases, beq-cases,
  beq_self,
}
use discobox.Prelude.Dict.{
  Dict, lookup, erase, values, IsFresh, IsDict, lookup_fresh, lookup-erase_self,
}
use discobox.Prelude.Integrity.{IsKeyed}
use discobox.Prelude.Members.{All-mem, All-map}
use discobox.Types.Errors.{Result, ok, err, route_not_found}
use discobox.Types.Route.{Route}
use discobox.Storage.Memory.{
  MemoryStorage, create_route, delete_route, get_route, list_routes, notify_watchers,
}
use discobox.Storage.Consistency.Routing.{Routing, route_id}
use discobox.Storage.Consistency.Rules.{create_route-Routing, delete_route-Routing}
use discobox.Storage.Contract.Objects.{put-get_route}
use discobox.Router.Loading.{IsDistinct}
use discobox.Router.Matching.{accepts, match_request_complete, match_request_sound}
use discobox.Router.Operations.{add_route, remove_route}
use discobox.Router.Routing.{Regexp, Request, Router, loaded, load_routes, reload, match_request}

IsKeyed-tail :
    (k : Str) (r : Route) (m : Dict Str Route)
    → IsFresh k m
    → IsKeyed route_id ((k, r) ∷ m)
    → IsKeyed route_id m
unfolding lookup
IsKeyed-tail k r m fresh keyed j w there = elim (beq-cases k j) [
  | inl (same, b) ↦ absurd (cc (lookup_fresh k m fresh, there, same))
  | inr (other, b) ↦ keyed j w (ground (arith, b, there))
]

IsKeyed-head : (k : Str) (r : Route) (m : Dict Str Route) → IsKeyed route_id ((k, r) ∷ m) → r.id ≡ k
unfolding lookup
IsKeyed-head k r m keyed = keyed k r (ground (arith, beq_self k))

values_other :
    (k : Str) (m : Dict Str Route)
    → IsFresh k m
    → IsDict m
    → IsKeyed route_id m
    → All (λ s. s.id ≢ k) (values m)
values_other k [] fresh d keyed = tt
values_other k ((j, r) ∷ m) fresh d keyed = (
  (λ e. fresh.0 (sym (IsKeyed-head j r m keyed) ∙ e)),
  values_other k m fresh.1 d.1 (IsKeyed-tail j r m d.0 keyed),
)

-- The stored routes have distinct IDs.
values-IsDistinct : (m : Dict Str Route) → IsDict m → IsKeyed route_id m → IsDistinct (values m)
values-IsDistinct [] d keyed = tt
values-IsDistinct ((k, r) ∷ m) d keyed =
    let own = IsKeyed-head k r m keyed in
    let tail = IsKeyed-tail k r m d.0 keyed in
    (
      All-map (λ s other e. other (sym e ∙ own)) (values m) (values_other k m d.0 d.1 tail),
      values-IsDistinct m d.1 tail,
    )

any-values :
    (p : Route → Bool) (k : Str) (r : Route) (m : Dict Str Route)
    → lookup k m ≡ some r
    → p r ≡ true
    → any p (values m) ≡ true
unfolding lookup
any-values p k r [] there h = absurd (cc there)
any-values p k r ((j, s) ∷ m) there h = elim (Bool-cases (j == k)) [
  | inl t ↦ ground (arith, t, there, h)
  | inr f ↦ ground (arith, any-values p k r m (rw f at there) h)
]

-- What is left after an erasure has another ID.
erased_other :
    (k : Str) (m : Dict Str Route)
    → IsDict m
    → IsKeyed route_id m
    → lookup k m ≡ none
    → All (λ s. s.id ≢ k) (values m)
unfolding lookup
erased_other k [] d keyed gone = tt
erased_other k ((j, r) ∷ m) d keyed gone = elim (beq-cases j k) [
  | inl (same, b) ↦ absurd (cc (rw b at gone))
  | inr (other, b) ↦ (
    (λ e. other (sym (IsKeyed-head j r m keyed) ∙ e)),
    erased_other k m d.1 (IsKeyed-tail j r m d.0 keyed) (rw b at gone),
  )
]

module _ {R : Type 0} (re : Regexp R) where
  reload_ok :
      (x : Result (Unit {0}) × MemoryStorage) (router router' : Router R) (t : MemoryStorage)
      → reload re x router ≡ (ok tt, t, router')
      → (x ≡ (ok tt, t)) × (router' ≡ loaded re (values t.routes))
  unfolding reload load_routes list_routes
  reload_ok (err e, s) router router' t h = absurd (cc h)
  reload_ok (ok u, s) router router' t h = (cc h, cc h)

lookup-get_route :
    (k : Str) (r : Route) (t : MemoryStorage) → get_route k t ≡ ok r → lookup k t.routes ≡ some r
unfolding get_route
lookup-get_route k r t h = elim (Option-cases (lookup k t.routes)) [
  | inl gone ↦ absurd (ground (arith, gone))
  | inr (s, there) ↦ ground (arith, there)
]

lookup-delete_route :
    (id : Str) (s t : MemoryStorage) → delete_route id s ≡ (ok tt, t) → lookup id t.routes ≡ none
unfolding delete_route notify_watchers
lookup-delete_route id s t h = elim (Option-cases (lookup id s.routes)) [
  | inl gone ↦ absurd (ground (arith, gone))
  | inr (r, there) ↦ ground (arith, there, lookup-erase_self id s.routes)
]

-- When AddRoute has succeeded on a store that keeps the invariant of routes and services, a request
-- that the new route accepts is answered with a route.
pub add_route_serves :
    {R : Type 0} (re : Regexp R) (req : Request) (route : Route) (s t : MemoryStorage)
    (router router' : Router R)
    → Routing s
    → add_route re (some route) s router ≡ (ok tt, t, router')
    → accepts re req route ≡ true
    → (r : Route) × (match_request re req router' ≡ ok r)
unfolding add_route
add_route_serves re req route s t router router' v h fits =
    let done = reload_ok re (create_route (some route) s) router router' t h in
    let w : Routing t =
      subst (λ (x : Result (Unit {0}) × MemoryStorage). Routing x.1) done.0
        (create_route-Routing s v (some route)) in
    let stored = lookup-get_route route.id route t (put-get_route true route s t done.0).2 in
    let listed = any-values (accepts re req) route.id route t.routes stored fits in
    let distinct = values-IsDistinct t.routes w.routes_distinct w.routes_keyed in
    elim (match_request_complete re req (values t.routes) distinct) [
      | inl (missed, nothing) ↦ absurd (cc (nothing, listed))
      | inr (r, answer, some_) ↦ (r, ap (match_request re req) done.1 ∙ answer)
    ]

-- When RemoveRoute has succeeded on a store that keeps the invariant of routes and services, no
-- request is answered with a route of that ID.
pub remove_route_gone :
    {R : Type 0} (re : Regexp R) (req : Request) (id : Str) (r : Route) (s t : MemoryStorage)
    (router router' : Router R)
    → Routing s
    → remove_route re id s router ≡ (ok tt, t, router')
    → match_request re req router' ≡ ok r
    → r.id ≢ id
unfolding remove_route
remove_route_gone re req id r s t router router' v h answer =
    let done = reload_ok re (delete_route id s) router router' t h in
    let w : Routing t =
      subst (λ (x : Result (Unit {0}) × MemoryStorage). Routing x.1) done.0
        (delete_route-Routing s v id) in
    let distinct = values-IsDistinct t.routes w.routes_distinct w.routes_keyed in
    let sound =
      match_request_sound re req (values t.routes) r distinct
        (sym (ap (match_request re req) done.1) ∙ answer) in
    All-mem (λ a. hlevel) (values t.routes)
      (erased_other id t.routes w.routes_distinct w.routes_keyed
        (lookup-delete_route id s t done.0))
      sound.0
