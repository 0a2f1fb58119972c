-- ===== src/Router/Precedence.antt =====
-- Which of several matching routes answers: the order of the candidates in
-- internal/router/host_router.go.
use discobox.Prelude.{
  ◌<◌, ◌≡◌, refl, sym, ap, subst, ◌∙◌, inl, inr, Bool, true, false, not, ◌&&◌, List, [], ◌∷◌, ◌++◌,
  some, str_eq, arith, is_empty, has_prefix, strip_port, drop, text, All, All-append, any,
  Bool-cases,
}
use discobox.Prelude.Counting.{
  count, find, count-append, count-none, count-congr, count-and-le, find-cases, find-append,
  find_sound, any-count,
}
use discobox.Prelude.Members.{All-map}
use discobox.Types.Errors.{ok}
use discobox.Types.Route.{Route, matches_host, matches_pattern}
use discobox.Router.HostRouter.{
  HostRouter, new_host_router, add_route, add_all, routes_at, wildcard_routes, find_routes,
}
use discobox.Router.Candidates.{find_routes_exact}
use discobox.Router.Members.{AllIn, AllIn-append_at, All-routes_at, All-wildcard_routes}
use discobox.Router.Loading.{IsDistinct, count-sort_routes}
use discobox.Router.Routing.{
  Regexp, Request, sort_routes, compile_all, loaded, passes, first_match, match_request,
}
use discobox.Router.Matching.{accepts, compiled_in_order, passes-accepts, match_request_sound}

-- The route names one host.
unfoldable pub is_exact : Route → Bool
is_exact r = not (is_empty r.host) && not (has_prefix r.host (text "*."))

-- The parts of the index: exact hosts in the first map, and others in the second and in the list.
abbrev IsParted : HostRouter → Type 0
IsParted h =
    AllIn (λ r. is_exact r ≡ true) h.exact_hosts
    × AllIn (λ r. is_exact r ≡ false) h.wildcards
    × All (λ r. is_exact r ≡ false) h.all_routes

add_route-IsParted : (r : Route) (h : HostRouter) → IsParted h → IsParted (add_route r h)
unfolding add_route is_exact
add_route-IsParted r h a = elim (Bool-cases (is_empty r.host)) [
  | inl all ↦ rw all (a.0, a.1, All-append _ h.all_routes (r ∷ []) a.2 (ground (arith, all), tt))
  | inr named ↦ elim (Bool-cases (has_prefix r.host (text "*."))) [
    | inl wild ↦
        rw (named, wild)
          (
            a.0,
            AllIn-append_at (λ s. is_exact s ≡ false) (drop 1 r.host) r h.wildcards
                (ground (arith, named, wild)) a.1,
            a.2,
          )
    | inr exact ↦
        rw (named, exact)
          (
            AllIn-append_at (λ s. is_exact s ≡ true) r.host r h.exact_hosts
                (ground (arith, named, exact)) a.0,
            a.1,
            a.2,
          )
  ]
]

add_all-IsParted : (rs : List Route) (h : HostRouter) → IsParted h → IsParted (add_all rs h)
unfolding add_all
add_all-IsParted [] h a = a
add_all-IsParted (r ∷ rs) h a = add_all-IsParted rs (add_route r h) (add_route-IsParted r h a)

-- An exact candidate that passes is found before all that are not exact.
find-exact :
    (p : Route → Bool) (front back : List Route)
    → All (λ r. is_exact r ≡ true) front
    → All (λ r. is_exact r ≡ false) back
    → 0 < count (λ r. is_exact r && p r) (front ++ back)
    → (r : Route) × (find p (front ++ back) ≡ some r) × (is_exact r ≡ true)
find-exact p front back exact others h =
    let both = λ (r : Route). is_exact r && p r in
    let no_others : count both back ≡ 0 =
      count-none both back (All-map (λ r f. ground (arith, f)) back others) in
    elim (find-cases p front) [
      | inl (miss, nothing) ↦ absurd (
          omega (
            arith,
            h,
            no_others,
            nothing,
            count-append both front back,
            count-and-le is_exact p front,
          ))
      | inr (r, hit, some_) ↦
          (r, find-append p front back r hit, (find_sound _ p front r exact hit).1)
    ]

append_assoc : (xs ys zs : List Route) → xs ++ ys ++ zs ≡ xs ++ (ys ++ zs)
append_assoc [] ys zs = refl
append_assoc (x ∷ xs) ys zs = ap (◌∷◌ x) (append_assoc xs ys zs)

exact_host :
    {R : Type 0} (re : Regexp R) (req : Request) (r : Route)
    → is_exact r ≡ true
    → accepts re req r ≡ true
    → r.host ≡ strip_port req.host
unfolding is_exact accepts matches_host matches_pattern
exact_host re req r exact fits = ground (arith, str_eq.beq_iff r.host (strip_port req.host))

module _ {R : Type 0} (re : Regexp R) (req : Request) (rs : List Route) (d : IsDistinct rs) where
  exact_candidates :
      count
        (λ r. is_exact r && passes re req (loaded re rs).compiled r)
        (find_routes req.host (loaded re rs).host_router)
      ≡ count (λ r. is_exact r && accepts re req r) rs
  unfolding loaded
  exact_candidates =
      let p = passes re req (compile_all re (sort_routes rs) []) in
      find_routes_exact (λ r. is_exact r && p r) req.host (sort_routes rs)
      ∙ count-congr (λ r. matches_host r req.host && (is_exact r && p r))
          (λ r. is_exact r && accepts re req r) (sort_routes rs)
          (All-map
            (λ r h. ground (arith, passes-accepts re req (compile_all re (sort_routes rs) []) r h))
            (sort_routes rs) (compiled_in_order re req rs d))
      ∙ count-sort_routes (λ r. is_exact r && accepts re req r) rs

  found_exact :
      any (λ r. is_exact r && accepts re req r) rs ≡ true
      → (r : Route) × (find
            (passes re req (loaded re rs).compiled)
            (find_routes req.host (loaded re rs).host_router)
          ≡ some r)
        × (is_exact r ≡ true)
  unfolding loaded find_routes
  found_exact h =
      let router = add_all (sort_routes rs) new_host_router in
      let host = strip_port req.host in
      let parts = add_all-IsParted (sort_routes rs) new_host_router (tt, tt, tt) in
      let p = passes re req (compile_all re (sort_routes rs) []) in
      let front = routes_at host router.exact_hosts in
      let back = wildcard_routes host router.wildcards ++ router.all_routes in
      let shape : find_routes req.host router ≡ front ++ back =
        append_assoc front (wildcard_routes host router.wildcards) router.all_routes in
      let some_exact : 0 < count (λ r. is_exact r && p r) (front ++ back) =
        subst (λ (xs : List Route). 0 < count (λ r. is_exact r && p r) xs) shape
          (ground
            (arith, exact_candidates, h, any-count (λ r. is_exact r && accepts re req r) rs)) in
      let e =
        find-exact p front back
          (All-routes_at (λ r. is_exact r ≡ true) host router.exact_hosts parts.0)
          (All-append (λ r. is_exact r ≡ false) (wildcard_routes host router.wildcards)
            router.all_routes
            (All-wildcard_routes (λ r. is_exact r ≡ false) host router.wildcards parts.1) parts.2)
          some_exact in
      (e.0, ap (find p) shape ∙ e.1, e.2)

-- If a route that names the request's host accepts the request, then the route with which Match
-- answers names the host, too, whatever the priorities of wildcard routes and of routes without
-- a host are that accept it as well.
pub match_request_prefers_exact :
    {R : Type 0} (re : Regexp R) (req : Request) (rs : List Route) (r : Route)
    → IsDistinct rs
    → any (λ s. is_exact s && accepts re req s) rs ≡ true
    → match_request re req (loaded re rs) ≡ ok r
    → (is_exact r ≡ true) × (r.host ≡ strip_port req.host)
unfolding match_request
match_request_prefers_exact re req rs r d h m =
    let f = found_exact re req rs d h in
    let same : f.0 ≡ r = ground (arith, sym (ap first_match f.1) ∙ m) in
    let exact : is_exact r ≡ true = subst (λ (x : Route). is_exact x ≡ true) same f.2 in
    (exact, exact_host re req r exact (match_request_sound re req rs r d m).1)
