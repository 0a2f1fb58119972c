-- ===== src/Router/Candidates.antt =====
-- The candidates of internal/router/host_router.go against Route.MatchesHost of
-- internal/types/route.go.
use mathlib.Core.List.{reverse, reverse-cons}
use discobox.Prelude.{
  Str, ℕ, ◌+◌, ◌≡◌, refl, ap, subst, ◌∙◌, inl, inr, Bool, true, ◌&&◌, List, [], ◌∷◌, ◌++◌,
  if◌then◌else◌, arith, ◌==◌, str_eq, nat_eq, beq_self, beq-cases, Bool-cases, is_empty, has_prefix,
  has_suffix, strip_port, drop, text,
}
use discobox.Prelude.Counting.{count, count-append}
use discobox.Prelude.Dict.{Dict, lookup, insert, lookup-insert}
use discobox.Types.Route.{Route, matches_pattern, matches_host}
use discobox.Router.HostRouter.{
  HostRouter, new_host_router, routes_at, append_at, add_route, add_all, wildcard_routes,
  find_routes,
}

-- What one route adds to a count.
abbrev one : Bool → ℕ
one b = if b then 1 else 0

routes_at-append_at :
    (k host : Str) (r : Route) (m : Dict Str (List Route))
    → routes_at host (append_at k r m)
      ≡ (if k == host then routes_at host m ++ r ∷ [] else routes_at host m)
unfolding routes_at append_at
routes_at-append_at k host r m =
    let v = routes_at k m ++ r ∷ [] in
    elim (beq-cases k host) [
      | inl (e, b) ↦ ground (arith, lookup-insert k host v m, b, e)
      | inr (n, b) ↦ ground (arith, lookup-insert k host v m, b)
    ]

pub routes_at-cons :
    (k d : Str) (rs : List Route) (m : Dict Str (List Route))
    → routes_at k ((d, rs) ∷ m) ≡ (if d == k then rs else routes_at k m)
unfolding routes_at lookup
routes_at-cons k d rs m = ground arith

module _ (p : Route → Bool) where
  count-routes_at :
      (k host : Str) (r : Route) (m : Dict Str (List Route))
      → count p (routes_at host (append_at k r m))
        ≡ count p (routes_at host m) + one ((k == host) && p r)
  count-routes_at k host r m =
      ground (arith, routes_at-append_at k host r m, count-append p (routes_at host m) (r ∷ []))

  count-wildcard_cons :
      (host d : Str) (rs : List Route) (m : Dict Str (List Route))
      → count p (wildcard_routes host ((d, rs) ∷ m))
        ≡ (if has_suffix host d then count p rs else 0) + count p (wildcard_routes host m)
  unfolding wildcard_routes
  count-wildcard_cons host d rs m = ground (arith, count-append p rs (wildcard_routes host m))

  -- A write to a domain replaces what the domain gave before.
  count-wildcard_insert :
      (k host : Str) (v : List Route) (m : Dict Str (List Route))
      → count p (wildcard_routes host (insert k v m))
          + (if has_suffix host k then count p (routes_at k m) else 0)
        ≡ count p (wildcard_routes host m) + (if has_suffix host k then count p v else 0)
  unfolding insert wildcard_routes lookup routes_at
  count-wildcard_insert k host v [] = ground (arith, count-append p v [])
  count-wildcard_insert k host v ((d, rs) ∷ m) = elim (beq-cases d k) [
    | inl (e, b) ↦ ground (
      arith,
      b,
      e,
      routes_at-cons k d rs m,
      count-wildcard_cons host d rs m,
      count-wildcard_cons host d v m,
    )
    | inr (n, b) ↦ ground (
      arith,
      b,
      routes_at-cons k d rs m,
      count-wildcard_cons host d rs m,
      count-wildcard_cons host d rs (insert k v m),
      count-wildcard_insert k host v m,
    )
  ]

  count-wildcard_routes :
      (k host : Str) (r : Route) (m : Dict Str (List Route))
      → count p (wildcard_routes host (append_at k r m))
        ≡ count p (wildcard_routes host m) + one (has_suffix host k && p r)
  unfolding append_at
  count-wildcard_routes k host r m = ground (
    arith,
    count-wildcard_insert k host (routes_at k m ++ r ∷ []) m,
    count-append p (routes_at k m) (r ∷ []),
  )

has_prefix-nil : (s : Str) → has_prefix s [] ≡ true
unfolding has_prefix
has_prefix-nil [] = refl
has_prefix-nil (c ∷ s) = refl

prefix-append : (s t : Str) → has_prefix (s ++ t) s ≡ true
unfolding has_prefix
prefix-append [] t = has_prefix-nil t
prefix-append (c ∷ s) t = ground (arith, beq_self c, prefix-append s t)

-- A pattern "*.domain" that is itself the host is a suffix match, too.
suffix-drop : (s : Str) → has_suffix s (drop 1 s) ≡ true
unfolding has_suffix
suffix-drop [] = refl
suffix-drop (c ∷ s) = rw (reverse-cons c s) (prefix-append (reverse s) (c ∷ []))

module _ (p : Route → Bool) (req_host : Str) where
  count-find_routes :
      (h : HostRouter)
      → count p (find_routes req_host h)
        ≡ count p (routes_at (strip_port req_host) h.exact_hosts)
          + count p (wildcard_routes (strip_port req_host) h.wildcards)
          + count p h.all_routes
  unfolding find_routes
  count-find_routes h =
      let host = strip_port req_host in
      count-append p (routes_at host h.exact_hosts ++ wildcard_routes host h.wildcards) h.all_routes
      ∙ ap (λ (n : ℕ). n + count p h.all_routes)
          (count-append p (routes_at host h.exact_hosts) (wildcard_routes host h.wildcards))

  -- A route adds one to the candidates that pass if it passes and its pattern matches.
  count-add_route :
      (r : Route) (h : HostRouter)
      → count p (find_routes req_host (add_route r h))
        ≡ count p (find_routes req_host h) + one (matches_host r req_host && p r)
  unfolding add_route matches_host matches_pattern
  count-add_route r h =
      let host = strip_port req_host in
      let after = count-find_routes (add_route r h) in
      let before = count-find_routes h in
      elim (Bool-cases (is_empty r.host)) [
        | inl all ↦
            let a = rw all at after in
            rw all (ground (arith, a, before, count-append p h.all_routes (r ∷ [])))
        | inr named ↦ elim (Bool-cases (has_prefix r.host (text "*."))) [
          | inl wild ↦
              let a = rw (named, wild) at after in
              let w = count-wildcard_routes p (drop 1 r.host) host r h.wildcards in
              elim (beq-cases r.host host) [
                | inl (e, b) ↦
                    let sd : has_suffix host (drop 1 r.host) ≡ true =
                      subst (λ (x : Str). has_suffix x (drop 1 r.host) ≡ true) e
                        (suffix-drop r.host) in
                    rw (named, wild, b) (ground (arith, a, before, w, sd))
                | inr (n, b) ↦ rw (named, wild, b) (ground (arith, a, before, w))
              ]
          | inr exact ↦
              let a = rw (named, exact) at after in
              rw (named, exact)
                (ground (arith, a, before, count-routes_at p r.host host r h.exact_hosts))
        ]
      ]

  count-add_all :
      (rs : List Route) (h : HostRouter)
      → count p (find_routes req_host (add_all rs h))
        ≡ count p (find_routes req_host h) + count (λ r. matches_host r req_host && p r) rs
  unfolding add_all
  count-add_all [] h = omega arith
  count-add_all (r ∷ rs) h = ground (arith, count-add_all rs (add_route r h), count-add_route r h)

-- For every test p, the index of a list of routes gives as many candidates for a request's Host
-- that pass p as the list has routes that pass p and whose MatchesHost holds of the Host: each
-- matching route once, and no other.
pub find_routes_exact :
    (p : Route → Bool) (req_host : Str) (rs : List Route)
    → count p (find_routes req_host (add_all rs new_host_router))
      ≡ count (λ r. matches_host r req_host && p r) rs
unfolding find_routes routes_at lookup wildcard_routes
find_routes_exact p req_host rs = ground (arith, count-add_all p req_host rs new_host_router)
