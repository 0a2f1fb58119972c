-- ===== src/Router/Members.antt =====
-- What holds of all routes in the index of internal/router/host_router.go holds of its candidates.
use discobox.Prelude.{
  Str, sym, subst, inl, inr, List, [], ◌∷◌, ◌++◌, ◌==◌, str_eq, Bool-cases, All, All-append,
  is_empty, has_prefix, has_suffix, strip_port, drop, text,
}
use discobox.Prelude.Dict.{Dict, lookup, insert}
use discobox.Types.Route.{Route}
use discobox.Router.Candidates.{routes_at-cons}
use discobox.Router.HostRouter.{
  HostRouter, new_host_router, routes_at, append_at, add_route, add_all, wildcard_routes,
  find_routes,
}

module _ {κ} (P : Route → Type κ) where
  abbrev pub AllIn : Dict Str (List Route) → Type κ
  AllIn = All (λ e. All P e.1)

  abbrev AllOf : HostRouter → Type κ
  AllOf h = AllIn h.exact_hosts × AllIn h.wildcards × All P h.all_routes

  pub All-routes_at : (k : Str) (m : Dict Str (List Route)) → AllIn m → All P (routes_at k m)
  unfolding routes_at lookup
  All-routes_at k [] a = tt
  All-routes_at k ((j, rs) ∷ m) a =
      subst (λ (x : List Route). All P x) (sym (routes_at-cons k j rs m))
        (elim (Bool-cases (j == k)) [ inl t ↦ rw t a.0 | inr f ↦ rw f (All-routes_at k m a.1) ])

  AllIn-insert :
      (k : Str) (v : List Route) (m : Dict Str (List Route))
      → All P v
      → AllIn m
      → AllIn (insert k v m)
  unfolding insert
  AllIn-insert k v [] p a = (p, tt)
  AllIn-insert k v ((j, rs) ∷ m) p a = elim (Bool-cases (j == k)) [
    | inl t ↦ rw t (p, a.1)
    | inr f ↦ rw f (a.0, AllIn-insert k v m p a.1)
  ]

  pub AllIn-append_at :
      (k : Str) (r : Route) (m : Dict Str (List Route)) → P r → AllIn m → AllIn (append_at k r m)
  unfolding append_at
  AllIn-append_at k r m p a =
      AllIn-insert k (routes_at k m ++ r ∷ []) m
        (All-append P (routes_at k m) (r ∷ []) (All-routes_at k m a) (p, tt)) a

  AllOf-add_route : (r : Route) (h : HostRouter) → P r → AllOf h → AllOf (add_route r h)
  unfolding add_route
  AllOf-add_route r h p a = elim (Bool-cases (is_empty r.host)) [
    | inl all ↦ rw all (a.0, a.1, All-append P h.all_routes (r ∷ []) a.2 (p, tt))
    | inr named ↦ elim (Bool-cases (has_prefix r.host (text "*."))) [
      | inl wild ↦ rw (named, wild) (a.0, AllIn-append_at (drop 1 r.host) r h.wildcards p a.1, a.2)
      | inr exact ↦ rw (named, exact) (AllIn-append_at r.host r h.exact_hosts p a.0, a.1, a.2)
    ]
  ]

  AllOf-add_all : (rs : List Route) (h : HostRouter) → All P rs → AllOf h → AllOf (add_all rs h)
  unfolding add_all
  AllOf-add_all [] h p a = a
  AllOf-add_all (r ∷ rs) h p a = AllOf-add_all rs (add_route r h) p.1 (AllOf-add_route r h p.0 a)

  pub All-wildcard_routes :
      (host : Str) (m : Dict Str (List Route)) → AllIn m → All P (wildcard_routes host m)
  unfolding wildcard_routes
  All-wildcard_routes host [] a = tt
  All-wildcard_routes host ((d, rs) ∷ m) a = elim (Bool-cases (has_suffix host d)) [
    | inl t ↦ rw t (All-append P rs (wildcard_routes host m) a.0 (All-wildcard_routes host m a.1))
    | inr f ↦ rw f (All-wildcard_routes host m a.1)
  ]

  pub All-find_routes :
      (req_host : Str) (rs : List Route)
      → All P rs
      → All P (find_routes req_host (add_all rs new_host_router))
  unfolding find_routes
  All-find_routes req_host rs p =
      let h = add_all rs new_host_router in
      let host = strip_port req_host in
      let a = AllOf-add_all rs new_host_router p (tt, tt, tt) in
      All-append P (routes_at host h.exact_hosts ++ wildcard_routes host h.wildcards) h.all_routes
        (All-append P (routes_at host h.exact_hosts) (wildcard_routes host h.wildcards)
          (All-routes_at host h.exact_hosts a.0) (All-wildcard_routes host h.wildcards a.1))
        a.2
