-- ===== src/Router/Matching.antt =====
-- Match of internal/router/router.go against the methods of Route in internal/types/route.go.
use mathlib.Core.List.{Mem}
use discobox.Prelude.{
  Str, ◌≡◌, refl, sym, ap, ◌∙◌, ◌⊎◌, inl, inr, Bool, true, false, not, ◌&&◌, ◌||◌, List, [], none,
  some, if◌then◌else◌, arith, str_eq, Option-cases, All, is_empty, has_prefix, any,
}
use discobox.Prelude.Counting.{
  count, find, count-congr, count_zero, count-none, find-cases, find_sound, any-count,
}
use discobox.Prelude.Dict.{Dict, lookup}
use discobox.Prelude.Members.{mem_of_All, All-zip, All-always, All-map}
use discobox.Types.Errors.{Result, ok, err, route_not_found}
use discobox.Types.Route.{Route, matches_host, matches_path, matches_headers}
use discobox.Router.HostRouter.{new_host_router, add_all, find_routes}
use discobox.Router.Candidates.{find_routes_exact}
use discobox.Router.Members.{All-find_routes}
use discobox.Router.Loading.{
  IsDistinct, All-sort_routes, sort_routes-IsDistinct, count-sort_routes, compile_all-All,
}
use discobox.Router.Routing.{
  Regexp, Request, CompiledRoute, sort_routes, compile_route, compile_all, loaded, regex_passes,
  passes, first_match, match_request,
}

abbrev pub is_ok : {A : Type 0} → Result A → Bool
is_ok (ok a) = true
is_ok (err e) = false

module _ {R : Type 0} (re : Regexp R) (req : Request) where
  -- A route without an expression fits every path; one whose expression does not compile fits none.
  unfoldable pub fits_regex : Route → Bool
  fits_regex r = if is_empty r.path_regex then true else elim (re.compile r.path_regex) [
    | none ↦ false
    | some regex ↦ re.match_string regex req.path
  ]

  -- The route's own tests, of its host, its path and its headers, and its expression.
  unfoldable pub accepts : Route → Bool
  accepts r =
      matches_host r req.host
      && (matches_path r req.path && (fits_regex r && matches_headers req.header r))

  regex_passes-compiled :
      (r : Route) → regex_passes re req.path r (compile_route re r) ≡ fits_regex r
  unfolding regex_passes compile_route fits_regex
  regex_passes-compiled r = elim (Option-cases (re.compile r.path_regex)) [
    | inl bad ↦ ground (arith, bad)
    | inr (regex, good) ↦ ground (arith, good)
  ]

  prefix_passes :
      (r : Route)
      → (is_empty r.path_prefix || has_prefix req.path r.path_prefix) ≡ matches_path r req.path
  unfolding matches_path
  prefix_passes r = ground arith

  pub passes-accepts :
      (compiled : Dict Str (CompiledRoute R)) (r : Route)
      → lookup r.id compiled ≡ compile_route re r
      → (matches_host r req.host && passes re req compiled r) ≡ accepts r
  unfolding passes accepts matches_headers
  passes-accepts compiled r h = ground (arith, h, regex_passes-compiled r, prefix_passes r)

module _ {R : Type 0} (re : Regexp R) (req : Request) (rs : List Route) (d : IsDistinct rs) where
  pub compiled_in_order :
      All
        (λ r. lookup r.id (compile_all re (sort_routes rs) []) ≡ compile_route re r)
        (sort_routes rs)
  unfolding lookup
  compiled_in_order =
      compile_all-All re (sort_routes rs) [] (sort_routes-IsDistinct rs d)
        (All-always (λ r. lookup r.id [] ≡ none) (λ r. refl) (sort_routes rs))

  -- The candidates that Match does not skip are as many as the routes that accept the request.
  count-passes :
      count
        (passes re req (loaded re rs).compiled)
        (find_routes req.host (loaded re rs).host_router)
      ≡ count (accepts re req) rs
  unfolding loaded
  count-passes =
      let compiled = compile_all re (sort_routes rs) [] in
      let p = passes re req compiled in
      find_routes_exact p req.host (sort_routes rs)
      ∙ count-congr (λ r. matches_host r req.host && p r) (accepts re req) (sort_routes rs)
          (All-map (λ r h. passes-accepts re req compiled r h) (sort_routes rs) compiled_in_order)
      ∙ count-sort_routes (accepts re req) rs

-- A candidate's pattern matches the request's Host.
candidates_match :
    (req : Request) (rs : List Route)
    → All
        (λ r. matches_host r req.host ≡ true)
        (find_routes req.host (add_all (sort_routes rs) new_host_router))
candidates_match req rs =
    let candidates = find_routes req.host (add_all (sort_routes rs) new_host_router) in
    let other = λ (r : Route). not (matches_host r req.host) in
    let none_passes : count other candidates ≡ 0 =
      find_routes_exact other req.host (sort_routes rs)
      ∙ count-none (λ r. matches_host r req.host && other r) (sort_routes rs)
          (All-always _ (λ r. ground arith) (sort_routes rs)) in
    All-map (λ r h. ground (arith, h)) candidates (count_zero other candidates none_passes)

-- Match on freshly loaded routes with distinct IDs answers with a route exactly if one of the routes
-- accepts the request: by its own MatchesHost, MatchesPath and MatchesHeaders, and by its
-- expression, which must compile and match the path. Otherwise the answer is "route not found".
pub match_request_complete :
    {R : Type 0} (re : Regexp R) (req : Request) (rs : List Route)
    → IsDistinct rs
    → ((match_request re req (loaded re rs) ≡ err route_not_found)
        × (any (accepts re req) rs ≡ false))
      ⊎ ((r : Route) × (match_request re req (loaded re rs) ≡ ok r)
          × (any (accepts re req) rs ≡ true))
unfolding match_request
match_request_complete re req rs d =
    let p = passes re req (loaded re rs).compiled in
    let candidates = find_routes req.host (loaded re rs).host_router in
    let same = count-passes re req rs d in
    elim (find-cases p candidates) [
      | inl (miss, nothing) ↦
          inl (ap first_match miss, ground (arith, any-count (accepts re req) rs, same, nothing))
      | inr (r, hit, found) ↦
          inr (r, ap first_match hit, ground (arith, any-count (accepts re req) rs, same, found))
    ]

module _ {R : Type 0} (re : Regexp R) (req : Request) (rs : List Route) (d : IsDistinct rs) where
  -- Every candidate is one of the routes, and accepts the request if Match does not skip it.
  candidates_sound :
      All
        (λ r.
          Mem r rs
          × (matches_host r req.host ≡ true)
          × ((matches_host r req.host && passes re req (loaded re rs).compiled r)
              ≡ accepts re req r))
        (find_routes req.host (loaded re rs).host_router)
  unfolding loaded
  candidates_sound =
      let routes = sort_routes rs in
      let candidates = find_routes req.host (add_all routes new_host_router) in
      let compiled = compile_all re routes [] in
      let of_list =
        All-find_routes (λ r. Mem r rs × (lookup r.id compiled ≡ compile_route re r)) req.host
          routes
          (All-zip (λ r m h. (m, h)) routes
            (All-sort_routes (λ r. Mem r rs) rs (mem_of_All rs (λ a m. m)))
            (compiled_in_order re req rs d)) in
      All-zip (λ r m h. (m.0, h, passes-accepts re req compiled r m.1)) candidates of_list
        (candidates_match req rs)

  found_accepts :
      (r : Route)
      → find
          (passes re req (loaded re rs).compiled)
          (find_routes req.host (loaded re rs).host_router)
        ≡ some r
      → Mem r rs × (accepts re req r ≡ true)
  found_accepts r hit =
      let f =
        find_sound _ (passes re req (loaded re rs).compiled)
          (find_routes req.host (loaded re rs).host_router) r candidates_sound hit in
      (f.1.0, ground (arith, f.0, f.1.1, f.1.2))

-- The route with which Match answers, on freshly loaded routes with distinct IDs, is one of the
-- routes and accepts the request.
pub match_request_sound :
    {R : Type 0} (re : Regexp R) (req : Request) (rs : List Route) (r : Route)
    → IsDistinct rs
    → match_request re req (loaded re rs) ≡ ok r
    → Mem r rs × (accepts re req r ≡ true)
unfolding match_request
match_request_sound re req rs r d h =
    let p = passes re req (loaded re rs).compiled in
    let candidates = find_routes req.host (loaded re rs).host_router in
    elim (find-cases p candidates) [
      | inl (miss, nothing) ↦ absurd (cc (sym (ap first_match miss) ∙ h))
      | inr (s, hit, found) ↦
          let e : s ≡ r = ground (arith, sym (ap first_match hit) ∙ h) in
          found_accepts re req rs d r (hit ∙ ap (λ (x : Route). some x) e)
    ]
