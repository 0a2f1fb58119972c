-- ===== src/Router/Tests.antt =====
-- The router of internal/router on a few routes.
use mathlib.Core.List.{Mem}
use discobox.Prelude.{
  Str, ℕ, ◌≡◌, refl, ◌⊎◌, true, false, ◌&&◌, List, [], ◌∷◌, some, text, str_eq, list_beq, ne_of_beq,
  any, has_prefix, has_suffix, strip_port, last_index,
}
use discobox.Prelude.Counting.{count, find}
use discobox.Prelude.Int.{pos}
use discobox.Prelude.Dict.{lookup, insert}
use discobox.Types.Errors.{ok, err, route_not_found}
use discobox.Types.Route.{
  Route, matches_host, matches_pattern, matches_path, matches_headers, headers_match,
}
use discobox.Router.HostRouter.{
  new_host_router, add_all, add_route, find_routes, routes_at, append_at, wildcard_routes,
}
use discobox.Router.Candidates.{find_routes_exact}
use discobox.Router.Loading.{IsDistinct}
use discobox.Router.Matching.{accepts, fits_regex, match_request_complete, match_request_sound}
use discobox.Router.Routing.{
  Regexp, Request, goes_before, insert_route, sort_routes, compile_route, put_compiled, compile_all,
  loaded, regex_passes, passes, match_request,
}
use discobox.Prelude.{Bool, none, is_some, contains, if◌then◌else◌, Bool-cases, inl, inr}
use discobox.Router.Precedence.{is_exact, match_request_prefers_exact}
use discobox.Router.Matcher.{Submatches, match_route, match_path, groups_of}
use discobox.Router.Matcher.Plain.{match_request-match_route}
use discobox.Router.Matcher.Cache.{match_path_stale, after_matches}
use discobox.Router.Specificity.{
  route_score, sort_routes_by_specificity, passes_from, bubble, score_in, fill_scores,
}
use discobox.Router.Specificity.Bubble.{IsDescending}
use discobox.Router.Specificity.Sorted.{sort_routes_by_specificity-IsDescending}

abbrev route : Str → ℕ → Str → Str → Str → Route
route id priority host prefix regex = record {
  id = id;
  priority = pos priority;
  host = host;
  path_prefix = prefix;
  path_regex = regex;
  headers = [];
  service_id = text "web";
  middlewares = [];
  rewrite_rules = [];
  metadata = [];
}

abbrev any_host : Route
any_host = route (text "any") 9 [] (text "/") []

abbrev any_sub : Route
any_sub = route (text "sub") 5 (text "*.example.com") [] (text "^/v1")

abbrev exact : Route
exact = route (text "exact") 1 (text "www.example.com") (text "/") []

abbrev three : List Route
three = exact ∷ any_host ∷ any_sub ∷ []

-- An expression is its text, an anchor and what the path begins with.
abbrev prefixes : Regexp Str
prefixes = record { compile = λ s. some s; match_string = λ s path. has_prefix (b'^' ∷ path) s }

abbrev request : Request
request = record { host = text "www.example.com:80"; path = text "/v1/items"; header = λ name. [] }

three-IsDistinct : IsDistinct three
unfolding list_beq
three-IsDistinct = (
  (ne_of_beq (text "exact") (text "any") refl, (ne_of_beq (text "exact") (text "sub") refl, tt)),
  ((ne_of_beq (text "any") (text "sub") refl, tt), (tt, tt)),
)

find_routes_exact_example :
    count
      (λ r. has_prefix r.id (text "a"))
      (find_routes (text "www.example.com:80") (add_all three new_host_router))
    ≡ count (λ r. matches_host r (text "www.example.com:80") && has_prefix r.id (text "a")) three
find_routes_exact_example =
    find_routes_exact (λ r. has_prefix r.id (text "a")) (text "www.example.com:80") three

match_request_complete_example :
    ((match_request prefixes request (loaded prefixes three) ≡ err route_not_found)
      × (any (accepts prefixes request) three ≡ false))
    ⊎ ((r : Route) × (match_request prefixes request (loaded prefixes three) ≡ ok r)
        × (any (accepts prefixes request) three ≡ true))
match_request_complete_example = match_request_complete prefixes request three three-IsDistinct

-- The route for the exact host answers, although both others match and have a higher priority.
match_request_test : match_request prefixes request (loaded prefixes three) ≡ ok exact
unfolding match_request loaded sort_routes insert_route goes_before compile_all compile_route
    put_compiled add_all add_route append_at routes_at wildcard_routes find_routes find passes
    regex_passes headers_match lookup insert list_beq has_prefix has_suffix strip_port last_index
match_request_test = refl

match_request_sound_example : Mem exact three × (accepts prefixes request exact ≡ true)
match_request_sound_example =
    match_request_sound prefixes request three exact three-IsDistinct match_request_test

sort_routes_by_specificity-IsDescending_example :
    IsDescending route_score (sort_routes_by_specificity three)
    × ((p : Route → Bool) → count p (sort_routes_by_specificity three) ≡ count p three)
sort_routes_by_specificity-IsDescending_example =
    sort_routes_by_specificity-IsDescending three three-IsDistinct

-- 9 for the highest priority, 5 for the next one, and 1 in spite of its exact host.
sort_test : sort_routes_by_specificity three ≡ any_host ∷ any_sub ∷ exact ∷ []
unfolding sort_routes_by_specificity passes_from bubble score_in fill_scores route_score lookup
    insert list_beq contains
sort_test = refl

abbrev groups : Submatches prefixes
groups = record {
  find_submatch = λ s path. if has_prefix (b'^' ∷ path) s then some (path ∷ []) else none;
  subexp_names = λ s. [] ∷ [];
  replace_all = λ e s new. s;
  agrees = λ s path. elim (Bool-cases (has_prefix (b'^' ∷ path) s)) [
    | inl t ↦ rw t refl
    | inr f ↦ rw f refl
  ];
}

-- A backslash in a literal stands for itself.
backslash_test : text "\\{" ≡ 92 ∷ b'{' ∷ []
backslash_test = refl

match_request-match_route_example :
    ((match_request prefixes request (loaded prefixes three) ≡ err route_not_found)
      × (any (λ (r : Route). is_some (match_route prefixes groups request r []).0) three ≡ false))
    ⊎ ((r : Route) × (match_request prefixes request (loaded prefixes three) ≡ ok r)
        × (any (λ (r : Route). is_some (match_route prefixes groups request r []).0) three ≡ true))
unfolding contains
match_request-match_route_example =
    match_request-match_route prefixes groups request three three-IsDistinct (
      record { host = refl; headers = tt },
      (record { host = refl; headers = tt }, (record { host = refl; headers = tt }, tt)),
    )

abbrev changed : Route
changed = route (text "sub") 5 (text "*.example.com") [] (text "^/v2")

-- The route "sub" has a new expression, and is matched against the old one.
match_path_stale_example :
    (match_path prefixes groups (text "/v1/b") changed (
      after_matches prefixes groups
        ((request, exact) ∷ [])
        (match_path prefixes groups (text "/v1/a") any_sub []).1)).0
    ≡ groups_of prefixes groups (text "^/v1") (some (text "/v1/b" ∷ []))
unfolding lookup list_beq has_prefix
match_path_stale_example =
    match_path_stale prefixes groups (text "/v1/a") (text "/v1/b") any_sub changed (text "^/v1") []
      ((request, exact) ∷ []) refl refl refl refl refl refl

match_request_prefers_exact_example :
    (is_exact exact ≡ true) × (exact.host ≡ strip_port request.host)
unfolding is_exact accepts matches_host matches_pattern matches_path fits_regex matches_headers
    headers_match strip_port last_index list_beq has_prefix
match_request_prefers_exact_example =
    match_request_prefers_exact prefixes request three exact three-IsDistinct refl
      match_request_test
