-- ===== src/Router/Matcher.antt =====
-- internal/router/matcher.go: Matcher, with its cache of compiled expressions. Package regexp is an
-- interface, here with FindStringSubmatch, SubexpNames and ReplaceAllString of an expression.
pub mod Plain
pub mod Cache
use discobox.Prelude.{
  Str, ℕ, zero, suc, Bool, true, false, not, ◌&&◌, ◌||◌, ◌≡◌, List, [], ◌∷◌, ◌++◌, Option, none,
  some, if◌then◌else◌, ◌==◌, nat_eq, str_eq, is_empty, has_prefix, has_suffix, strip_port, contains,
  text, drop, is_some,
}
use discobox.Prelude.Dict.{Dict, lookup, insert}
use discobox.Types.Route.{Route}
use discobox.Router.Routing.{Regexp, Request}

-- FindStringSubmatch gives nil exactly where MatchString gives false.
pub record Submatches {R : Type 0} (re : Regexp R) : Type 0 where
  pub find_submatch : R → Str → Option (List Str)
  pub subexp_names : R → List Str
  pub replace_all : Str → Str → Str → Str
  pub agrees : (regex : R) (s : Str) → is_some (find_submatch regex s) ≡ re.match_string regex s

-- strings.ReplaceAll(result, ".", `\.`)
unfoldable pub escape_dots : Str → Str
escape_dots [] = []
escape_dots (c ∷ s) = if c == b'.' then 92 ∷ c ∷ escape_dots s else c ∷ escape_dots s

module _ {R : Type 0} (re : Regexp R) (sub : Submatches re) where
  unfoldable pub get_or_compile_regex : Str → Str → Dict Str R → Option R × Dict Str R
  get_or_compile_regex key pattern cache = elim (lookup key cache) [
    | some regex ↦ (some regex, cache)
    | none ↦ elim (re.compile pattern) [
      | none ↦ (none, cache)
      | some regex ↦ (some regex, insert key regex cache)
    ]
  ]

  unfoldable pub convert_pattern_to_regex : Str → Str
  convert_pattern_to_regex pattern =
      let named = sub.replace_all (text "\\{([^:}]+):([^}]+)\\}") pattern (text "(?P<$1>$2)") in
      let bare = sub.replace_all (text "\\{([^}]+)\\}") named (text "(?P<$1>[^/]+)") in
      b'^' ∷ escape_dots bare ++ b'$' ∷ []

  -- regex != nil && regex.MatchString(s), with the cache beside it.
  unfoldable pub match_cached : Str → Option R × Dict Str R → Bool × Dict Str R
  match_cached s (none, cache) = (false, cache)
  match_cached s (some regex, cache) = (re.match_string regex s, cache)

  unfoldable pub match_host : Str → Str → Dict Str R → Bool × Dict Str R
  match_host req_host route_host cache =
      let host = strip_port req_host in
      if host == route_host
      then (true, cache)
      else if has_prefix route_host (text "*.")
      then (has_suffix host (drop 1 route_host), cache)
      else if contains route_host b'{' && contains route_host b'}'
      then match_cached host (
          get_or_compile_regex (text "host:" ++ route_host) (convert_pattern_to_regex route_host)
            cache)
      else (false, cache)

  -- The loop over the names of the groups: the first one, which has no name, is skipped.
  unfoldable pub named_groups : List Str → List Str → Dict Str Str → Dict Str Str
  named_groups (name ∷ names) (value ∷ values) params =
      named_groups names values (if is_empty name then params else insert name value params)
  named_groups _ _ params = params

  unfoldable pub groups_of : R → Option (List Str) → Option (Dict Str Str)
  groups_of regex none = none
  groups_of regex (some matches) =
      some (named_groups (drop 1 (sub.subexp_names regex)) (drop 1 matches) [])

  -- The part of matchPath on the expression.
  unfoldable pub match_groups : Str → Option R × Dict Str R → Option (Dict Str Str) × Dict Str R
  match_groups req_path (none, cache) = (none, cache)
  match_groups req_path (some regex, cache) =
      (groups_of regex (sub.find_submatch regex req_path), cache)

  unfoldable pub match_path : Str → Route → Dict Str R → Option (Dict Str Str) × Dict Str R
  match_path req_path route cache =
      if not (is_empty route.path_prefix) && not (has_prefix req_path route.path_prefix)
      then (none, cache)
      else if is_empty route.path_regex
      then (some [], cache)
      else match_groups req_path
          (get_or_compile_regex (text "path:" ++ route.id) route.path_regex cache)

  -- One round of the loop of matchHeaders.
  unfoldable pub match_header : Str → Str → Str → Dict Str R → Bool × Dict Str R
  match_header key value req_value cache =
      if req_value == value
      then (true, cache)
      else if has_prefix value (text "~")
      then match_cached req_value (
          get_or_compile_regex (text "header:" ++ key ++ text ":" ++ drop 1 value) (drop 1 value)
            cache)
      else (false, cache)

  unfoldable pub match_headers : (Str → Str) → Dict Str Str → Dict Str R → Bool × Dict Str R
  match_headers header [] cache = (true, cache)
  match_headers header ((key, value) ∷ hs) cache =
      let one = match_header key value (header key) cache in
      let rest = match_headers header hs one.1 in if one.0 then rest else (false, one.1)

  -- The parameters of a match, or `none` where MatchRoute returns false.
  unfoldable pub match_route : Request → Route → Dict Str R → Option (Dict Str Str) × Dict Str R
  match_route req route cache =
      let hosted =
        if is_empty route.host then (true, cache) else match_host req.host route.host cache in
      let pathed = match_path req.path route hosted.1 in
      let headed = match_headers req.header route.headers pathed.1 in
      if not hosted.0
      then (none, hosted.1)
      else if not (is_some pathed.0)
      then (none, pathed.1)
      else if not headed.0
      then (none, headed.1)
      else (pathed.0, headed.1)
