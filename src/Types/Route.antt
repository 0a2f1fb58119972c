-- ===== src/Types/Route.antt =====
-- internal/types/route.go: a routing rule. The values of Metadata, which no modelled code reads,
-- are kept as their text.
use discobox.Prelude.{
  Str, Bool, true, false, List, [], ◌∷◌, Option, none, some, if◌then◌else◌, ◌==◌, str_eq, not,
  is_empty, ◌&&◌, any, has_prefix, has_suffix, text, drop, strip_port,
}
use discobox.Prelude.Int.{ℤ}
use discobox.Prelude.Dict.{Dict}

pub record RewriteRule : Type 0 where
  pub kind : Str
  pub pattern : Str
  pub replacement : Str

pub record Route : Type 0 where
  pub id : Str
  pub priority : ℤ
  pub host : Str
  pub path_prefix : Str
  pub path_regex : Str
  pub headers : Dict Str Str
  pub service_id : Str
  pub middlewares : List Str
  pub rewrite_rules : List RewriteRule
  pub metadata : Dict Str Str

-- The tail of MatchesHost and of Matcher.matchHost: an exact match, or "*.domain" against a suffix.
unfoldable pub matches_pattern : Str → Str → Bool
matches_pattern pattern host =
    if pattern == host
    then true
    else if has_prefix pattern (text "*.")
    then has_suffix host (drop 1 pattern)
    else false

unfoldable pub matches_host : Route → Str → Bool
unfolding matches_pattern
matches_host r host = if is_empty r.host then true else matches_pattern r.host (strip_port host)

unfoldable pub matches_path : Route → Str → Bool
matches_path r path =
    if is_empty r.path_prefix && is_empty r.path_regex
    then true
    else if not (is_empty r.path_prefix) && not (has_prefix path r.path_prefix)
    then false
    else true

-- http.Header.Get on the request's headers: "" where the name is missing.
module _ (get : Str → Str) where
  -- The loop over the required headers, in either matcher.
  unfoldable pub headers_match : Dict Str Str → Bool
  headers_match [] = true
  headers_match ((key, value) ∷ hs) = if get key == value then headers_match hs else false

  unfoldable pub matches_headers : Route → Bool
  unfolding headers_match
  matches_headers r = headers_match r.headers

unfoldable pub has_middleware : Route → Str → Bool
has_middleware r name = any (λ mw. mw == name) r.middlewares

find_rule : Str → List RewriteRule → Option RewriteRule
find_rule kind [] = none
find_rule kind (rule ∷ rules) = if rule.kind == kind then some rule else find_rule kind rules

unfoldable pub get_rewrite_rule : Route → Str → Option RewriteRule
unfolding find_rule
get_rewrite_rule r kind = find_rule kind r.rewrite_rules
