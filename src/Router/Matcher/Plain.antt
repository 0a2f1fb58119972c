-- ===== src/Router/Matcher/Plain.antt =====
-- A new Matcher of internal/router/matcher.go against Route's own methods, for plain routes.
use discobox.Prelude.{
  Str, Bool, true, false, ◌&&◌, ◌≡◌, refl, inl, inr, List, [], ◌∷◌, Option, none, some,
  if◌then◌else◌, str_eq, arith, is_empty, has_prefix, strip_port, contains, text, is_some,
  Option-cases, beq_comm, All, any, ◌∙◌, ◌⊎◌,
}
use discobox.Prelude.Dict.{Dict, lookup}
use discobox.Types.Route.{
  Route, matches_host, matches_path, matches_headers, matches_pattern, headers_match,
}
use discobox.Types.Errors.{ok, err, route_not_found}
use discobox.Router.Loading.{IsDistinct}
use discobox.Router.Routing.{Regexp, Request, loaded, match_request}
use discobox.Router.Matching.{accepts, fits_regex, match_request_complete}
use discobox.Router.Matcher.{
  Submatches, get_or_compile_regex, match_host, match_path, match_groups, groups_of, match_header,
  match_headers, match_route,
}

-- No pattern in the host, and no expression among the headers.
pub record IsPlain (r : Route) : Type 0 where
  pub host : contains r.host b'{' ≡ false
  pub headers : All (λ h. has_prefix h.1 (text "~") ≡ false) r.headers

module _ {R : Type 0} (re : Regexp R) (sub : Submatches re) where
  match_host-plain :
      (req_host route_host : Str) (cache : Dict Str R)
      → contains route_host b'{' ≡ false
      → match_host re sub req_host route_host cache
        ≡ (matches_pattern route_host (strip_port req_host), cache)
  unfolding match_host matches_pattern
  match_host-plain req_host route_host cache plain =
      ground (arith, plain, beq_comm (strip_port req_host) route_host)

  match_headers-plain :
      (header : Str → Str) (hs : Dict Str Str) (cache : Dict Str R)
      → All (λ h. has_prefix h.1 (text "~") ≡ false) hs
      → match_headers re sub header hs cache ≡ (headers_match header hs, cache)
  unfolding match_headers match_header headers_match
  match_headers-plain header [] cache plain = refl
  match_headers-plain header ((key, value) ∷ hs) cache plain =
      ground (arith, plain.0, match_headers-plain header hs cache plain.1)

  groups_of-is_some :
      (regex : R) (o : Option (List Str)) → is_some (groups_of re sub regex o) ≡ is_some o
  unfolding groups_of
  groups_of-is_some regex none = refl
  groups_of-is_some regex (some matches) = refl

  match_path-new :
      (req : Request) (r : Route)
      → is_some (match_path re sub req.path r []).0
        ≡ (matches_path r req.path && fits_regex re req r)
  unfolding match_path matches_path fits_regex match_groups get_or_compile_regex lookup
  match_path-new req r = elim (Option-cases (re.compile r.path_regex)) [
    | inl bad ↦ ground (arith, bad)
    | inr (regex, good) ↦ ground (
      arith,
      good,
      groups_of-is_some regex (sub.find_submatch regex req.path),
      sub.agrees regex req.path,
    )
  ]

  hosted_plain :
      (req : Request) (r : Route)
      → contains r.host b'{' ≡ false
      → (if is_empty r.host then (true, []) else match_host re sub req.host r.host [])
        ≡ (matches_host r req.host, [])
  unfolding matches_host
  hosted_plain req r plain = ground (arith, match_host-plain req.host r.host [] plain)

  match_route-host :
      (req : Request) (r : Route) (b : Bool)
      → (if is_empty r.host then (true, []) else match_host re sub req.host r.host []) ≡ (b, [])
      → IsPlain r
      → is_some (match_route re sub req r []).0
        ≡ (b && (is_some (match_path re sub req.path r []).0 && headers_match req.header r.headers))
  unfolding match_route
  match_route-host req r b h plain = ground (
    arith,
    h,
    match_headers-plain req.header r.headers (match_path re sub req.path r []).1 plain.headers,
  )

match_route-accepts :
    {R : Type 0} (re : Regexp R) (sub : Submatches re) (req : Request) (r : Route)
    → IsPlain r
    → is_some (match_route re sub req r []).0 ≡ accepts re req r
unfolding accepts matches_headers
match_route-accepts re sub req r plain = ground (
  arith,
  match_route-host re sub req r (matches_host r req.host) (hosted_plain re sub req r plain.host)
      plain,
  match_path-new re sub req r,
)

any-accepts :
    {R : Type 0} (re : Regexp R) (sub : Submatches re) (req : Request) (rs : List Route)
    → All IsPlain rs
    → any (λ (r : Route). is_some (match_route re sub req r []).0) rs ≡ any (accepts re req) rs
any-accepts re sub req [] plain = refl
any-accepts re sub req (r ∷ rs) plain =
    rw (match_route-accepts re sub req r plain.0, any-accepts re sub req rs plain.1) refl

-- On plain routes with distinct IDs, which have no pattern in their hosts and no expression among
-- their headers, the router and the Matcher agree: Match on the freshly loaded routes answers with a
-- route exactly if MatchRoute of a new Matcher matches one of them, and otherwise with "route not
-- found".
pub match_request-match_route :
    {R : Type 0} (re : Regexp R) (sub : Submatches re) (req : Request) (rs : List Route)
    → IsDistinct rs
    → All IsPlain rs
    → ((match_request re req (loaded re rs) ≡ err route_not_found)
        × (any (λ (r : Route). is_some (match_route re sub req r []).0) rs ≡ false))
      ⊎ ((r : Route) × (match_request re req (loaded re rs) ≡ ok r)
          × (any (λ (r : Route). is_some (match_route re sub req r []).0) rs ≡ true))
match_request-match_route re sub req rs d plain =
    let same = any-accepts re sub req rs plain in
    elim (match_request_complete re req rs d) [
      | inl (miss, nothing) ↦ inl (miss, same ∙ nothing)
      | inr (r, hit, found) ↦ inr (r, hit, same ∙ found)
    ]
