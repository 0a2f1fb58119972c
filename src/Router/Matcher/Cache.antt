-- ===== src/Router/Matcher/Cache.antt =====
-- The cache of Matcher in internal/router/matcher.go, which knows a route's expression by its ID.
use discobox.Prelude.{
  Str, Bool, true, false, not, ◌≡◌, ◌∙◌, ap, List, [], ◌∷◌, Option, none, some, ◌++◌, ◌&&◌, ◌||◌,
  str_eq, arith, is_empty, has_prefix, text, if◌then◌else◌, inl, inr, Option-cases, Bool-cases,
  is_some, refl, drop, contains, has_suffix, strip_port, ◌==◌,
}
use discobox.Prelude.Dict.{Dict, lookup, insert, lookup-insert_ne, lookup-insert_self}
use discobox.Types.Route.{Route}
use discobox.Router.Routing.{Regexp, Request}
use discobox.Router.Matcher.{
  Submatches, get_or_compile_regex, convert_pattern_to_regex, match_cached, match_host, groups_of,
  match_groups, match_path, match_header, match_headers, match_route,
}

module _ {R : Type 0} (re : Regexp R) (sub : Submatches re) where
  -- The cache after a sequence of calls of MatchRoute.
  abbrev pub after_matches : List (Request × Route) → Dict Str R → Dict Str R
  after_matches [] cache = cache
  after_matches ((req, r) ∷ calls) cache = after_matches calls (match_route re sub req r cache).1

  module _ (k : Str) (x : R) where
    -- The entry of the key is in the cache that a call leaves.
    record Kept {A : Type 0} (w : A × Dict Str R) : Type 0 where
      kept : lookup k w.1 ≡ some x

    Kept-if :
        {A : Type 0} (b : Bool) (u v : A × Dict Str R) → Kept u → Kept v → Kept (if b then u else v)
    Kept-if true u v h g = h
    Kept-if false u v h g = g

    get_or_compile_regex-Kept :
        (key pattern : Str) (cache : Dict Str R)
        → lookup k cache ≡ some x
        → Kept (get_or_compile_regex re sub key pattern cache)
    unfolding get_or_compile_regex
    get_or_compile_regex-Kept key pattern cache h = elim (Option-cases (lookup key cache)) [
      | inr (y, there) ↦ rw (there, get_or_compile_regex) (record { kept = h })
      | inl gone ↦ elim (Option-cases (re.compile pattern)) [
        | inl bad ↦ rw (gone, bad, get_or_compile_regex) (record { kept = h })
        | inr (y, good) ↦
            rw (gone, good, get_or_compile_regex)
              (record {
                kept =
                    lookup-insert_ne key k y cache
                      (λ p. absurd (cc (gone, h, ap (λ (i : Str). lookup i cache) p)))
                    ∙ h;
              })
      ]
    ]

    match_cached-Kept :
        (s : Str) (w : Option R × Dict Str R) → Kept w → Kept (match_cached re sub s w)
    unfolding match_cached
    match_cached-Kept s (none, cache) h = record { kept = h.kept }
    match_cached-Kept s (some regex, cache) h = record { kept = h.kept }

    match_groups-Kept :
        (path : Str) (w : Option R × Dict Str R) → Kept w → Kept (match_groups re sub path w)
    unfolding match_groups
    match_groups-Kept path (none, cache) h = record { kept = h.kept }
    match_groups-Kept path (some regex, cache) h = record { kept = h.kept }

    match_host-Kept :
        (req_host route_host : Str) (cache : Dict Str R)
        → lookup k cache ≡ some x
        → Kept (match_host re sub req_host route_host cache)
    unfolding match_host
    match_host-Kept req_host route_host cache h =
        let host = strip_port req_host in
        Kept-if (host == route_host) (true, cache) _ (record { kept = h })
          (Kept-if (has_prefix route_host (text "*.")) (has_suffix host (drop 1 route_host), cache)
            _ (record { kept = h })
            (Kept-if (contains route_host b'{' && contains route_host b'}') _ (false, cache)
              (match_cached-Kept host
                (get_or_compile_regex re sub (text "host:" ++ route_host)
                  (convert_pattern_to_regex re sub route_host) cache)
                (get_or_compile_regex-Kept (text "host:" ++ route_host)
                  (convert_pattern_to_regex re sub route_host) cache h))
              (record { kept = h })))

    match_path-Kept :
        (path : Str) (r : Route) (cache : Dict Str R)
        → lookup k cache ≡ some x
        → Kept (match_path re sub path r cache)
    unfolding match_path
    match_path-Kept path r cache h =
        Kept-if (not (is_empty r.path_prefix) && not (has_prefix path r.path_prefix)) (none, cache)
          _ (record { kept = h })
          (Kept-if (is_empty r.path_regex) (some [], cache) _ (record { kept = h })
            (match_groups-Kept path
              (get_or_compile_regex re sub (text "path:" ++ r.id) r.path_regex cache)
              (get_or_compile_regex-Kept (text "path:" ++ r.id) r.path_regex cache h)))

    match_header-Kept :
        (key value req_value : Str) (cache : Dict Str R)
        → lookup k cache ≡ some x
        → Kept (match_header re sub key value req_value cache)
    unfolding match_header
    match_header-Kept key value req_value cache h =
        Kept-if (req_value == value) (true, cache) _ (record { kept = h })
          (Kept-if (has_prefix value (text "~")) _ (false, cache)
            (match_cached-Kept req_value
              (get_or_compile_regex re sub (text "header:" ++ key ++ text ":" ++ drop 1 value)
                (drop 1 value) cache)
              (get_or_compile_regex-Kept (text "header:" ++ key ++ text ":" ++ drop 1 value)
                (drop 1 value) cache h))
            (record { kept = h }))

    match_headers-Kept :
        (header : Str → Str) (hs : Dict Str Str) (cache : Dict Str R)
        → lookup k cache ≡ some x
        → Kept (match_headers re sub header hs cache)
    unfolding match_headers
    match_headers-Kept header [] cache h = record { kept = h }
    match_headers-Kept header ((key, value) ∷ hs) cache h =
        let one = match_header re sub key value (header key) cache in
        let first = match_header-Kept key value (header key) cache h in
        Kept-if one.0 (match_headers re sub header hs one.1) (false, one.1)
          (match_headers-Kept header hs one.1 first.kept) (record { kept = first.kept })

    match_route-Kept :
        (req : Request) (r : Route) (cache : Dict Str R)
        → lookup k cache ≡ some x
        → Kept (match_route re sub req r cache)
    unfolding match_route
    match_route-Kept req r cache h =
        let hosted =
          if is_empty r.host then (true, cache) else match_host re sub req.host r.host cache in
        let pathed = match_path re sub req.path r hosted.1 in
        let headed = match_headers re sub req.header r.headers pathed.1 in
        let a : Kept hosted =
          Kept-if (is_empty r.host) (true, cache) (match_host re sub req.host r.host cache)
            (record { kept = h }) (match_host-Kept req.host r.host cache h) in
        let b = match_path-Kept req.path r hosted.1 a.kept in
        let c = match_headers-Kept req.header r.headers pathed.1 b.kept in
        Kept-if (not hosted.0) (none, hosted.1) _ (record { kept = a.kept })
          (Kept-if (not (is_some pathed.0)) (none, pathed.1) _ (record { kept = b.kept })
            (Kept-if (not headed.0) (none, headed.1) (pathed.0, headed.1) (record { kept = c.kept })
              (record { kept = c.kept })))

    after_matches-keeps :
        (calls : List (Request × Route)) (cache : Dict Str R)
        → lookup k cache ≡ some x
        → lookup k (after_matches calls cache) ≡ some x
    after_matches-keeps [] cache h = h
    after_matches-keeps ((req, r) ∷ calls) cache h =
        after_matches-keeps calls (match_route re sub req r cache).1
          (match_route-Kept req r cache h).kept

  compiled_first :
      (key pattern : Str) (regex : R) (cache : Dict Str R)
      → lookup key cache ≡ none
      → re.compile pattern ≡ some regex
      → get_or_compile_regex re sub key pattern cache ≡ (some regex, insert key regex cache)
  unfolding get_or_compile_regex
  compiled_first key pattern regex cache gone good = rw (gone, good, get_or_compile_regex) refl

  cached_first :
      (key pattern : Str) (regex : R) (cache : Dict Str R)
      → lookup key cache ≡ some regex
      → get_or_compile_regex re sub key pattern cache ≡ (some regex, cache)
  unfolding get_or_compile_regex
  cached_first key pattern regex cache there = rw (there, get_or_compile_regex) refl

  -- The route's prefix lets the path through.
  abbrev pub fits_prefix : Str → Route → Bool
  fits_prefix path r = is_empty r.path_prefix || has_prefix path r.path_prefix

  -- What matchPath makes of a route with an expression.
  match_path-regex :
      (path : Str) (r : Route) (cache : Dict Str R)
      → is_empty r.path_regex ≡ false
      → match_path re sub path r cache ≡ (
          if fits_prefix path r
          then match_groups re sub path
              (get_or_compile_regex re sub (text "path:" ++ r.id) r.path_regex cache)
          else (none, cache))
  unfolding match_path
  match_path-regex path r cache has_one = ground (arith, has_one)

  match_groups-cache :
      (path : Str) (regex : R) (cache : Dict Str R)
      → match_groups re sub path (some regex, cache)
        ≡ (groups_of re sub regex (sub.find_submatch regex path), cache)
  unfolding match_groups
  match_groups-cache path regex cache = refl

  stored_regex :
      (path : Str) (r : Route) (regex : R) (cache : Dict Str R)
      → fits_prefix path r ≡ true
      → is_empty r.path_regex ≡ false
      → lookup (text "path:" ++ r.id) cache ≡ none
      → re.compile r.path_regex ≡ some regex
      → lookup (text "path:" ++ r.id) (match_path re sub path r cache).1 ≡ some regex
  stored_regex path r regex cache fits has_one gone good =
      rw
        (
          match_path-regex path r cache has_one,
          fits,
          compiled_first (text "path:" ++ r.id) r.path_regex regex cache gone good,
          match_groups-cache path regex (insert (text "path:" ++ r.id) regex cache),
        )
        (lookup-insert_self (text "path:" ++ r.id) regex cache)

  -- Once matchPath has compiled the expression of a route, a route of the same ID is matched against
  -- that expression ever after, through any sequence of calls of MatchRoute and whatever expression
  -- it has itself by then; only its prefix is its own.
  pub match_path_stale :
      (first path : Str) (r changed : Route) (regex : R) (cache : Dict Str R)
      (calls : List (Request × Route))
      → fits_prefix first r ≡ true
      → is_empty r.path_regex ≡ false
      → lookup (text "path:" ++ r.id) cache ≡ none
      → re.compile r.path_regex ≡ some regex
      → changed.id ≡ r.id
      → is_empty changed.path_regex ≡ false
      → (match_path re sub path changed (after_matches calls (match_path re sub first r cache).1)).0
        ≡ (if fits_prefix path changed
            then groups_of re sub regex (sub.find_submatch regex path)
            else none)
  match_path_stale first path r changed regex cache calls fits one gone good same two =
      let later = after_matches calls (match_path re sub first r cache).1 in
      let there : lookup (text "path:" ++ changed.id) later ≡ some regex =
        ap (λ (id : Str). lookup (text "path:" ++ id) later) same
        ∙ after_matches-keeps (text "path:" ++ r.id) regex calls (match_path re sub first r cache).1
            (stored_regex first r regex cache fits one gone good) in
      rw
        (
          match_path-regex path changed later two,
          cached_first (text "path:" ++ changed.id) changed.path_regex regex later there,
          match_groups-cache path regex later,
        )
        (elim (Bool-cases (fits_prefix path changed)) [ inl t ↦ rw t refl | inr f ↦ rw f refl ])
