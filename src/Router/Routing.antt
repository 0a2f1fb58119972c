-- ===== src/Router/Routing.antt =====
-- internal/router/router.go: the router, on the memory storage. Package regexp is an interface: what
-- Compile gives for an expression, and MatchString for what it gives. Log lines are left out.
use discobox.Prelude.{
  Str, Bool, true, ◌&&◌, List, [], ◌∷◌, Option, none, some, if◌then◌else◌, ◌==◌, str_eq, is_empty,
  has_prefix, less, ◌||◌,
}
use discobox.Prelude.Counting.{find}
use discobox.Prelude.Int.{ltb_ℤ, int_eq}
use discobox.Prelude.Dict.{Dict, lookup, insert}
use discobox.Types.Errors.{Result, ok, err, route_not_found}
use discobox.Types.Route.{Route, headers_match}
use discobox.Storage.Memory.{MemoryStorage, list_routes}
use discobox.Router.HostRouter.{HostRouter, new_host_router, add_all, find_routes}

-- Package regexp.
pub record Regexp (R : Type 0) : Type 0 where
  pub compile : Str → Option R
  pub match_string : R → Str → Bool

-- What Match reads of an *http.Request; `header` is Header.Get.
pub record Request : Type 0 where
  pub host : Str
  pub path : Str
  pub header : Str → Str

-- compiledRoute; `path_regexp` is nil for a route without an expression.
pub record CompiledRoute (R : Type 0) : Type 0 where
  pub route : Route
  pub path_regexp : Option R

pub record Router (R : Type 0) : Type 0 where
  pub routes : List Route
  pub compiled : Dict Str (CompiledRoute R)
  pub host_router : HostRouter

-- The less function of loadRoutes: by priority, descending, then by ID.
unfoldable pub goes_before : Route → Route → Bool
goes_before a b = if a.priority == b.priority then less a.id b.id else ltb_ℤ b.priority a.priority

unfoldable pub insert_route : Route → List Route → List Route
insert_route r [] = r ∷ []
insert_route r (s ∷ rs) = if goes_before s r then s ∷ insert_route r rs else r ∷ s ∷ rs

-- sort.Slice; the IDs are distinct, so that only one order is sorted.
unfoldable pub sort_routes : List Route → List Route
sort_routes [] = []
sort_routes (r ∷ rs) = insert_route r (sort_routes rs)

-- The end of Match: the first candidate that is not skipped.
abbrev pub first_match : Option Route → Result Route
first_match none = err route_not_found
first_match (some route) = ok route

module _ {R : Type 0} (re : Regexp R) where
  -- What the loop of loadRoutes compiles for a route; `none` where it skips the route.
  unfoldable pub compile_route : Route → Option (CompiledRoute R)
  compile_route route =
      if is_empty route.path_regex
      then some (record { route = route; path_regexp = none })
      else elim (re.compile route.path_regex) [
        | none ↦ none
        | some regex ↦ some (record { route = route; path_regexp = some regex })
      ]

  -- compiled[route.ID] = cr, unless the route is skipped.
  unfoldable pub put_compiled :
      Str → Option (CompiledRoute R) → Dict Str (CompiledRoute R) → Dict Str (CompiledRoute R)
  put_compiled id none compiled = compiled
  put_compiled id (some cr) compiled = insert id cr compiled

  unfoldable pub compile_all : List Route → Dict Str (CompiledRoute R) → Dict Str (CompiledRoute R)
  compile_all [] compiled = compiled
  compile_all (route ∷ routes) compiled =
      compile_all routes (put_compiled route.id (compile_route route) compiled)

  -- What loadRoutes stores for the routes that it has listed.
  unfoldable pub loaded : List Route → Router R
  loaded listed =
      let routes = sort_routes listed in
      record {
        routes = routes;
        compiled = compile_all routes [];
        host_router = add_all routes new_host_router;
      }

  unfoldable pub load_routes : MemoryStorage → Router R → Result (Unit {0}) × Router R
  load_routes s router = elim (list_routes s) [
    | err e ↦ (err e, router)
    | ok listed ↦ (ok tt, loaded listed)
  ]

  -- The regular expression's part of the loop of Match, for compiled[route.ID].
  unfoldable pub regex_passes : Str → Route → Option (CompiledRoute R) → Bool
  regex_passes path route none = is_empty route.path_regex
  regex_passes path route (some cr) =
      if is_empty route.path_regex
      then true
      else elim cr.path_regexp [ none ↦ true | some regex ↦ re.match_string regex path ]

  -- The loop of Match does not skip the route.
  unfoldable pub passes : Request → Dict Str (CompiledRoute R) → Route → Bool
  passes req compiled route =
      regex_passes req.path route (lookup route.id compiled)
      && (is_empty route.path_prefix || has_prefix req.path route.path_prefix)
      && headers_match req.header route.headers

  unfoldable pub match_request : Request → Router R → Result Route
  match_request req router =
      first_match (find (passes req router.compiled) (find_routes req.host router.host_router))

  -- The end of AddRoute, UpdateRoute and RemoveRoute: an error of the storage is returned, and
  -- otherwise the routes are loaded again.
  unfoldable pub reload :
      Result (Unit {0}) × MemoryStorage → Router R → Result (Unit {0}) × MemoryStorage × Router R
  reload (err e, s) router = (err e, s, router)
  reload (ok t, s) router = let l = load_routes s router in (l.0, s, l.1)
