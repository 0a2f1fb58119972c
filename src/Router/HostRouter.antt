-- ===== src/Router/HostRouter.antt =====
-- internal/router/host_router.go: the index of the routes by their host pattern.
use discobox.Prelude.{
  Str, List, [], ◌∷◌, ◌++◌, none, some, if◌then◌else◌, str_eq, is_empty, has_prefix, has_suffix,
  strip_port, drop, text,
}
use discobox.Prelude.Dict.{Dict, lookup, insert}
use discobox.Types.Route.{Route}

pub record HostRouter : Type 0 where
  pub exact_hosts : Dict Str (List Route)
  pub wildcards : Dict Str (List Route)
  pub all_routes : List Route

abbrev pub new_host_router : HostRouter
new_host_router = record { exact_hosts = []; wildcards = []; all_routes = [] }

-- m[k], nil where it is missing.
unfoldable pub routes_at : Str → Dict Str (List Route) → List Route
routes_at k m = elim (lookup k m) [ none ↦ [] | some routes ↦ routes ]

-- m[k] = append(m[k], route)
unfoldable pub append_at : Str → Route → Dict Str (List Route) → Dict Str (List Route)
append_at k route m = insert k (routes_at k m ++ route ∷ []) m

unfoldable pub add_route : Route → HostRouter → HostRouter
add_route route h =
    if is_empty route.host
    then record h { all_routes = h.all_routes ++ route ∷ [] }
    else if has_prefix route.host (text "*.")
    then record h { wildcards = append_at (drop 1 route.host) route h.wildcards }
    else record h { exact_hosts = append_at route.host route h.exact_hosts }

-- The loop of loadRoutes that adds the routes.
unfoldable pub add_all : List Route → HostRouter → HostRouter
add_all [] h = h
add_all (r ∷ rs) h = add_all rs (add_route r h)

-- The loop over the wildcards.
unfoldable pub wildcard_routes : Str → Dict Str (List Route) → List Route
wildcard_routes host [] = []
wildcard_routes host ((domain, routes) ∷ m) =
    if has_suffix host domain then routes ++ wildcard_routes host m else wildcard_routes host m

unfoldable pub find_routes : Str → HostRouter → List Route
find_routes req_host h =
    let host = strip_port req_host in
    routes_at host h.exact_hosts ++ wildcard_routes host h.wildcards ++ h.all_routes
