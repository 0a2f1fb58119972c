-- ===== src/Router/Reloading/Tests.antt =====
-- The router over a store with one service.
use discobox.Prelude.{
  ◌≡◌, ◌≢◌, refl, true, false, [], ◌∷◌, List, none, some, text, str_eq, list_beq, has_prefix,
}
use discobox.Prelude.Counting.{find}
use discobox.Prelude.Dict.{lookup, insert, erase}
use discobox.Prelude.Int.{pos}
use discobox.Types.Errors.{ok}
use discobox.Types.Route.{Route, matches_host, matches_path, matches_headers, headers_match}
use discobox.Types.Service.{Service}
use discobox.Storage.Memory.{
  MemoryStorage, new_memory, create_service, create_route, delete_route, notify_watchers, send_all,
  list_routes,
}
use discobox.Storage.Calls.{Call, creates_service, creates_route, step, run}
use discobox.Storage.Calls.Invariant.{run-new_memory-IsConsistent}
use discobox.Router.HostRouter.{new_host_router, find_routes, add_all, routes_at, wildcard_routes}
use discobox.Router.HostRouter
use discobox.Router.Matching.{accepts, fits_regex}
use discobox.Router.Operations.{add_route, remove_route}
use discobox.Router.Routing.{
  Regexp, Request, Router, loaded, load_routes, reload, match_request, sort_routes, insert_route,
  goes_before, compile_all, compile_route, put_compiled, passes, regex_passes,
}
use discobox.Router.Reloading.{add_route_serves, remove_route_gone}

abbrev web : Service
web = record {
  id = text "web";
  name = text "Web";
  endpoints = text "http://a" ∷ [];
  health_path = text "/health";
  weight = pos 1;
  max_conns = pos 0;
  timeout = pos 0;
  metadata = [];
  tls = none;
  strip_prefix = false;
  active = true;
  created_at = 0;
  updated_at = 0;
}

abbrev home : Route
home = record {
  id = text "home";
  priority = pos 1;
  host = [];
  path_prefix = text "/";
  path_regex = [];
  headers = [];
  service_id = text "web";
  middlewares = [];
  rewrite_rules = [];
  metadata = [];
}

abbrev docs : Route
docs = record home { id = text "docs"; path_prefix = text "/docs" }

abbrev calls : List Call
calls = creates_service 5 (some web) ∷ creates_route (some home) ∷ []

abbrev store : MemoryStorage
store = run calls new_memory

-- No expression compiles.
abbrev nothing : Regexp Unit
nothing = record { compile = λ s. none; match_string = λ r s. false }

abbrev empty : Router Unit
empty = record { routes = []; compiled = []; host_router = new_host_router }

abbrev request : Request
request = record { host = text "a.example"; path = text "/docs/x"; header = λ name. [] }

add_route_serves_example :
    (r : Route) × (match_request nothing request (add_route nothing (some docs) store empty).2
      ≡ ok r)
unfolding run step create_service create_route notify_watchers send_all lookup insert list_beq
    add_route reload load_routes list_routes accepts fits_regex matches_host matches_path
    matches_headers headers_match has_prefix
add_route_serves_example =
    add_route_serves nothing request docs store (add_route nothing (some docs) store empty).1 empty
      (add_route nothing (some docs) store empty).2 (run-new_memory-IsConsistent calls).routing refl
      refl

-- The store with both routes.
abbrev both : List Call
both = creates_service 5 (some web) ∷ creates_route (some home) ∷ creates_route (some docs) ∷ []

remove_route_gone_example : text "home" ≢ text "docs"
unfolding run step create_service create_route delete_route notify_watchers send_all lookup insert
    erase list_beq remove_route reload load_routes list_routes match_request loaded sort_routes
    insert_route goes_before compile_all compile_route put_compiled add_all HostRouter.add_route
    routes_at wildcard_routes find_routes find passes regex_passes headers_match has_prefix
remove_route_gone_example =
    remove_route_gone nothing request (text "docs") home (run both new_memory)
      (remove_route nothing (text "docs") (run both new_memory) empty).1 empty
      (remove_route nothing (text "docs") (run both new_memory) empty).2
      (run-new_memory-IsConsistent both).routing refl refl
