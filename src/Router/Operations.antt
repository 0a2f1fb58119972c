-- ===== src/Router/Operations.antt =====
-- internal/router/router.go: the operations that change the routes, through the memory storage.
use discobox.Prelude.{Str, Option, none, some}
use discobox.Types.Errors.{Result, err, invalid_request}
use discobox.Types.Route.{Route}
use discobox.Storage.Memory.{MemoryStorage, create_route, delete_route, update_route as store_route}
use discobox.Router.Routing.{Regexp, Router, reload}

module _ {R : Type 0} (re : Regexp R) where
  unfoldable pub add_route :
      Option Route → MemoryStorage → Router R → Result (Unit {0}) × MemoryStorage × Router R
  add_route none s router = (err invalid_request, s, router)
  add_route (some route) s router = reload re (create_route (some route) s) router

  unfoldable pub update_route :
      Option Route → MemoryStorage → Router R → Result (Unit {0}) × MemoryStorage × Router R
  update_route none s router = (err invalid_request, s, router)
  update_route (some route) s router = reload re (store_route (some route) s) router

  unfoldable pub remove_route :
      Str → MemoryStorage → Router R → Result (Unit {0}) × MemoryStorage × Router R
  remove_route id s router = reload re (delete_route id s) router
