-- ===== src/Storage/Memory/Routes.antt =====
-- internal/storage/memory.go: the operations on routes.
use discobox.Prelude.{Str, List, if◌then◌else◌, str_eq, Option, none, some, text, not}
use discobox.Prelude.Dict.{lookup, insert, erase, has, values}
use discobox.Types.Errors.{Result, ok, err, route_not_found, invalid_request, already_exists, new}
use discobox.Types.Route.{Route}
use discobox.Storage.Memory.State.{MemoryStorage, route_event, notify_watchers}

unfoldable pub get_route : Str → MemoryStorage → Result Route
get_route id s = elim (lookup id s.routes) [ none ↦ err route_not_found | some route ↦ ok route ]

unfoldable pub list_routes : MemoryStorage → Result (List Route)
list_routes s = ok (values s.routes)

put_route : Str → Route → MemoryStorage → MemoryStorage
put_route type route s =
    notify_watchers (route_event type route.id route)
      (record s { routes = insert route.id route s.routes })

unfoldable pub create_route : Option Route → MemoryStorage → Result (Unit {0}) × MemoryStorage
unfolding put_route
create_route none s = (err invalid_request, s)
create_route (some route) s =
    if has route.id s.routes
    then (err already_exists, s)
    else if not (has route.service_id s.services)
    then (err (new (text "service not found for route")), s)
    else (ok tt, put_route (text "created") route s)

unfoldable pub update_route : Option Route → MemoryStorage → Result (Unit {0}) × MemoryStorage
unfolding put_route
update_route none s = (err invalid_request, s)
update_route (some route) s =
    if not (has route.id s.routes)
    then (err route_not_found, s)
    else if not (has route.service_id s.services)
    then (err (new (text "service not found for route")), s)
    else (ok tt, put_route (text "updated") route s)

unfoldable pub delete_route : Str → MemoryStorage → Result (Unit {0}) × MemoryStorage
delete_route id s = elim (lookup id s.routes) [
  | none ↦ (err route_not_found, s)
  | some route ↦ (
    ok tt,
    notify_watchers (route_event (text "deleted") id route)
        (record s { routes = erase id s.routes }),
  )
]
