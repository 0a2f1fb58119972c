-- ===== src/Storage/Memory/Services.antt =====
-- internal/storage/memory.go: the operations on services.
use discobox.Prelude.{Str, ℕ, List, [], ◌∷◌, if◌then◌else◌, ◌==◌, str_eq, Option, none, some, text}
use discobox.Prelude.Ranges.{keys_where}
use discobox.Prelude.Dict.{lookup, insert, erase, has, values}
use discobox.Types.Errors.{Result, ok, err, service_not_found, invalid_request, already_exists}
use discobox.Types.Service.{Service}
use discobox.Types.Route.{Route}
use discobox.Storage.Memory.State.{MemoryStorage, service_event, route_event, notify_watchers}

unfoldable pub get_service : Str → MemoryStorage → Result Service
get_service id s = elim (lookup id s.services) [
  | none ↦ err service_not_found
  | some service ↦ ok service
]

unfoldable pub list_services : MemoryStorage → Result (List Service)
list_services s = ok (values s.services)

-- What follows the guards: the object that is stored, and the event.
put_service : Str → Service → MemoryStorage → MemoryStorage
put_service type service s =
    notify_watchers (service_event type service.id service)
      (record s { services = insert service.id service s.services })

-- `none` is a nil pointer; the result is the caller's object, which the call stamps.
unfoldable pub create_service : ℕ → Option Service → MemoryStorage → Result Service × MemoryStorage
unfolding put_service
create_service now none s = (err invalid_request, s)
create_service now (some service) s =
    let stamped : Service = record service { created_at = now; updated_at = now } in
    if has service.id s.services
    then (err already_exists, s)
    else (ok stamped, put_service (text "created") stamped s)

unfoldable pub update_service : ℕ → Option Service → MemoryStorage → Result Service × MemoryStorage
unfolding put_service
update_service now none s = (err invalid_request, s)
update_service now (some service) s = elim (lookup service.id s.services) [
  | none ↦ (err service_not_found, s)
  | some existing ↦ (
    ok (record service { updated_at = now; created_at = existing.created_at }),
    put_service (text "updated")
        (record service { updated_at = now; created_at = existing.created_at }) s,
  )
]

-- One round of the loop over routesToDelete; a listed route is always there.
unfoldable pub delete_listed_route : Str → MemoryStorage → MemoryStorage
delete_listed_route route_id s = elim (lookup route_id s.routes) [
  | none ↦ s
  | some route ↦
      notify_watchers (route_event (text "deleted") route_id route)
        (record s { routes = erase route_id s.routes })
]

unfoldable pub delete_listed_routes : List Str → MemoryStorage → MemoryStorage
delete_listed_routes [] s = s
delete_listed_routes (id ∷ ids) s = delete_listed_routes ids (delete_listed_route id s)

-- The first loop of DeleteService: the routes that refer to the service.
unfoldable pub routes_to_delete : Str → MemoryStorage → List Str
routes_to_delete id s = keys_where (λ (route : Route). route.service_id == id) s.routes

drop_service : Str → Service → MemoryStorage → MemoryStorage
drop_service id service s =
    notify_watchers (service_event (text "deleted") id service)
      (record s { services = erase id s.services })

unfoldable pub delete_service : Str → MemoryStorage → Result (Unit {0}) × MemoryStorage
unfolding drop_service
delete_service id s = elim (lookup id s.services) [
  | none ↦ (err service_not_found, s)
  | some service ↦ (ok tt, drop_service id service (delete_listed_routes (routes_to_delete id s) s))
]
