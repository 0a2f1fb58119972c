-- ===== src/Storage/Consistency/Routing.antt =====
-- internal/storage/memory.go: the services and the routes. Every route refers to a service that
-- is there.
use discobox.Prelude.{Str, true, ◌≡◌, refl, ◌≢◌, some, str_eq}
use discobox.Prelude.Dict.{Dict, lookup, insert, erase, has, IsDict, insert-IsDict, erase-IsDict}
use discobox.Prelude.Integrity.{
  IsKeyed, Refers, insert-IsKeyed, erase-IsKeyed, insert-Refers, erase-Refers, Refers-insert,
  Refers-erase,
}
use discobox.Types.Service.{Service}
use discobox.Types.Route.{Route}
use discobox.Storage.Memory.{MemoryStorage}

abbrev pub service_id : Service → Str
service_id s = s.id

abbrev pub route_id : Route → Str
route_id r = r.id

abbrev pub service_of : Route → Str
service_of r = r.service_id

-- The routing half of the invariant.
pub record IsRouting (services : Dict Str Service) (routes : Dict Str Route) : Type 0 where
  pub services_distinct : IsDict services
  pub services_keyed : IsKeyed service_id services
  pub routes_distinct : IsDict routes
  pub routes_keyed : IsKeyed route_id routes
  pub served : Refers service_of routes services

module _ {services : Dict Str Service} {routes : Dict Str Route}
    (v : IsRouting services routes) where
  pub put_service-IsRouting :
      (service : Service) → IsRouting (insert service.id service services) routes
  put_service-IsRouting service = record {
    services_distinct = insert-IsDict service.id service services v.services_distinct;
    services_keyed = insert-IsKeyed service_id service.id service services refl v.services_keyed;
    routes_distinct = v.routes_distinct;
    routes_keyed = v.routes_keyed;
    served = Refers-insert service_of service.id service routes services v.served;
  }

  pub put_route-IsRouting :
      (route : Route)
      → has route.service_id services ≡ true
      → IsRouting services (insert route.id route routes)
  put_route-IsRouting route there = record {
    services_distinct = v.services_distinct;
    services_keyed = v.services_keyed;
    routes_distinct = insert-IsDict route.id route routes v.routes_distinct;
    routes_keyed = insert-IsKeyed route_id route.id route routes refl v.routes_keyed;
    served = insert-Refers service_of route.id route routes services there v.served;
  }

  pub drop_route-IsRouting : (id : Str) → IsRouting services (erase id routes)
  drop_route-IsRouting id = record {
    services_distinct = v.services_distinct;
    services_keyed = v.services_keyed;
    routes_distinct = erase-IsDict id routes v.routes_distinct;
    routes_keyed = erase-IsKeyed route_id id routes v.routes_keyed;
    served = erase-Refers service_of id routes services v.served;
  }

  pub drop_service-IsRouting :
      (id : Str)
      → ((j : Str) (r : Route) → lookup j routes ≡ some r → id ≢ r.service_id)
      → IsRouting (erase id services) routes
  drop_service-IsRouting id unused = record {
    services_distinct = erase-IsDict id services v.services_distinct;
    services_keyed = erase-IsKeyed service_id id services v.services_keyed;
    routes_distinct = v.routes_distinct;
    routes_keyed = v.routes_keyed;
    served = Refers-erase service_of id routes services unused v.served;
  }

abbrev pub Routing : MemoryStorage → Type 0
Routing s = IsRouting s.services s.routes
