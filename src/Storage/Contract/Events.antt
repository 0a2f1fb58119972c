-- ===== src/Storage/Contract/Events.antt =====
-- The events of DeleteService in internal/storage/memory.go, as the watchers receive them.
use discobox.Prelude.{
  Str, ℕ, zero, suc, get_elem?, none, ◌+◌, ◌≤◌, ◌≡◌, refl, sym, ap, ◌∙◌, inl, inr, List, [], ◌∷◌,
  ◌++◌, some, if◌then◌else◌, ◌==◌, str_eq, text, arith, Option-cases, Bool-cases, beq_self, length,
  length-append,
}
use mathlib.Core.List.{append_assoc, append-nil}
use discobox.Prelude.Dict.{Dict, lookup, erase, IsDict, IsFresh, lookup-erase_ne, lookup_fresh}
use discobox.Prelude.Ranges.{keys_where}
use discobox.Types.Errors.{ok}
use discobox.Types.Service.{Service}
use discobox.Types.Route.{Route}
use discobox.Storage.Memory.{
  MemoryStorage, Channel, StorageEvent, channel_capacity, send, send_all, notify_watchers,
  route_event, service_event, delete_service, get_service, delete_listed_route,
  delete_listed_routes, routes_to_delete,
}
use discobox.Storage.Consistency.Routing.{Routing}

-- The events of the cascade: one for each route of the service, in the order of the range.
unfoldable pub cascade_events : Str → Dict Str Route → List StorageEvent
cascade_events id [] = []
cascade_events id ((k, r) ∷ m) =
    if r.service_id == id
    then route_event (text "deleted") k r ∷ cascade_events id m
    else cascade_events id m

-- A channel that has received events after those of before.
unfoldable pub received : List StorageEvent → Channel → Channel
received events ch = record ch { buffer = ch.buffer ++ events }

abbrev pub HasRoom : ℕ → Channel → Type 0
HasRoom n ch = length ch.buffer + n ≤ channel_capacity

-- Several events sent one after another, to all channels and to one.
send_events : List StorageEvent → List Channel → List Channel
send_events [] chs = chs
send_events (event ∷ events) chs = send_events events (send_all event chs)

send_each : List StorageEvent → Channel → Channel
send_each [] ch = ch
send_each (event ∷ events) ch = send_each events (send event ch)

-- A channel that has room for all receives all of them in order.
send_each-received :
    (events : List StorageEvent) (ch : Channel)
    → HasRoom (length events) ch
    → send_each events ch ≡ received events ch
unfolding send_each send received
send_each-received [] ch h = ap (λ b. record ch { buffer = b }) (sym (append-nil ch.buffer))
send_each-received (event ∷ events) ch h =
    let next : Channel = record ch { buffer = ch.buffer ++ event ∷ [] } in
    let sent : send event ch ≡ next = ground (arith, h) in
    rw sent (
      send_each-received events next (ground (arith, h, length-append ch.buffer (event ∷ [])))
      ∙ ap (λ b. record ch { buffer = b }) (append_assoc ch.buffer (event ∷ []) events))

-- A channel gets what it would get without the others, however full those are.
get_elem?-send_all :
    (event : StorageEvent) (chs : List Channel) (i : ℕ) (ch : Channel)
    → get_elem? chs i ≡ some ch
    → get_elem? (send_all event chs) i ≡ some (send event ch)
unfolding send_all
get_elem?-send_all event [] i ch h = absurd (cc h)
get_elem?-send_all event (c ∷ chs) zero ch h =
    ap (λ o. elim o [ none ↦ none | some x ↦ some (send event x) ]) h
get_elem?-send_all event (c ∷ chs) (suc i) ch h = get_elem?-send_all event chs i ch h

get_elem?-send_events :
    (events : List StorageEvent) (chs : List Channel) (i : ℕ) (ch : Channel)
    → get_elem? chs i ≡ some ch
    → get_elem? (send_events events chs) i ≡ some (send_each events ch)
unfolding send_events send_each
get_elem?-send_events [] chs i ch h = h
get_elem?-send_events (event ∷ events) chs i ch h =
    get_elem?-send_events events (send_all event chs) i (send event ch)
      (get_elem?-send_all event chs i ch h)

length-send_all :
    (event : StorageEvent) (chs : List Channel) → length (send_all event chs) ≡ length chs
unfolding send_all
length-send_all event [] = refl
length-send_all event (ch ∷ chs) = ap suc (length-send_all event chs)

length-send_events :
    (events : List StorageEvent) (chs : List Channel) → length (send_events events chs) ≡ length chs
unfolding send_events
length-send_events [] chs = refl
length-send_events (event ∷ events) chs =
    length-send_events events (send_all event chs) ∙ length-send_all event chs

send_events-last :
    (last : StorageEvent) (es : List StorageEvent) (chs : List Channel)
    → send_events (es ++ last ∷ []) chs ≡ send_all last (send_events es chs)
unfolding send_events
send_events-last last [] chs = refl
send_events-last last (e ∷ es) chs = send_events-last last es (send_all e chs)

-- Every entry of the first map is one of the second.
abbrev Agrees : Dict Str Route → Dict Str Route → Type 0
Agrees m n = (k : Str) (r : Route) → lookup k m ≡ some r → lookup k n ≡ some r

Agrees-tail :
    (k : Str) (r : Route) (m n : Dict Str Route) → IsFresh k m → Agrees ((k, r) ∷ m) n → Agrees m n
unfolding lookup
Agrees-tail k r m n f a j q h = a j q (ground (arith, str_eq.beq_iff k j, lookup_fresh k m f, h))

Agrees-erase : (k : Str) (m n : Dict Str Route) → IsFresh k m → Agrees m n → Agrees m (erase k n)
Agrees-erase k m n f a j q h =
    lookup-erase_ne k j n (λ same. cc (lookup_fresh k m f, h, ap (λ (i : Str). lookup i m) same))
    ∙ a j q h

-- The store after one round of the loop.
abbrev deleted_route : Str → Route → MemoryStorage → MemoryStorage
deleted_route k r s = record s {
  routes = erase k s.routes;
  watchers = send_all (route_event (text "deleted") k r) s.watchers;
}

delete_listed_route_found :
    (k : Str) (r : Route) (s : MemoryStorage)
    → lookup k s.routes ≡ some r
    → delete_listed_route k s ≡ deleted_route k r s
unfolding delete_listed_route notify_watchers
delete_listed_route_found k r s h = ground (arith, h)

lookup_first : (k : Str) (r : Route) (m : Dict Str Route) → lookup k ((k, r) ∷ m) ≡ some r
unfolding lookup
lookup_first k r m = rw (beq_self k)

-- The loop over the collected ids sends the events of the cascade.
watchers-cascade :
    (id : Str) (m : Dict Str Route) (s : MemoryStorage)
    → IsDict m
    → Agrees m s.routes
    → (delete_listed_routes (keys_where (λ (r : Route). r.service_id == id) m) s).watchers
      ≡ send_events (cascade_events id m) s.watchers
unfolding delete_listed_routes keys_where cascade_events send_events
watchers-cascade id [] s d a = refl
watchers-cascade id ((k, r) ∷ m) s d a = elim (Bool-cases (r.service_id == id)) [
  | inr f ↦ rw f (watchers-cascade id m s d.1 (Agrees-tail k r m s.routes d.0 a))
  | inl t ↦ rw t (
      ap
        (λ (u : MemoryStorage).
          (delete_listed_routes (keys_where (λ (x : Route). x.service_id == id) m) u).watchers)
        (delete_listed_route_found k r s (a k r (lookup_first k r m)))
      ∙ watchers-cascade id m (deleted_route k r s) d.1
          (Agrees-erase k m s.routes d.0 (Agrees-tail k r m s.routes d.0 a)))
]

-- DeleteService sends each watcher whose buffer has room for them the deletion of every route of the
-- service and then that of the service, in this order and nothing else, whether other watchers have
-- room or not. No watcher comes or goes.
pub delete_service_events :
    (id : Str) (old : Service) (s t : MemoryStorage)
    → Routing s
    → get_service id s ≡ ok old
    → delete_service id s ≡ (ok tt, t)
    → (length t.watchers ≡ length s.watchers)
      × ((i : ℕ) (ch : Channel)
          → get_elem? s.watchers i ≡ some ch
          → HasRoom (length (cascade_events id s.routes) + 1) ch
          → get_elem? t.watchers i
            ≡ some (
                received
                  (cascade_events id s.routes ++ service_event (text "deleted") id old ∷ [])
                  ch))
unfolding delete_service get_service notify_watchers routes_to_delete
delete_service_events id old s t v there h = elim (Option-cases (lookup id s.services)) [
  | inl p ↦ absurd (ground (arith, p))
  | inr (w, p) ↦
      let es = cascade_events id s.routes in
      let last = service_event (text "deleted") id old in
      let loop : t.watchers
          ≡ send_all last (delete_listed_routes (routes_to_delete id s) s).watchers =
        ground (arith, p, there) in
      let sent : t.watchers ≡ send_events (es ++ last ∷ []) s.watchers =
        loop
        ∙ ap (send_all last) (watchers-cascade id s.routes s v.routes_distinct (λ k r q. q))
        ∙ sym (send_events-last last es s.watchers) in
      (
        ap length sent ∙ length-send_events (es ++ last ∷ []) s.watchers,
        λ i ch at_i room.
            ap (λ chs. get_elem? chs i) sent
            ∙ get_elem?-send_events (es ++ last ∷ []) s.watchers i ch at_i
            ∙ ap (λ (c : Channel). some c)
                (send_each-received (es ++ last ∷ []) ch (rw (length-append es (last ∷ [])) room)),
      )
]
