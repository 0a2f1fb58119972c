-- ===== src/Balancer/SmoothWeighted.antt =====
-- internal/balancer/weighted_round_robin.go: smoothWeightedRoundRobin.
pub mod Highest
mod Tests
use discobox.Prelude.{
  Str, ℕ, Bool, true, false, not, ◌&&◌, ◌||◌, List, [], ◌∷◌, Option, none, some, if◌then◌else◌,
  ◌==◌, str_eq, nat_eq, is_empty, length, any,
}
use discobox.Prelude.Int.{ℤ, pos, ltb_ℤ, leb_ℤ, ◌+ℤ◌, ◌-ℤ◌, wrap64}
use discobox.Prelude.Dict.{Dict, lookup, insert, erase}
use discobox.Types.Server.{Server}
use discobox.Types.Errors.{
  Result, ok, err, no_healthy_backends, invalid_request, invalid_weight, server_not_found,
}
use discobox.Balancer.Pool.{Address, Heap, write, is_full}

pub record WeightedServer : Type 0 where
  pub server : Address
  pub current_weight : ℤ
  pub effective_weight : ℤ

pub record SmoothWeighted : Type 0 where
  pub servers : Dict Str WeightedServer

abbrev pub new_smooth_weighted_round_robin : SmoothWeighted
new_smooth_weighted_round_robin = record { servers = [] }

-- A weight that is not positive stands for 1.
abbrev pub at_least_one : ℤ → ℤ
at_least_one weight = if leb_ℤ weight (pos 0) then pos 1 else weight

abbrev pub new_weighted : Heap → Address → WeightedServer
new_weighted heap p = record {
  server = p;
  current_weight = pos 0;
  effective_weight = at_least_one (heap p).weight;
}

-- _, exists := serverMap[id]
abbrev pub is_given : Heap → List Address → Str → Bool
is_given heap servers id = any (λ p. (heap p).id == id) servers

-- The loop that deletes what is not in the slice any more, over the entries left to visit.
unfoldable pub drop_missing :
    Heap
    → List Address
    → Dict Str WeightedServer
    → Dict Str WeightedServer
    → Dict Str WeightedServer
drop_missing heap servers [] m = m
drop_missing heap servers ((id, ws) ∷ entries) m =
    drop_missing heap servers entries (if is_given heap servers id then m else erase id m)

-- An entry of the map, brought up to date with the server of the slice.
abbrev pub refreshed : Heap → Address → Option WeightedServer → WeightedServer
refreshed heap p none = new_weighted heap p
refreshed heap p (some ws) = record ws {
  server = p;
  effective_weight = if ltb_ℤ (pos 0) (heap p).weight then (heap p).weight else ws.effective_weight;
}

unfoldable pub refresh_all : Heap → List Address → Dict Str WeightedServer → Dict Str WeightedServer
refresh_all heap [] m = m
refresh_all heap (p ∷ ps) m =
    refresh_all heap ps (insert (heap p).id (refreshed heap p (lookup (heap p).id m)) m)

unfoldable pub update_servers :
    Heap → List Address → Dict Str WeightedServer → Dict Str WeightedServer
update_servers heap servers m = refresh_all heap servers (drop_missing heap servers m m)

-- The tests that the loop of Select skips a server by.
abbrev pub is_usable : Heap → WeightedServer → Bool
is_usable heap ws = (heap ws.server).healthy && not (is_full (heap ws.server))

-- ws.currentWeight += ws.effectiveWeight
abbrev pub raised : WeightedServer → WeightedServer
raised ws = record ws { current_weight = wrap64 (ws.current_weight +ℤ ws.effective_weight) }

-- The loop of Select, one variable at a time: the weights, their total, and the selected server.
unfoldable pub raise_all : Heap → Dict Str WeightedServer → Dict Str WeightedServer
raise_all heap [] = []
raise_all heap ((id, ws) ∷ entries) =
    (id, if is_usable heap ws then raised ws else ws) ∷ raise_all heap entries

unfoldable pub total_weight : Heap → Dict Str WeightedServer → ℤ → ℤ
total_weight heap [] total = total
total_weight heap ((id, ws) ∷ entries) total =
    total_weight heap entries
      (if is_usable heap ws then wrap64 (total +ℤ ws.effective_weight) else total)

-- selected == nil || ws.currentWeight > selected.currentWeight
abbrev pub is_higher : WeightedServer → Option (Str × WeightedServer) → Bool
is_higher ws none = true
is_higher ws (some best) = ltb_ℤ best.1.current_weight ws.current_weight

unfoldable pub highest :
    Heap → Dict Str WeightedServer → Option (Str × WeightedServer) → Option (Str × WeightedServer)
highest heap [] selected = selected
highest heap ((id, ws) ∷ entries) selected =
    highest heap entries (
      if is_usable heap ws && is_higher (raised ws) selected
      then some (id, raised ws)
      else selected)

-- selected.currentWeight -= totalWeight
unfoldable pub settle :
    ℤ → Option (Str × WeightedServer) → Dict Str WeightedServer → Result Address × SmoothWeighted
settle total none m = (err no_healthy_backends, record { servers = m })
settle total (some selected) m =
    let ws = record selected.1 { current_weight = wrap64 (selected.1.current_weight -ℤ total) } in
    (ok selected.1.server, record { servers = insert selected.0 ws m })

unfoldable pub select : Heap → List Address → SmoothWeighted → Result Address × SmoothWeighted
select heap servers swrr =
    let m = update_servers heap servers swrr.servers in
    if length servers == 0
    then (err no_healthy_backends, swrr)
    else settle (total_weight heap m (pos 0)) (highest heap m none) (raise_all heap m)

unfoldable pub add : Heap → Option Address → SmoothWeighted → Result (Unit {0}) × SmoothWeighted
add heap none swrr = (err invalid_request, swrr)
add heap (some p) swrr =
    if is_empty (heap p).id
    then (err invalid_request, swrr)
    else (ok tt, record swrr { servers = insert (heap p).id (new_weighted heap p) swrr.servers })

unfoldable pub remove : Str → SmoothWeighted → SmoothWeighted
remove id swrr = record swrr { servers = erase id swrr.servers }

unfoldable pub update_weight :
    Str → ℤ → SmoothWeighted → Heap → Result (Unit {0}) × SmoothWeighted × Heap
update_weight id weight swrr heap =
    if ltb_ℤ weight (pos 0)
    then (err invalid_weight, swrr, heap)
    else elim (lookup id swrr.servers) [
      | none ↦ (err server_not_found, swrr, heap)
      | some ws ↦ (
        ok tt,
        record swrr {
          servers = insert id (record ws { effective_weight = at_least_one weight }) swrr.servers;
        },
        write ws.server (record (heap ws.server) { weight = at_least_one weight }) heap,
      )
    ]
