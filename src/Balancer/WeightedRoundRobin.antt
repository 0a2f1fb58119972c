-- ===== src/Balancer/WeightedRoundRobin.antt =====
-- internal/balancer/weighted_round_robin.go: weightedRoundRobin. A result of `none` is a panic.
-- totalWeight is the length of the expanded list, which fits in memory: it does not overflow.
pub mod Weights
pub mod Attempts
pub mod Stale
use discobox.Prelude.{
  Str, ℕ, zero, suc, ◌+◌, Bool, not, ◌||◌, List, [], ◌∷◌, ◌++◌, Option, none, some, if◌then◌else◌,
  ◌==◌, nat_eq, str_eq, length, get_elem?, replicate,
}
use discobox.Prelude.Int.{ℤ, pos, pos_part, leb_ℤ, ltb_ℤ}
use discobox.Prelude.Dict.{Dict, lookup, insert, erase}
use discobox.Types.Server.{Server}
use discobox.Types.Errors.{
  Error, Result, ok, err, no_healthy_backends, invalid_request, invalid_weight, server_not_found,
}
use discobox.Balancer.Pool.{Address, Heap, add_uint64, index_of, is_full, add_server, set_weight}

pub record WeightedRoundRobin : Type 0 where
  pub servers : Dict Str Address
  pub weighted_servers : List Address
  pub counter : ℕ
  pub total_weight : ℕ

abbrev pub new_weighted_round_robin : WeightedRoundRobin
new_weighted_round_robin = record {
  servers = [];
  weighted_servers = [];
  counter = 0;
  total_weight = 0;
}

-- weight := server.Weight; if weight <= 0 { weight = 1 }
unfoldable pub weight_of : Server → ℕ
weight_of s = if leb_ℤ s.weight (pos 0) then 1 else pos_part s.weight

-- The loop of rebuildWeightedList.
unfoldable pub expand : Heap → List Address → List Address
expand heap [] = []
expand heap (p ∷ ps) =
    if (heap p).healthy then replicate (weight_of (heap p)) p ++ expand heap ps else expand heap ps

unfoldable pub sum_weights : Heap → List Address → ℕ
sum_weights heap [] = 0
sum_weights heap (p ∷ ps) =
    (if (heap p).healthy then weight_of (heap p) else 0) + sum_weights heap ps

unfoldable pub rebuild_weighted_list : Heap → List Address → WeightedRoundRobin → WeightedRoundRobin
rebuild_weighted_list heap servers wrr = record wrr {
  weighted_servers = expand heap servers;
  total_weight = sum_weights heap servers;
}

-- Neither `continue` of the loop is taken.
unfoldable pub is_available : Server → Bool
is_available s = not (not s.healthy || is_full s)

-- The loop of Select over the expanded list, with the counter that it leaves.
unfoldable pub attempt : Heap → List Address → ℕ → ℕ → Option (Result Address) × ℕ
attempt heap xs zero counter = (some (err no_healthy_backends), counter)
attempt heap xs (suc attempts) counter =
    let count = add_uint64 counter in
    let rest = attempt heap xs attempts count in
    elim (get_elem? xs (index_of count (length xs))) [
      | none ↦ (none, count)
      | some selected ↦ if is_available (heap selected) then (some (ok selected), count) else rest
    ]

-- The list is rebuilt only when it is empty.
unfoldable pub refreshed : Heap → List Address → WeightedRoundRobin → WeightedRoundRobin
refreshed heap servers wrr =
    if length wrr.weighted_servers == 0 then rebuild_weighted_list heap servers wrr else wrr

unfoldable pub select :
    Heap → List Address → WeightedRoundRobin → Option (Result Address) × WeightedRoundRobin
select heap servers wrr =
    if length servers == 0
    then (some (err no_healthy_backends), wrr)
    else let built = refreshed heap servers wrr in
      if length built.weighted_servers == 0
      then (some (err no_healthy_backends), built)
      else let (result, counter) =
          attempt heap built.weighted_servers (length built.weighted_servers) built.counter in
        (result, record built { counter = counter })

-- Add, Remove and UpdateWeight drop the expanded list.
unfoldable pub add :
    Heap → Option Address → WeightedRoundRobin → Result (Unit {0}) × WeightedRoundRobin
add heap o wrr =
    let (result, servers) = add_server heap o wrr.servers in
    elim result [
      | ok u ↦ (ok u, record wrr { servers = servers; weighted_servers = [] })
      | err e ↦ (err e, wrr)
    ]

unfoldable pub remove : Str → WeightedRoundRobin → WeightedRoundRobin
remove id wrr = record wrr { servers = erase id wrr.servers; weighted_servers = [] }

unfoldable pub update_weight :
    Str → ℤ → WeightedRoundRobin → Heap → Result (Unit {0}) × WeightedRoundRobin × Heap
update_weight id weight wrr heap =
    let (result, written) = set_weight id weight wrr.servers heap in
    elim result [
      | ok u ↦ (ok u, record wrr { weighted_servers = [] }, written)
      | err e ↦ (err e, wrr, written)
    ]
