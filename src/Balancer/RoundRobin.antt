-- ===== src/Balancer/RoundRobin.antt =====
-- internal/balancer/round_robin.go. A result of `none` is a panic, an index out of range.
pub mod Selection
pub mod Refusal
pub mod Rotation
use discobox.Prelude.{
  Str, ℕ, zero, suc, ◌+◌, ◌-◌, ◌%◌, Bool, not, List, [], ◌∷◌, Option, none, some, if◌then◌else◌,
  ◌==◌, nat_eq, str_eq, length, keep, get_elem?,
}
use discobox.Prelude.Int.{ℤ}
use discobox.Prelude.Dict.{Dict, erase}
use discobox.Types.Errors.{Result, ok, err, no_healthy_backends, max_connections_reached}
use discobox.Balancer.Pool.{
  Address, Heap, u64, add_uint64, index_of, is_full, has_capacity, add_server, check_weight,
}

pub record RoundRobin : Type 0 where
  pub counter : ℕ
  pub servers : Dict Str Address

abbrev pub new_round_robin : RoundRobin
new_round_robin = record { counter = 0; servers = [] }

-- The first loop of Select.
unfoldable pub healthy_servers : Heap → List Address → List Address
healthy_servers heap = keep (λ p. (heap p).healthy)

-- The loop that tries the next servers, from i, for `rounds` more rounds.
unfoldable pub try_next : Heap → List Address → ℕ → ℕ → ℕ → Option (Result Address)
try_next heap healthy index i zero = some (err max_connections_reached)
try_next heap healthy index i (suc rounds) =
    let rest = try_next heap healthy index (i + 1) rounds in
    elim (get_elem? healthy ((index + i) % u64 % length healthy)) [
      | none ↦ none
      | some next ↦ if has_capacity (heap next) then some (ok next) else rest
    ]

-- The choice among the healthy servers, at an index.
unfoldable pub choose : Heap → List Address → ℕ → Option (Result Address)
choose heap healthy index = elim (get_elem? healthy index) [
  | none ↦ none
  | some selected ↦
      if is_full (heap selected)
      then try_next heap healthy index 1 (length healthy - 1)
      else some (ok selected)
]

unfoldable pub select : Heap → List Address → RoundRobin → Option (Result Address) × RoundRobin
select heap servers rr =
    if length servers == 0
    then (some (err no_healthy_backends), rr)
    else let healthy = healthy_servers heap servers in
      if length healthy == 0
      then (some (err no_healthy_backends), rr)
      else let count = add_uint64 rr.counter in
        (choose heap healthy (index_of count (length healthy)), record rr { counter = count })

pub add : Heap → Option Address → RoundRobin → Result (Unit {0}) × RoundRobin
add heap o rr =
    let (result, servers) = add_server heap o rr.servers in
    (result, record rr { servers = servers })

pub remove : Str → RoundRobin → RoundRobin
remove id rr = record rr { servers = erase id rr.servers }

pub update_weight : Str → ℤ → RoundRobin → Result (Unit {0})
update_weight id weight rr = check_weight id weight rr.servers
