-- ===== src/Balancer/LeastConnections.antt =====
-- internal/balancer/least_connections.go: leastConnections. A result of `none` is a panic.
pub mod Scan
pub mod Least
use discobox.Prelude.{
  Str, ℕ, ◌-◌, ◌^◌, Bool, not, ◌&&◌, List, [], ◌∷◌, ◌++◌, Option, none, some, if◌then◌else◌, ◌==◌,
  nat_eq, str_eq, length, get_elem?,
}
use discobox.Prelude.Int.{ℤ, pos, ltb_ℤ, int_eq}
use discobox.Prelude.Dict.{Dict, erase}
use discobox.Types.Server.{Server}
use discobox.Types.Errors.{Result, ok, err, no_healthy_backends}
use discobox.Balancer.Pool.{Address, Heap, add_uint64, index_of, is_full, add_server, set_weight}

pub record LeastConnections : Type 0 where
  pub servers : Dict Str Address
  pub counter : ℕ

abbrev pub new_least_connections : LeastConnections
new_least_connections = record { servers = []; counter = 0 }

-- math.MaxInt64
abbrev pub max_int64 : ℤ
max_int64 = pos (2 ^ 63 - 1)

-- Neither `continue` of the first pass is taken.
unfoldable pub is_eligible : Server → Bool
is_eligible s = s.healthy && not (is_full s)

-- The first pass, with its two variables: minConnections and eligibleServers.
unfoldable pub scan : Heap → List Address → ℤ → List Address → List Address
scan heap [] least eligible = eligible
scan heap (p ∷ ps) least eligible =
    let active = (heap p).active_conns in
    let lower = scan heap ps active (p ∷ []) in
    let equal = scan heap ps least (eligible ++ p ∷ []) in
    let skip = scan heap ps least eligible in
    if not (is_eligible (heap p))
    then skip
    else if ltb_ℤ active least
    then lower
    else if active == least
    then equal
    else skip

-- What follows the first pass.
unfoldable pub pick : List Address → LeastConnections → Option (Result Address) × LeastConnections
pick [] lc = (some (err no_healthy_backends), lc)
pick (p ∷ []) lc = (some (ok p), lc)
pick (p ∷ q ∷ ps) lc =
    let n = length (p ∷ q ∷ ps) in
    let count = add_uint64 lc.counter in
    elim (get_elem? (p ∷ q ∷ ps) (index_of count n)) [
      | none ↦ (none, record lc { counter = count })
      | some chosen ↦ (some (ok chosen), record lc { counter = count })
    ]

unfoldable pub select :
    Heap → List Address → LeastConnections → Option (Result Address) × LeastConnections
select heap servers lc =
    if length servers == 0
    then (some (err no_healthy_backends), lc)
    else pick (scan heap servers max_int64 []) lc

pub add : Heap → Option Address → LeastConnections → Result (Unit {0}) × LeastConnections
add heap o lc =
    let (result, servers) = add_server heap o lc.servers in
    (result, record lc { servers = servers })

pub remove : Str → LeastConnections → LeastConnections
remove id lc = record lc { servers = erase id lc.servers }

pub update_weight : Str → ℤ → LeastConnections → Heap → Result (Unit {0}) × Heap
update_weight id weight lc heap = set_weight id weight lc.servers heap
