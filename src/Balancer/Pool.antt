-- ===== src/Balancer/Pool.antt =====
-- internal/balancer: what the balancers share. A *types.Server is an address; the servers stand in
-- a heap, because a balancer's map, the slices that callers pass and an expanded list of weights
-- hold the same objects and UpdateWeight writes through them.
use discobox.Prelude.{
  Str, ℕ, ◌+◌, ◌-◌, ◌%◌, ◌^◌, ◌≡◌, Bool, false, not, ◌&&◌, ◌||◌, Option, none, some, arith,
  if◌then◌else◌, ◌==◌, nat_eq, str_eq, is_empty,
}
use discobox.Prelude.Int.{ℤ, pos, ltb_ℤ, leb_ℤ, int_eq}
use discobox.Prelude.Dict.{Dict, lookup, insert, has}
use discobox.Types.Server.{Server}
use discobox.Types.Errors.{Result, ok, err, invalid_request, invalid_weight, server_not_found}

abbrev pub Address : Type 0
Address = ℕ

abbrev pub Heap : Type 0
Heap = Address → Server

-- *p = v
abbrev pub write : Address → Server → Heap → Heap
write p v heap q = if p == q then v else heap q

-- The modulus of uint64.
abbrev pub u64 : ℕ
u64 = 2 ^ 64

-- count := atomic.AddUint64(&counter, 1)
abbrev pub add_uint64 : ℕ → ℕ
add_uint64 counter = (counter + 1) % u64

-- (count - 1) % uint64(n)
abbrev pub index_of : ℕ → ℕ → ℕ
index_of count n = (count + u64 - 1) % u64 % n

-- server.MaxConns > 0 && server.ActiveConns >= int64(server.MaxConns)
unfoldable pub is_full : Server → Bool
is_full s = ltb_ℤ (pos 0) s.max_conns && leb_ℤ s.max_conns s.active_conns

-- server.MaxConns == 0 || server.ActiveConns < int64(server.MaxConns)
unfoldable pub has_capacity : Server → Bool
has_capacity s = s.max_conns == pos 0 || ltb_ℤ s.active_conns s.max_conns

-- The two tests agree unless a limit is negative.
pub has_capacity-eq-not-is_full :
    (s : Server) → ltb_ℤ s.max_conns (pos 0) ≡ false → has_capacity s ≡ not (is_full s)
unfolding has_capacity is_full
has_capacity-eq-not-is_full s h = ground arith

-- Add: `none` is a nil server.
unfoldable pub add_server :
    Heap → Option Address → Dict Str Address → Result (Unit {0}) × Dict Str Address
add_server heap none servers = (err invalid_request, servers)
add_server heap (some p) servers =
    if is_empty (heap p).id
    then (err invalid_request, servers)
    else (ok tt, insert (heap p).id p servers)

-- UpdateWeight of the balancers that only check: the round robin.
unfoldable pub check_weight : Str → ℤ → Dict Str Address → Result (Unit {0})
check_weight id weight servers =
    if ltb_ℤ weight (pos 0)
    then err invalid_weight
    else if not (has id servers)
    then err server_not_found
    else ok tt

-- UpdateWeight of the balancers that write the server's weight.
unfoldable pub set_weight : Str → ℤ → Dict Str Address → Heap → Result (Unit {0}) × Heap
set_weight id weight servers heap =
    if ltb_ℤ weight (pos 0) then (err invalid_weight, heap) else elim (lookup id servers) [
      | none ↦ (err server_not_found, heap)
      | some p ↦ (ok tt, write p (record (heap p) { weight = weight }) heap)
    ]
