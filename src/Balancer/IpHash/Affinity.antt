-- ===== src/Balancer/IpHash/Affinity.antt =====
-- Select of internal/balancer/ip_hash.go sends a client to its node of the ring.
use mathlib.Core.List.{Mem, not-mem-nil}
use discobox.Prelude.{
  Str, ◌≡◌, ap, ◌∙◌, inl, inr, true, false, List, [], ◌∷◌, some, ◌==◌, nat_eq, str_eq, arith,
  length, All, is_empty,
}
use discobox.Prelude.Counting.{find, find-cases, find_sound, count_zero}
use discobox.Prelude.Members.{All-mem}
use discobox.Types.Errors.{ok}
use discobox.Balancer.Pool.{Address, Heap}
use discobox.Balancer.Ring.{get}
use discobox.Balancer.RoundRobin.Selection.{IsUsable}
use discobox.Balancer.IpHash.{IpHash, is_node, take_node, select_for}

-- No other server of the slice has the ID of this one.
abbrev pub IsOnly : Heap → Address → List Address → Type 0
IsOnly heap p servers = All (λ q. (heap q).id ≡ (heap p).id → q ≡ p) servers

module _ (heap : Heap) (servers : List Address) (p : Address) where
  found_node :
      Mem p servers
      → IsOnly heap p servers
      → (heap p).healthy ≡ true
      → find (is_node heap (heap p).id) servers ≡ some p
  found_node there only up =
      let test = is_node heap (heap p).id in
      let passes : test p ≡ true = ground (arith, up, str_eq.beq_iff (heap p).id (heap p).id) in
      elim (find-cases test servers) [
        | inl (miss, nothing) ↦
            let out = All-mem (λ q. hlevel) servers (count_zero test servers nothing) there in
            absurd (cc (passes, out))
        | inr (q, hit, some_) ↦
            let f = find_sound _ test servers q only hit in
            hit
            ∙ ap (λ (x : Address). some x)
                (f.1 (ground (arith, f.0, str_eq.beq_iff (heap q).id (heap p).id)))
      ]

  length_of_mem : (xs : List Address) → Mem p xs → (length xs == 0) ≡ false
  length_of_mem [] m = absurd (not-mem-nil m)
  length_of_mem (x ∷ xs) m = ground arith

-- A client whose address the ring maps to a server of the slice is sent to it whenever it is healthy
-- and not at its limit, however the fallback's counter stands, and the balancer's state does not
-- change. No other server of the slice may have its ID.
pub select_for_affine :
    (heap : Heap) (servers : List Address) (client_ip : Str) (p : Address) (ih : IpHash)
    → is_empty client_ip ≡ false
    → get client_ip ih.ring ≡ some (heap p).id
    → Mem p servers
    → IsOnly heap p servers
    → IsUsable heap p
    → select_for heap servers client_ip ih ≡ (some (ok p), ih)
unfolding select_for take_node
select_for_affine heap servers client_ip p ih known node there only fit = ground (
  arith,
  known,
  node,
  length_of_mem heap servers p servers there,
  found_node heap servers p there only fit.up,
  fit.room,
)
