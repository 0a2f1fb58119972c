-- ===== src/Balancer/IpHash/Reachable.antt =====
-- ipHash of internal/balancer/ip_hash.go under any sequence of its operations.
use discobox.Prelude.{
  Str, ◌≡◌, refl, sym, subst, ◌⊎◌, inl, inr, List, [], ◌∷◌, Option, none, some, nat_eq, str_eq,
  is_empty, arith, length, Bool-cases, Option-cases,
}
use discobox.Prelude.Dict.{lookup}
use discobox.Prelude.Int.{ℤ}
use discobox.Balancer.Pool.{Address, Heap}
use discobox.Balancer.Ring.{
  get, get_n, sort, update_sorted_hashes, add as add_node, remove as remove_node,
  update_weight as update_node,
}
use discobox.Balancer.Ring.Lookup.{IsRing}
use discobox.Balancer.IpHash.{
  IpHash, new_ip_hash, add, remove, update_weight, select_for, take_node, take_next,
  select_next_available, fall_back,
}
use discobox.Balancer.IpHash.Sound.{Sound, select_for-Sound}

-- The operations of the balancer, with the client's address in place of its request.
pub data Operation : Type 0 where
  adds : Option Address → Operation
  removes : Str → Operation
  weighs : Str → ℤ → Operation
  selects : List Address → Str → Operation

unfoldable pub perform : Operation → IpHash × Heap → IpHash × Heap
perform (adds o) (ih, heap) = ((add heap o ih).1, heap)
perform (removes id) (ih, heap) = (remove id ih, heap)
perform (weighs id weight) (ih, heap) = update_weight id weight ih heap
perform (selects servers client_ip) (ih, heap) = ((select_for heap servers client_ip ih).1, heap)

-- Between two operations, the servers' connections and health may have changed in any way.
unfoldable pub perform_all : List (Heap × Operation) → IpHash → IpHash
perform_all [] ih = ih
perform_all ((heap, op) ∷ ops) ih = perform_all ops (perform op (ih, heap)).0

-- Select leaves the ring alone.
take_next-ring :
    (heap : Heap) (servers : List Address) (o : Option (List Str)) (ih : IpHash)
    → (take_next heap servers o ih).1.ring ≡ ih.ring
unfolding take_next fall_back
take_next-ring heap servers none ih = refl
take_next-ring heap servers (some ids) ih = ground arith

take_node-ring :
    (heap : Heap) (servers : List Address) (key : Str) (o : Option Str) (ih : IpHash)
    → (take_node heap servers key o ih).1.ring ≡ ih.ring
unfolding take_node select_next_available
take_node-ring heap servers key none ih = refl
take_node-ring heap servers key (some id) ih =
    ground (arith, take_next-ring heap servers (get_n key (length servers) ih.ring) ih)

select_for-ring :
    (heap : Heap) (servers : List Address) (client_ip : Str) (ih : IpHash)
    → (select_for heap servers client_ip ih).1.ring ≡ ih.ring
unfolding select_for fall_back
select_for-ring heap servers client_ip ih =
    ground (arith, take_node-ring heap servers client_ip (get client_ip ih.ring) ih)

update_weight-ring :
    (id : Str) (weight : ℤ) (ih : IpHash) (heap : Heap)
    → ((update_weight id weight ih heap).0.ring ≡ ih.ring)
      ⊎ ((update_weight id weight ih heap).0.ring ≡ update_node id weight ih.ring)
unfolding update_weight
update_weight-ring id weight ih heap = elim (Option-cases (lookup id ih.servers)) [
  | inl missing ↦ inl (ground (arith, missing))
  | inr (p, there) ↦ inr (ground (arith, there))
]

perform-IsRing :
    (op : Operation) (ih : IpHash) (heap : Heap)
    → IsRing ih.ring
    → IsRing (perform op (ih, heap)).0.ring
unfolding perform add remove update_weight add_node remove_node update_node update_sorted_hashes
perform-IsRing (adds none) ih heap ring = ring
perform-IsRing (adds (some p)) ih heap ring = elim (Bool-cases (is_empty (heap p).id)) [
  | inl t ↦ rw t ring
  | inr f ↦ rw f refl
]
perform-IsRing (removes id) ih heap ring = refl
perform-IsRing (weighs id weight) ih heap ring = elim (update_weight-ring id weight ih heap) [
  | inl same ↦ subst IsRing (sym same) ring
  | inr new ↦ subst IsRing (sym new) refl
]
perform-IsRing (selects servers client_ip) ih heap ring =
    subst IsRing (sym (select_for-ring heap servers client_ip ih)) ring

perform_all-IsRing :
    (ops : List (Heap × Operation)) (ih : IpHash)
    → IsRing ih.ring
    → IsRing (perform_all ops ih).ring
unfolding perform_all
perform_all-IsRing [] ih ring = ring
perform_all-IsRing ((heap, op) ∷ ops) ih ring =
    perform_all-IsRing ops (perform op (ih, heap)).0 (perform-IsRing op ih heap ring)

new_ip_hash-IsRing : IsRing new_ip_hash.ring
unfolding sort
new_ip_hash-IsRing = refl

-- After any sequence of Add, Remove, UpdateWeight and Select on a new balancer, between which the
-- servers may change in any way, Select for any address does not panic, and a server that it
-- returns is of the slice, healthy and not at its limit.
pub perform_all-Sound :
    (ops : List (Heap × Operation)) (heap : Heap) (servers : List Address) (client_ip : Str)
    → Sound heap servers (select_for heap servers client_ip (perform_all ops new_ip_hash)).0
perform_all-Sound ops heap servers client_ip =
    select_for-Sound heap servers client_ip (perform_all ops new_ip_hash)
      (perform_all-IsRing ops new_ip_hash new_ip_hash-IsRing)
