-- ===== src/Balancer/Ring/Ownership.antt =====
-- The virtual nodes of a node under Add, Remove and UpdateWeight of internal/balancer/ip_hash.go.
use discobox.Prelude.{
  Str, ℕ, zero, suc, ◌<◌, ◌≡◌, ◌≢◌, refl, sym, subst, ◌⊎◌, inl, inr, List, [], ◌∷◌, some, nat_eq,
  str_eq, arith, beq-cases,
}
use discobox.Prelude.Int.{ℤ, pos}
use discobox.Prelude.Dict.{
  Dict, lookup, insert, erase, lookup-insert_cases, lookup-erase_cases, lookup-insert_ne,
  lookup-erase_ne, lookup-insert_self,
}
use discobox.Balancer.Ring.{
  ConsistentHash, new_consistent_hash, hash, virtual_key, at_least_one, weight_in, virtual_nodes,
  rounds, put_nodes, delete_nodes, add, remove, update_weight, update_sorted_hashes,
}
use discobox.Balancer.Ring.Lookup.{IsRing}

-- One of the first n virtual nodes of a node has the hash.
abbrev pub Owns : Str → ℕ → ℕ → Type 0
Owns node n h = (i : ℕ) × (i < n) × (hash (virtual_key node i) ≡ h)

-- Every hash on the circle comes from a virtual node that its node has now.
abbrev pub IsOwned : ConsistentHash → Type 0
IsOwned ch =
    (h : ℕ) (node : Str) → lookup h ch.circle ≡ some node → Owns node (virtual_nodes node ch) h

Owns-suc : (node : Str) (n h : ℕ) → Owns node n h → Owns node (suc n) h
Owns-suc node n h (i, l, e) = (i, omega arith, e)

put_nodes-cases :
    (node : Str) (n : ℕ) (circle : Dict ℕ Str) (h : ℕ) (v : Str)
    → lookup h (put_nodes node n circle) ≡ some v
    → ((node ≡ v) × Owns node n h) ⊎ (lookup h circle ≡ some v)
unfolding put_nodes
put_nodes-cases node zero circle h v there = inr there
put_nodes-cases node (suc n) circle h v there =
    elim (lookup-insert_cases (hash (virtual_key node n)) h node v (put_nodes node n circle)
      there) [
        | inl (same, is) ↦ inl (is, (n, omega arith, same))
        | inr (other, was) ↦ elim (put_nodes-cases node n circle h v was) [
          | inl (is, own) ↦ inl (is, Owns-suc node n h own)
          | inr old ↦ inr old
        ]
      ]

pub delete_nodes-cases :
    (node : Str) (n : ℕ) (circle : Dict ℕ Str) (h : ℕ) (v : Str)
    → lookup h (delete_nodes node n circle) ≡ some v
    → ((i : ℕ) → i < n → hash (virtual_key node i) ≢ h) × (lookup h circle ≡ some v)
unfolding delete_nodes
delete_nodes-cases node zero circle h v there = ((λ i l. absurd (omega arith)), there)
delete_nodes-cases node (suc n) circle h v there =
    let (other, was) =
      lookup-erase_cases (hash (virtual_key node n)) h v (delete_nodes node n circle) there in
    let (others, old) = delete_nodes-cases node n circle h v was in
    (
      (λ i l e. elim (beq-cases i n) [
        | inl (p, b) ↦ other (subst (λ (k : ℕ). hash (virtual_key node k) ≡ h) p e)
        | inr (q, b) ↦ others i (ground (arith, q)) e
      ]),
      old,
    )

at_least_one_again : (w : ℤ) → at_least_one (pos (at_least_one w)) ≡ at_least_one w
unfolding at_least_one
at_least_one_again w = ground arith

weight_in-erase_ne :
    (node v : Str) (w : Dict Str ℤ) → node ≢ v → weight_in v (erase node w) ≡ weight_in v w
unfolding weight_in
weight_in-erase_ne node v w n = ground (arith, lookup-erase_ne node v w n)

weight_in-insert_ne :
    (node v : Str) (x : ℤ) (w : Dict Str ℤ)
    → node ≢ v
    → weight_in v (insert node x w) ≡ weight_in v w
unfolding weight_in
weight_in-insert_ne node v x w n = ground (arith, lookup-insert_ne node v x w n)

weight_in-insert_self : (node : Str) (x : ℤ) (w : Dict Str ℤ) → weight_in node (insert node x w) ≡ x
unfolding weight_in
weight_in-insert_self node x w = ground (arith, lookup-insert_self node x w)

-- On a ring that is owned, a hash that Remove's loop leaves is another node's.
delete_nodes-other :
    (node : Str) (ch : ConsistentHash)
    → IsOwned ch
    → (h : ℕ) (v : Str) → lookup h (delete_nodes node (virtual_nodes node ch) ch.circle) ≡ some v
    → (node ≢ v) × (lookup h ch.circle ≡ some v)
delete_nodes-other node ch owned h v there =
    let c = delete_nodes-cases node (virtual_nodes node ch) ch.circle h v there in
    let own = owned h v c.1 in
    (
      (λ p.
          let mine : Owns node (virtual_nodes node ch) h =
            subst (λ (x : Str). Owns x (virtual_nodes x ch) h) (sym p) own in
          c.0 mine.0 mine.1 mine.2),
      c.1,
    )

add-IsOwned : (node : Str) (ch : ConsistentHash) → IsOwned ch → IsOwned (add node ch)
unfolding add update_sorted_hashes virtual_nodes
add-IsOwned node ch owned h v there =
    elim (put_nodes-cases node (virtual_nodes node ch) ch.circle h v there) [
      | inl (is, own) ↦ subst (λ (x : Str). Owns x (virtual_nodes x ch) h) is own
      | inr old ↦ owned h v old
    ]

remove-IsOwned : (node : Str) (ch : ConsistentHash) → IsOwned ch → IsOwned (remove node ch)
unfolding remove update_sorted_hashes virtual_nodes
remove-IsOwned node ch owned h v there =
    let (other, old) = delete_nodes-other node ch owned h v there in
    rw (weight_in-erase_ne node v ch.node_weights other) (owned h v old)

update_weight-IsOwned :
    (node : Str) (weight : ℤ) (ch : ConsistentHash)
    → IsOwned ch
    → IsOwned (update_weight node weight ch)
unfolding update_weight update_sorted_hashes virtual_nodes
update_weight-IsOwned node weight ch owned h v there =
    let n = at_least_one weight in
    let left = delete_nodes node (virtual_nodes node ch) ch.circle in
    elim (put_nodes-cases node (rounds ch.replicas n) left h v there) [
      | inl (is, own) ↦
          subst
            (λ (x : Str).
              Owns x
                (rounds ch.replicas
                  (at_least_one (weight_in x (insert node (pos n) ch.node_weights))))
                h)
            is
            (rw (weight_in-insert_self node (pos n) ch.node_weights, at_least_one_again weight) own)
      | inr old ↦
          let (other, was) = delete_nodes-other node ch owned h v old in
          rw (weight_in-insert_ne node v (pos n) ch.node_weights other) (owned h v was)
    ]

-- The operations that change a ring, and a ring after a sequence of them.
pub data Change : Type 0 where
  added : Str → Change
  removed : Str → Change
  weighted : Str → ℤ → Change

unfoldable pub change : Change → ConsistentHash → ConsistentHash
change (added node) ch = add node ch
change (removed node) ch = remove node ch
change (weighted node w) ch = update_weight node w ch

unfoldable pub after : List Change → ConsistentHash → ConsistentHash
after [] ch = ch
after (c ∷ cs) ch = after cs (change c ch)

after-IsOwned : (cs : List Change) (ch : ConsistentHash) → IsOwned ch → IsOwned (after cs ch)
unfolding after change
after-IsOwned [] ch owned = owned
after-IsOwned (added node ∷ cs) ch owned =
    after-IsOwned cs (add node ch) (add-IsOwned node ch owned)
after-IsOwned (removed node ∷ cs) ch owned =
    after-IsOwned cs (remove node ch) (remove-IsOwned node ch owned)
after-IsOwned (weighted node w ∷ cs) ch owned =
    after-IsOwned cs (update_weight node w ch) (update_weight-IsOwned node w ch owned)

pub after-IsRing : (cs : List Change) (ch : ConsistentHash) → IsRing ch → IsRing (after cs ch)
unfolding after change add remove update_weight update_sorted_hashes
after-IsRing [] ch ring = ring
after-IsRing (added node ∷ cs) ch ring = after-IsRing cs (add node ch) refl
after-IsRing (removed node ∷ cs) ch ring = after-IsRing cs (remove node ch) refl
after-IsRing (weighted node w ∷ cs) ch ring = after-IsRing cs (update_weight node w ch) refl

new-IsOwned : (replicas : ℕ) → IsOwned (new_consistent_hash replicas)
unfolding lookup
new-IsOwned replicas h node there = absurd (cc there)

-- After any sequence of Add, Remove and UpdateWeight on a new ring, Remove of a node leaves no hash
-- on the circle that maps to the node, whatever weights it had.
remove_clears :
    (replicas : ℕ) (cs : List Change) (node : Str) (h : ℕ)
    → lookup h (remove node (after cs (new_consistent_hash replicas))).circle ≢ some node
unfolding remove update_sorted_hashes
remove_clears replicas cs node h there =
    let ch = after cs (new_consistent_hash replicas) in
    let owned = after-IsOwned cs (new_consistent_hash replicas) (new-IsOwned replicas) in
    (delete_nodes-other node ch owned h node there).0 refl
