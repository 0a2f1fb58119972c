-- ===== src/Balancer/Ring/Stability.antt =====
-- What Remove of internal/balancer/ip_hash.go leaves as it was: the keys of the other nodes.
use discobox.Prelude.{
  Str, ℕ, zero, suc, ◌<◌, ◌≡◌, ◌≢◌, refl, sym, ap, ◌∙◌, inl, inr, [], ◌∷◌, some, nat_eq, str_eq,
  length, arith, some-injective,
}
use discobox.Prelude.Dict.{Dict, lookup, lookup-erase_ne}
use discobox.Balancer.Ring.{
  ConsistentHash, hash, virtual_key, virtual_nodes, delete_nodes, remove, get, update_sorted_hashes,
}
use discobox.Balancer.Ring.Lookup.{IsRing, Next, Successor, get-Successor}
use discobox.Balancer.Ring.Ownership.{delete_nodes-cases}

-- The node has each of its virtual nodes: no other node has written to one of their hashes.
abbrev pub HasAll : Str → ConsistentHash → Type 0
HasAll node ch =
    (i : ℕ) → i < virtual_nodes node ch → lookup (hash (virtual_key node i)) ch.circle ≡ some node

delete_nodes-keeps :
    (node : Str) (n : ℕ) (circle : Dict ℕ Str) (h : ℕ)
    → ((i : ℕ) → i < n → hash (virtual_key node i) ≢ h)
    → lookup h (delete_nodes node n circle) ≡ lookup h circle
unfolding delete_nodes
delete_nodes-keeps node zero circle h other = refl
delete_nodes-keeps node (suc n) circle h other =
    lookup-erase_ne (hash (virtual_key node n)) h (delete_nodes node n circle)
      (other n (omega arith))
    ∙ delete_nodes-keeps node n circle h (λ i l. other i (omega arith))

-- A hash has one successor on a circle.
Successor-unique :
    (circle : Dict ℕ Str) (h a b : ℕ) (v w : Str)
    → lookup a circle ≡ some v
    → lookup b circle ≡ some w
    → Successor circle h a
    → Successor circle h b
    → a ≡ b
Successor-unique circle h a b v w at_a at_b s t = go s.next t.next
  where
    go : Next circle h a → Next circle h b → a ≡ b
    go (inl p) (inl q) = omega (arith, p.1 b w at_b q.0, q.1 a v at_a p.0)
    go (inl p) (inr q) = absurd (omega (arith, p.0, q.0 a v at_a))
    go (inr p) (inl q) = absurd (omega (arith, q.0, p.0 b w at_b))
    go (inr p) (inr q) = omega (arith, p.1 b w at_b, q.1 a v at_a)

lookup-length : (k : ℕ) (m : Dict ℕ Str) {v : Str} → lookup k m ≡ some v → 0 < length m
unfolding lookup
lookup-length k [] h = absurd (cc h)
lookup-length k ((j, w) ∷ m) h = omega arith

-- A successor on a circle is one on any smaller circle that still has it.
Successor-smaller :
    (large small : Dict ℕ Str) (h found : ℕ)
    → ((k : ℕ) (u : Str) → lookup k small ≡ some u → lookup k large ≡ some u)
    → Successor large h found
    → Successor small h found
Successor-smaller large small h found sub s = record { next = go s.next }
  where
    go : Next large h found → Next small h found
    go (inl p) = inl (p.0, λ k u there above. p.1 k u (sub k u there) above)
    go (inr p) = inr ((λ k u there. p.0 k u (sub k u there)), λ k u there. p.1 k u (sub k u there))

remove-IsRing : (node : Str) (ch : ConsistentHash) → IsRing (remove node ch)
unfolding remove update_sorted_hashes
remove-IsRing node ch = refl

circle-remove :
    (node : Str) (ch : ConsistentHash)
    → (remove node ch).circle ≡ delete_nodes node (virtual_nodes node ch) ch.circle
unfolding remove update_sorted_hashes
circle-remove node ch = refl

module _ (node : Str) (ch : ConsistentHash) (all : HasAll node ch) where
  removed_sub :
      (k : ℕ) (u : Str) → lookup k (remove node ch).circle ≡ some u → lookup k ch.circle ≡ some u
  removed_sub k u there =
      let h : lookup k (delete_nodes node (virtual_nodes node ch) ch.circle) ≡ some u =
        sym (ap (lookup k) (circle-remove node ch)) ∙ there in
      (delete_nodes-cases node (virtual_nodes node ch) ch.circle k u h).1

  kept :
      (k : ℕ) (other : Str)
      → other ≢ node
      → lookup k ch.circle ≡ some other
      → lookup k (remove node ch).circle ≡ some other
  kept k other different there =
      ap (lookup k) (circle-remove node ch)
      ∙ delete_nodes-keeps node (virtual_nodes node ch) ch.circle k (λ i l same.
        different
          (some-injective (sym there ∙ sym (ap (λ (x : ℕ). lookup x ch.circle) same) ∙ all i l)))
      ∙ there

-- Remove of a node leaves every other node's keys where they were: a key that Get took to another
-- node goes to that node still. The node must have all of its virtual nodes, none of them
-- overwritten by another node with the same hash, and the ring is not empty.
pub remove_stable :
    (key node other : Str) (ch : ConsistentHash)
    → IsRing ch
    → 0 < length ch.circle
    → HasAll node ch
    → other ≢ node
    → get key ch ≡ some other
    → get key (remove node ch) ≡ some other
remove_stable key node other ch ring n all different h =
    let s = get-Successor key ch ring n in
    let found = s.0 in
    let is_other : s.1 ≡ other = some-injective (sym s.2 ∙ h) in
    let at : lookup found ch.circle ≡ some other = s.3 ∙ ap (λ (x : Str). some x) is_other in
    let still = kept node ch all found other different at in
    let t =
      get-Successor key (remove node ch) (remove-IsRing node ch)
        (lookup-length found (remove node ch).circle still) in
    let smaller =
      Successor-smaller ch.circle (remove node ch).circle (hash key) found (removed_sub node ch all)
        s.4 in
    let same =
      Successor-unique (remove node ch).circle (hash key) found t.0 other t.1 still t.3 smaller
        t.4 in
    t.2 ∙ sym (t.3) ∙ sym (ap (λ (x : ℕ). lookup x (remove node ch).circle) same) ∙ still
