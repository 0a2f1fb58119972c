-- ===== src/Balancer/Ring/Lookup.antt =====
-- Get of internal/balancer/ip_hash.go: a key belongs to the next virtual node on the ring.
use mathlib.Core.List.{Mem, mem-cons_self, mem-cons_of_mem}
use mathlib.Core.List.Perm
use native.Mathlib.Bridge.{le_prop}
use native.Mathlib.Decide.{dec_lt}
use discobox.Prelude.{
  Str, ℕ, suc, ◌<◌, ◌≤◌, ◌≡◌, refl, ap, subst, ◌⊎◌, inl, inr, true, List, [], ◌∷◌, some, ◌==◌,
  nat_eq, length, get_elem?, get_elem?-lt, get_elem?-in_range, arith, All, Bool-cases, beq_self,
}
use discobox.Prelude.Dict.{Dict, lookup, has, keys}
use discobox.Prelude.Integrity.{lookup_of_has}
use discobox.Prelude.Members.{All-of_get_elem?, All-mem, get_elem?-mem}
use discobox.Balancer.Ring.Order.{
  IsSorted, sort-IsSorted, sort-perm, get_elem?-le, Turns, search_hash-Turns,
}
use discobox.Balancer.Ring.{
  ConsistentHash, hash, sort, insert_sorted, at_least, search_hash, node_of_index, wrap_index, get,
}

-- The hashes are those of the circle, in order.
abbrev pub IsRing : ConsistentHash → Type 0
IsRing ch = ch.sorted_hashes ≡ sort (keys ch.circle)

module _ {V : Type 0} where
  length-keys : (m : Dict ℕ V) → length (keys m) ≡ length m
  length-keys [] = refl
  length-keys ((k, v) ∷ m) = ap suc (length-keys m)

  lookup-mem : (k : ℕ) (m : Dict ℕ V) {v : V} → lookup k m ≡ some v → Mem k (keys m)
  unfolding lookup
  lookup-mem k [] h = cc
  lookup-mem k ((j, w) ∷ m) h = elim (Bool-cases (j == k)) [
    | inl t ↦ subst (λ (x : ℕ). Mem x (j ∷ keys m)) ((nat_eq.beq_iff j k).0 t) mem-cons_self
    | inr f ↦ mem-cons_of_mem j (lookup-mem k m (rw f at h))
  ]

  has-cons : (k j : ℕ) (w : V) (m : Dict ℕ V) → has k m ≡ true → has k ((j, w) ∷ m) ≡ true
  unfolding lookup
  has-cons k j w m h = ground arith

  All-weaken :
      (j : ℕ) (w : V) (m : Dict ℕ V) (ks : List ℕ)
      → All (λ k. has k m ≡ true) ks
      → All (λ k. has k ((j, w) ∷ m) ≡ true) ks
  All-weaken j w m [] a = tt
  All-weaken j w m (k ∷ ks) a = (has-cons k j w m a.0, All-weaken j w m ks a.1)

  keys-has : (m : Dict ℕ V) → All (λ k. has k m ≡ true) (keys m)
  unfolding lookup
  keys-has [] = tt
  keys-has ((k, v) ∷ m) = (rw (beq_self k) refl, All-weaken k v m (keys m) (keys-has m))

length-insert_sorted : (x : ℕ) (ys : List ℕ) → length (insert_sorted x ys) ≡ suc (length ys)
unfolding insert_sorted
length-insert_sorted x [] = refl
length-insert_sorted x (y ∷ ys) = ground (arith, length-insert_sorted x ys)

length-sort : (xs : List ℕ) → length (sort xs) ≡ length xs
unfolding sort
length-sort [] = refl
length-sort (x ∷ xs) = omega (arith, length-insert_sorted x (sort xs), length-sort xs)

-- The hash that a key's search leads to: the first one at or after it, or else the first of all.
abbrev pub Next : {V : Type 0} → Dict ℕ V → ℕ → ℕ → Type 0
Next {V} circle h found =
    ((h ≤ found) × ((k : ℕ) (v : V) → lookup k circle ≡ some v → h ≤ k → found ≤ k))
    ⊎ (((k : ℕ) (v : V) → lookup k circle ≡ some v → k < h)
        × ((k : ℕ) (v : V) → lookup k circle ≡ some v → found ≤ k))

pub record Successor {V : Type 0} (circle : Dict ℕ V) (h found : ℕ) : Type 0 where
  pub next : Next circle h found

node_of_index-there :
    (ch : ConsistentHash) (i k : ℕ) (node : Str)
    → get_elem? ch.sorted_hashes i ≡ some k
    → lookup k ch.circle ≡ some node
    → node_of_index i ch ≡ some node
unfolding node_of_index
node_of_index-there ch i k node at there = ground (arith, at, there)

module _ (ch : ConsistentHash) (ring : IsRing ch) where
  hashes-IsSorted : IsSorted ch.sorted_hashes
  hashes-IsSorted = rw ring (sort-IsSorted (keys ch.circle))

  length-hashes : 0 < length ch.circle → 0 < length ch.sorted_hashes
  length-hashes n =
      let e : length ch.sorted_hashes ≡ length (sort (keys ch.circle)) = ap length ring in
      omega (arith, e, length-sort (keys ch.circle), length-keys ch.circle)

  -- What holds of every hash in the list holds of every hash on the circle.
  on_circle {κ} :
      {P : ℕ → Type κ} (pP : (k : ℕ) → IsProp (P k))
      → ((i k : ℕ) → get_elem? ch.sorted_hashes i ≡ some k → P k)
      → (k : ℕ) (v : Str) → lookup k ch.circle ≡ some v
      → P k
  on_circle pP every k v there =
      All-mem pP ch.sorted_hashes (All-of_get_elem? ch.sorted_hashes every)
        (rw ring ((Perm.mem_iff (sort-perm (keys ch.circle))).0 (lookup-mem k ch.circle there)))

  -- A hash in the list is on the circle.
  hash_on_circle :
      (i k : ℕ) → get_elem? ch.sorted_hashes i ≡ some k → (v : Str) × (lookup k ch.circle ≡ some v)
  hash_on_circle i k at = lookup_of_has k ch.circle (
      All-mem (λ j. hlevel) (keys ch.circle) (keys-has ch.circle)
        ((Perm.mem_iff (sort-perm (keys ch.circle))).1
          (get_elem?-mem (sort (keys ch.circle)) i (rw ring at at))))

  -- An index in range names a node.
  node_of_index-in_range :
      (i k : ℕ)
      → get_elem? ch.sorted_hashes i ≡ some k
      → (node : Str) × (node_of_index i ch ≡ some node) × (lookup k ch.circle ≡ some node)
  node_of_index-in_range i k at =
      let there = hash_on_circle i k at in
      (there.0, node_of_index-there ch i k there.0 at there.1, there.1)

  module _ (h r : ℕ) (t : Turns (at_least ch.sorted_hashes h) 0 (length ch.sorted_hashes) r) where
    -- The hashes before the turn are below the sought one, those from it on are not.
    before_turn : (i k : ℕ) → get_elem? ch.sorted_hashes i ≡ some k → i < r → k < h
    unfolding at_least
    before_turn i k at low = ground (arith, at, t.before i (omega arith) low)

    from_turn : (i k : ℕ) → get_elem? ch.sorted_hashes i ≡ some k → r ≤ i → h ≤ k
    unfolding at_least
    from_turn i k at high = ground (arith, at, t.after i high (get_elem?-lt ch.sorted_hashes i at))

    past_all :
        r ≡ length ch.sorted_hashes
        → (found : ℕ) → get_elem? ch.sorted_hashes 0 ≡ some found
        → Successor ch.circle h found
    past_all past found at = record {
      next = inr (
        on_circle (λ k. le_prop)
            (λ i k at_i.
              before_turn i k at_i (omega (arith, past, get_elem?-lt ch.sorted_hashes i at_i))),
        on_circle (λ k. le_prop)
            (λ i k at_i.
              get_elem?-le ch.sorted_hashes 0 i found k hashes-IsSorted (omega arith) at at_i),
      );
    }

    first_not_below :
        (found : ℕ) → get_elem? ch.sorted_hashes r ≡ some found → Successor ch.circle h found
    first_not_below found at = record {
      next = inl (
        from_turn r found at (omega arith),
        on_circle {P = λ k. h ≤ k → found ≤ k} (λ k. hlevel (le_prop))
            (λ i k at_i above. elim (dec_lt i r) [
              | yes p ↦ absurd (omega (arith, before_turn i k at_i p))
              | no q ↦
                  get_elem?-le ch.sorted_hashes r i found k hashes-IsSorted (omega arith) at at_i
            ]),
      );
    }

  -- The search's result, wrapped around, is the place of the key's successor.
  Successor-at :
      (h : ℕ)
      → 0 < length ch.circle
      → (found : ℕ) × (get_elem? ch.sorted_hashes (wrap_index (search_hash ch.sorted_hashes h) ch)
          ≡ some found)
        × Successor ch.circle h found
  unfolding wrap_index
  Successor-at h n =
      let r : ℕ = search_hash ch.sorted_hashes h in
      let t = search_hash-Turns ch.sorted_hashes h hashes-IsSorted in
      elim (Bool-cases (r == length ch.sorted_hashes)) [
        | inl past ↦
            let first = get_elem?-in_range ch.sorted_hashes 0 (length-hashes n) in
            (
              first.0,
              rw past first.1,
              past_all h r t ((nat_eq.beq_iff r (length ch.sorted_hashes)).0 past) first.0 first.1,
            )
        | inr inside ↦
            let first = get_elem?-in_range ch.sorted_hashes r (ground (arith, t.high)) in
            (first.0, rw inside first.1, first_not_below h r t first.0 first.1)
      ]

-- Get of a key on a ring that is not empty returns the node of a hash on the circle: the smallest
-- hash that is not below the key's own, or the smallest of all where every hash is below it.
pub get-Successor :
    (key : Str) (ch : ConsistentHash)
    → IsRing ch
    → 0 < length ch.circle
    → (found : ℕ) × (node : Str) × (get key ch ≡ some node)
      × (lookup found ch.circle ≡ some node)
      × Successor ch.circle (hash key) found
unfolding get
get-Successor key ch ring n =
    let s = Successor-at ch ring (hash key) n in
    let i = wrap_index (search_hash ch.sorted_hashes (hash key)) ch in
    let w = node_of_index-in_range ch ring i s.0 s.1 in (s.0, w.0, ground (arith, w.1), w.2, s.2)

-- Get never reads past the hashes.
pub get-total :
    (key : Str) (ch : ConsistentHash) → IsRing ch → (node : Str) × (get key ch ≡ some node)
unfolding get
get-total key ch ring = elim (Bool-cases (length ch.circle == 0)) [
  | inl empty ↦ ([], ground (arith, empty))
  | inr full ↦ let s = get-Successor key ch ring (ground (arith, full)) in (s.1, s.2)
]
