-- ===== src/Balancer/Ring/Order.antt =====
-- The order of the hashes on the ring, and the binary search among them.
use mathlib.Core.List.{Perm}
use mathlib.Core.List.Perm
use native.Mathlib.Decide.{dec_lt}
use discobox.Prelude.{
  ℕ, zero, suc, ◌+◌, ◌/◌, ◌<◌, ◌≤◌, ◌≡◌, inl, inr, Bool, true, false, List, [], ◌∷◌, some, leb,
  length, get_elem?, get_elem?-lt, get_elem?-in_range, arith, All, All-get_elem?, Bool-cases,
  Option-cases, leb→le, eq-false_of_ne-true,
}
use discobox.Balancer.Ring.Search.{insert_sorted, sort, at_least, search, search_hash}

abbrev pub IsSorted : List ℕ → Type 0
IsSorted [] = Unit
IsSorted (x ∷ xs) = All (λ y. x ≤ y) xs × IsSorted xs

below_trans : (x y : ℕ) (ys : List ℕ) → x ≤ y → All (λ z. y ≤ z) ys → All (λ z. x ≤ z) ys
below_trans x y [] h a = tt
below_trans x y (z ∷ zs) h a = (omega (arith, a.0), below_trans x y zs h a.1)

below-insert_sorted :
    (w x : ℕ) (ys : List ℕ) → w ≤ x → All (λ z. w ≤ z) ys → All (λ z. w ≤ z) (insert_sorted x ys)
unfolding insert_sorted
below-insert_sorted w x [] h a = (h, tt)
below-insert_sorted w x (y ∷ ys) h a = ground (arith, below-insert_sorted w x ys h a.1)

insert_sorted-IsSorted : (x : ℕ) (ys : List ℕ) → IsSorted ys → IsSorted (insert_sorted x ys)
unfolding insert_sorted
insert_sorted-IsSorted x [] s = (tt, tt)
insert_sorted-IsSorted x (y ∷ ys) s = elim (Bool-cases (leb x y)) [
  | inl t ↦ rw t ((leb→le x y t, below_trans x y ys (leb→le x y t) s.0), s)
  | inr f ↦ rw f (below-insert_sorted y x ys (ground arith) s.0, insert_sorted-IsSorted x ys s.1)
]

pub sort-IsSorted : (xs : List ℕ) → IsSorted (sort xs)
unfolding sort
sort-IsSorted [] = tt
sort-IsSorted (x ∷ xs) = insert_sorted-IsSorted x (sort xs) (sort-IsSorted xs)

insert_sorted-perm : (x : ℕ) (ys : List ℕ) → Perm (x ∷ ys) (insert_sorted x ys)
unfolding insert_sorted
insert_sorted-perm x [] = Perm.refl (x ∷ [])
insert_sorted-perm x (y ∷ ys) = elim (Bool-cases (leb x y)) [
  | inl t ↦ rw t (Perm.refl (x ∷ y ∷ ys))
  | inr f ↦ rw f (Perm.trans (Perm.swap y x ys) (Perm.cons y (insert_sorted-perm x ys)))
]

pub sort-perm : (xs : List ℕ) → Perm xs (sort xs)
unfolding sort
sort-perm [] = Perm.refl []
sort-perm (x ∷ xs) = Perm.trans (Perm.cons x (sort-perm xs)) (insert_sorted-perm x (sort xs))

-- A later place of a sorted list holds no smaller number.
pub get_elem?-le :
    (xs : List ℕ) (a b x y : ℕ)
    → IsSorted xs
    → a ≤ b
    → get_elem? xs a ≡ some x
    → get_elem? xs b ≡ some y
    → x ≤ y
get_elem?-le [] a b x y s h p q = cc
get_elem?-le (z ∷ zs) zero zero x y s h p q = ground arith
get_elem?-le (z ∷ zs) zero (suc b) x y s h p q =
    let le : z ≤ y = All-get_elem? _ zs b s.0 q in ground arith
get_elem?-le (z ∷ zs) (suc a) zero x y s h p q = absurd (omega arith)
get_elem?-le (z ∷ zs) (suc a) (suc b) x y s h p q = get_elem?-le zs a b x y s.1 (omega arith) p q

abbrev pub IsMonotone : (ℕ → Bool) → Type 0
IsMonotone f = (a b : ℕ) → a ≤ b → f a ≡ true → f b ≡ true

at_least-IsMonotone : (xs : List ℕ) (hash : ℕ) → IsSorted xs → IsMonotone (at_least xs hash)
unfolding at_least
at_least-IsMonotone xs hash s a b h t = elim (Option-cases (get_elem? xs b)) [
  | inl past ↦ ground (arith, past)
  | inr (y, q) ↦
      let (x, p) = get_elem?-in_range xs a (omega (arith, get_elem?-lt xs b q)) in
      ground (arith, q, p, get_elem?-le xs a b x y s h p q)
]

-- The place where a monotone test turns true in a stretch.
pub record Turns (f : ℕ → Bool) (i j r : ℕ) : Type 0 where
  pub low : i ≤ r
  pub high : r ≤ j
  pub before : (k : ℕ) → i ≤ k → k < r → f k ≡ false
  pub after : (k : ℕ) → r ≤ k → k < j → f k ≡ true

-- The binary search finds it, with as much fuel as the stretch is long.
search-Turns :
    (f : ℕ → Bool) (fuel i j : ℕ)
    → IsMonotone f
    → i ≤ j
    → j ≤ i + fuel
    → Turns f i j (search f fuel i j)
unfolding search
search-Turns f zero i j m h w = record {
  low = omega arith;
  high = omega arith;
  before = λ k a b. absurd (omega arith);
  after = λ k a b. absurd (omega arith);
}
search-Turns f (suc fuel) i j m h w = elim (Bool-cases (leb j i)) [
  | inl done ↦ rw done (record {
    low = omega arith;
    high = h;
    before = λ k a b. absurd (omega arith);
    after = λ k a b. absurd (omega (arith, leb→le j i done));
  })
  | inr more ↦
      let mid = (i + j) / 2 in
      let wide : i < j = ground arith in
      elim (Bool-cases (f mid)) [
        | inl t ↦
            let v = search-Turns f fuel i mid m (omega arith) (omega arith) in
            rw (more, t)
              (record {
                low = v.low;
                high = omega (arith, v.high);
                before = v.before;
                after = λ k a b. elim (dec_lt k mid) [
                  | yes p ↦ v.after k a p
                  | no q ↦ m mid k (omega arith) t
                ];
              })
        | inr n ↦
            let v = search-Turns f fuel (mid + 1) j m (omega arith) (omega arith) in
            rw (more, n)
              (record {
                low = omega (arith, v.low);
                high = v.high;
                before = λ k a b. elim (dec_lt mid k) [
                  | yes p ↦ v.before k (omega arith) b
                  | no q ↦ eq-false_of_ne-true (f k) (λ t. cc (m k mid (omega arith) t, n))
                ];
                after = v.after;
              })
      ]
]

-- The search among sorted hashes finds the first that is not below a hash.
pub search_hash-Turns :
    (xs : List ℕ) (hash : ℕ)
    → IsSorted xs
    → Turns (at_least xs hash) 0 (length xs) (search_hash xs hash)
unfolding search_hash
search_hash-Turns xs hash s =
    search-Turns (at_least xs hash) (length xs) 0 (length xs) (at_least-IsMonotone xs hash s)
      (omega arith) (omega arith)
