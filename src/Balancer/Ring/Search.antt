-- ===== src/Balancer/Ring/Search.antt =====
-- sort.Slice on hashes, and sort.Search with the test `hashes[i] >= hash`.
use discobox.Prelude.{
  ℕ, zero, suc, ◌+◌, ◌/◌, Bool, true, List, [], ◌∷◌, none, some, if◌then◌else◌, leb, length,
  get_elem?,
}

unfoldable pub insert_sorted : ℕ → List ℕ → List ℕ
insert_sorted x [] = x ∷ []
insert_sorted x (y ∷ ys) = if leb x y then x ∷ y ∷ ys else y ∷ insert_sorted x ys

-- The ascending order of the hashes, which are distinct: every sort gives this list.
unfoldable pub sort : List ℕ → List ℕ
sort [] = []
sort (x ∷ xs) = insert_sorted x (sort xs)

-- hashes[i] >= hash. The search does not ask past the end.
unfoldable pub at_least : List ℕ → ℕ → ℕ → Bool
at_least hashes hash i = elim (get_elem? hashes i) [ none ↦ true | some h ↦ leb hash h ]

-- for i < j { h := (i + j) / 2; if !f(h) { i = h + 1 } else { j = h } }
unfoldable pub search : (ℕ → Bool) → ℕ → ℕ → ℕ → ℕ
search f zero i j = i
search f (suc fuel) i j =
    let h = (i + j) / 2 in
    let right = search f fuel (h + 1) j in
    let left = search f fuel i h in if leb j i then i else if f h then left else right

-- As much fuel as there are hashes: every round leaves a shorter stretch.
unfoldable pub search_hash : List ℕ → ℕ → ℕ
search_hash hashes hash = search (at_least hashes hash) (length hashes) 0 (length hashes)
