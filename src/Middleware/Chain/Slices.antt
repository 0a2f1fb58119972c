-- ===== src/Middleware/Chain/Slices.antt =====
-- Slices of Go, for the chains of internal/middleware/chain.go: a slice is an array and a length, and
-- append writes into the array where its capacity allows it.
pub mod Reading
use discobox.Prelude.{
  ℕ, zero, suc, ◌+◌, ◌≤◌, ◌<◌, ◌≡◌, refl, ap, List, [], ◌∷◌, ◌++◌, if◌then◌else◌, ◌==◌, nat_eq, leb,
  length, take, drop, arith, length-append,
}

-- The cells that have been written, and how many there can be.
pub record Array (A : Type 0) : Type 0 where
  pub cells : List A
  pub capacity : ℕ

pub record Heap (A : Type 0) : Type 0 where
  pub next : ℕ
  pub array : ℕ → Array A

pub record Slice : Type 0 where
  pub array : ℕ
  pub length : ℕ

module _ {A : Type 0} where
  abbrev pub store : ℕ → Array A → (ℕ → Array A) → ℕ → Array A
  store p v arrays q = if p == q then v else arrays q

  -- The cells from position `n` on become `xs`, and those after these stay.
  unfoldable pub overwrite : ℕ → List A → List A → List A
  overwrite zero xs cells = xs ++ drop (length xs) cells
  overwrite (suc n) xs [] = xs
  overwrite (suc n) xs (c ∷ cells) = c ∷ overwrite n xs cells

  unfoldable pub read : Heap A → Slice → List A
  read h s = take s.length (h.array s.array).cells

  -- A new array with these elements.
  unfoldable pub allocate : List A → ℕ → Heap A → Heap A × Slice
  allocate xs capacity h = (
    record h {
      next = suc h.next;
      array = store h.next (record { cells = xs; capacity = capacity }) h.array;
    },
    record { array = h.next; length = length xs },
  )

  -- The array of a slice with elements written after it.
  abbrev pub written : Slice → List A → Heap A → Array A
  written s xs h = record (h.array s.array) {
    cells = overwrite s.length xs (h.array s.array).cells;
  }

  -- append(s, xs...); `grow` is the capacity that a new array gets for a length.
  unfoldable pub append : (ℕ → ℕ) → Slice → List A → Heap A → Heap A × Slice
  append grow s xs h =
      let old = h.array s.array in
      let n = s.length + length xs in
      if leb n old.capacity
      then (record h { array = store s.array (written s xs h) h.array }, record s { length = n })
      else allocate (read h s ++ xs) (grow n) h

  -- The slice stands in the heap, within the cells that were written.
  abbrev pub IsSlice : Heap A → Slice → Type 0
  IsSlice h s = (s.array < h.next) × (s.length ≤ length (h.array s.array).cells)

  take_all : (xs ys : List A) (k : ℕ) → k ≡ length xs → take k (xs ++ ys) ≡ xs
  take_all [] ys zero e = refl
  take_all [] ys (suc k) e = absurd (omega (arith, e))
  take_all (x ∷ xs) ys zero e = absurd (omega (arith, e))
  take_all (x ∷ xs) ys (suc k) e = ap (λ zs. x ∷ zs) (take_all xs ys k (omega (arith, e)))

  pub take-overwrite :
      (n k : ℕ) (xs cells : List A)
      → n ≤ length cells
      → k ≡ n + length xs
      → take k (overwrite n xs cells) ≡ take n cells ++ xs
  unfolding overwrite
  take-overwrite zero k xs cells h e = take_all xs (drop (length xs) cells) k (omega (arith, e))
  take-overwrite (suc n) k xs [] h e = absurd (omega (arith, h))
  take-overwrite (suc n) zero xs (c ∷ cells) h e = absurd (omega (arith, e))
  take-overwrite (suc n) (suc k) xs (c ∷ cells) h e =
      ap (λ zs. c ∷ zs) (take-overwrite n k xs cells (omega (arith, h)) (omega (arith, e)))

  pub take-overwrite_before :
      (n k : ℕ) (xs cells : List A)
      → k ≤ n
      → n ≤ length cells
      → take k (overwrite n xs cells) ≡ take k cells
  unfolding overwrite
  take-overwrite_before n zero xs cells h l = refl
  take-overwrite_before zero (suc k) xs cells h l = absurd (omega (arith, h))
  take-overwrite_before (suc n) (suc k) xs [] h l = absurd (omega (arith, l))
  take-overwrite_before (suc n) (suc k) xs (c ∷ cells) h l =
      ap (λ zs. c ∷ zs) (take-overwrite_before n k xs cells (omega (arith, h)) (omega (arith, l)))

  length-drop : (n : ℕ) (xs : List A) → length xs ≤ n + length (drop n xs)
  length-drop zero xs = omega arith
  length-drop (suc n) [] = omega arith
  length-drop (suc n) (x ∷ xs) = omega (arith, length-drop n xs)

  pub length-overwrite :
      (n : ℕ) (xs cells : List A)
      → n ≤ length cells
      → (n + length xs ≤ length (overwrite n xs cells))
        × (length cells ≤ length (overwrite n xs cells))
  unfolding overwrite
  length-overwrite zero xs cells h = (
    omega (arith, length-append xs (drop (length xs) cells)),
    omega (arith, length-append xs (drop (length xs) cells), length-drop (length xs) cells),
  )
  length-overwrite (suc n) xs [] h = absurd (omega (arith, h))
  length-overwrite (suc n) xs (c ∷ cells) h =
      let r = length-overwrite n xs cells (omega (arith, h)) in
      (omega (arith, r.0), omega (arith, r.1))
