-- ===== src/Middleware/Chain/Slices/Reading.antt =====
-- What slices read after an append or an allocation, for the chains of internal/middleware/chain.go.
use discobox.Prelude.{
  ℕ, ◌+◌, ◌≤◌, ◌≡◌, ◌≢◌, refl, sym, ap, ◌∙◌, subst, ◌⊎◌, inl, inr, true, List, [], ◌∷◌, ◌++◌,
  nat_eq, leb, length, take, arith, Bool-cases, beq_self, beq_of_ne, beq-cases,
}
use discobox.Middleware.Chain.Slices.{
  Array, Heap, Slice, IsSlice, read, allocate, append, store, written, take-overwrite,
  take-overwrite_before, length-overwrite,
}

module _ {A : Type 0} where
  take-length : (xs : List A) → take (length xs) xs ≡ xs
  take-length [] = refl
  take-length (x ∷ xs) = ap (λ zs. x ∷ zs) (take-length xs)

  store_self : (p : ℕ) (v : Array A) (arrays : ℕ → Array A) → store p v arrays p ≡ v
  store_self p v arrays = rw (beq_self p) refl

  store_other :
      (p q : ℕ) (v : Array A) (arrays : ℕ → Array A) → p ≢ q → store p v arrays q ≡ arrays q
  store_other p q v arrays n = rw (beq_of_ne p q n) refl

  pub read-allocate :
      (xs : List A) (capacity : ℕ) (h : Heap A)
      → read (allocate xs capacity h).0 (allocate xs capacity h).1 ≡ xs
  unfolding read allocate
  read-allocate xs capacity h =
      ap (λ (a : Array A). take (length xs) a.cells)
        (store_self h.next (record { cells = xs; capacity = capacity }) h.array)
      ∙ take-length xs

  pub read-allocate_other :
      (xs : List A) (capacity : ℕ) (h : Heap A) (d : Slice)
      → IsSlice h d
      → read (allocate xs capacity h).0 d ≡ read h d
  unfolding read allocate
  read-allocate_other xs capacity h d v =
      ap (λ (a : Array A). take d.length a.cells)
        (store_other h.next d.array (record { cells = xs; capacity = capacity }) h.array
          (λ e. omega (arith, v.0, e)))

  -- The new slice has the elements of the old one, and then the new ones.
  pub read-append :
      (grow : ℕ → ℕ) (s : Slice) (xs : List A) (h : Heap A)
      → IsSlice h s
      → read (append grow s xs h).0 (append grow s xs h).1 ≡ read h s ++ xs
  unfolding append read
  read-append grow s xs h v =
      elim (Bool-cases (leb (s.length + length xs) (h.array s.array).capacity)) [
        | inl t ↦ rw t (
            ap (λ (a : Array A). take (s.length + length xs) a.cells)
              (store_self s.array (written s xs h) h.array)
            ∙ take-overwrite s.length (s.length + length xs) xs (h.array s.array).cells v.1 refl)
        | inr f ↦ rw f (read-allocate (read h s ++ xs) (grow (s.length + length xs)) h)
      ]

  -- Another slice keeps its elements, unless it stands in the same array and reaches over the end of
  -- the slice that is appended to.
  pub read-append_other :
      (grow : ℕ → ℕ) (s d : Slice) (xs : List A) (h : Heap A)
      → IsSlice h s
      → IsSlice h d
      → (s.array ≢ d.array) ⊎ (d.length ≤ s.length)
      → read (append grow s xs h).0 d ≡ read h d
  unfolding append read
  read-append_other grow s d xs h v w apart =
      elim (Bool-cases (leb (s.length + length xs) (h.array s.array).capacity)) [
        | inl t ↦ rw t (elim (beq-cases s.array d.array) [
          | inr (n, e) ↦
              ap (λ (a : Array A). take d.length a.cells)
                (store_other s.array d.array (written s xs h) h.array n)
          | inl (p, e) ↦
              ap (λ q. take d.length (store s.array (written s xs h) h.array q).cells) (sym p)
              ∙ ap (λ (a : Array A). take d.length a.cells)
                  (store_self s.array (written s xs h) h.array)
              ∙ take-overwrite_before s.length d.length xs (h.array s.array).cells (shorter p apart)
                  v.1
              ∙ ap (λ q. take d.length (h.array q).cells) p
        ])
        | inr f ↦ rw f (read-allocate_other (read h s ++ xs) (grow (s.length + length xs)) h d w)
      ]
    where
      shorter :
          s.array ≡ d.array → (s.array ≢ d.array) ⊎ (d.length ≤ s.length) → d.length ≤ s.length
      shorter p (inl n) = absurd (n p)
      shorter p (inr l) = l

  pub allocate-IsSlice :
      (xs : List A) (capacity : ℕ) (h : Heap A)
      → IsSlice (allocate xs capacity h).0 (allocate xs capacity h).1
  unfolding allocate
  allocate-IsSlice xs capacity h = (
    omega arith,
    subst (λ (a : Array A). length xs ≤ length a.cells)
        (sym (store_self h.next (record { cells = xs; capacity = capacity }) h.array))
        (omega arith),
  )

  pub allocate-IsSlice_other :
      (xs : List A) (capacity : ℕ) (h : Heap A) (d : Slice)
      → IsSlice h d
      → IsSlice (allocate xs capacity h).0 d
  unfolding allocate
  allocate-IsSlice_other xs capacity h d w = (
    omega (arith, w.0),
    subst (λ (a : Array A). d.length ≤ length a.cells)
        (sym (
          store_other h.next d.array (record { cells = xs; capacity = capacity }) h.array
            (λ e. omega (arith, w.0, e))))
        w.1,
  )

  -- An array is new: no slice that was there stands in it.
  pub allocate-apart :
      (xs : List A) (capacity : ℕ) (h : Heap A) (d : Slice)
      → IsSlice h d
      → d.array ≢ (allocate xs capacity h).1.array
  unfolding allocate
  allocate-apart xs capacity h d w e = omega (arith, w.0, e)

  -- What append leaves of the slices that were there.
  pub append-IsSlice :
      (grow : ℕ → ℕ) (s d : Slice) (xs : List A) (h : Heap A)
      → IsSlice h s
      → IsSlice h d
      → IsSlice (append grow s xs h).0 d
  unfolding append
  append-IsSlice grow s d xs h v w =
      elim (Bool-cases (leb (s.length + length xs) (h.array s.array).capacity)) [
        | inl t ↦ rw t (w.0, kept)
        | inr f ↦ rw f (allocate-IsSlice_other (read h s ++ xs) (grow (s.length + length xs)) h d w)
      ]
    where
      kept : d.length ≤ length (store s.array (written s xs h) h.array d.array).cells
      kept = elim (beq-cases s.array d.array) [
        | inr (n, e) ↦
            subst (λ (a : Array A). d.length ≤ length a.cells)
              (sym (store_other s.array d.array (written s xs h) h.array n)) w.1
        | inl (p, e) ↦
            let within : d.length ≤ length (h.array s.array).cells =
              subst (λ q. d.length ≤ length (h.array q).cells) (sym p) w.1 in
            subst (λ q. d.length ≤ length (store s.array (written s xs h) h.array q).cells) p
              (subst (λ (a : Array A). d.length ≤ length a.cells)
                (sym (store_self s.array (written s xs h) h.array))
                (omega
                  (arith, within, (length-overwrite s.length xs (h.array s.array).cells v.1).1)))
      ]

  append-room :
      (grow : ℕ → ℕ) (s : Slice) (xs : List A) (h : Heap A)
      → s.length + length xs ≤ (h.array s.array).capacity
      → append grow s xs h ≡ (
        record h { array = store s.array (written s xs h) h.array },
        record s { length = s.length + length xs },
      )
  unfolding append
  append-room grow s xs h room = rw fits refl
    where
      fits : leb (s.length + length xs) (h.array s.array).capacity ≡ true
      fits = ground arith

  capacity-append :
      (grow : ℕ → ℕ) (s : Slice) (xs : List A) (h : Heap A)
      → s.length + length xs ≤ (h.array s.array).capacity
      → ((append grow s xs h).0.array s.array).capacity ≡ (h.array s.array).capacity
  capacity-append grow s xs h room =
      ap (λ (w : Heap A × Slice). (w.0.array s.array).capacity) (append-room grow s xs h room)
      ∙ ap (λ (a : Array A). a.capacity) (store_self s.array (written s xs h) h.array)

  -- A second append to a slice whose array has room writes over what the first one has written.
  pub append-append :
      (grow : ℕ → ℕ) (s : Slice) (xs ys : List A) (h : Heap A)
      → IsSlice h s
      → length xs ≡ length ys
      → s.length + length xs ≤ (h.array s.array).capacity
      → read (append grow s ys (append grow s xs h).0).0 (append grow s xs h).1 ≡ read h s ++ ys
  append-append grow s xs ys h v same room =
      let after = (append grow s xs h).0 in
      let one : (append grow s xs h).1 ≡ record s { length = s.length + length xs } =
        ap (λ (w : Heap A × Slice). w.1) (append-room grow s xs h room) in
      let two : (append grow s ys after).1 ≡ record s { length = s.length + length ys } =
        ap (λ (w : Heap A × Slice). w.1)
          (append-room grow s ys after
            (omega (arith, room, same, capacity-append grow s xs h room))) in
      let slices : (append grow s xs h).1 ≡ (append grow s ys after).1 =
        one ∙ ap (λ n. record s { length = s.length + n }) same ∙ sym two in
      ap (read (append grow s ys after).0) slices
      ∙ read-append grow s ys after (append-IsSlice grow s s xs h v v)
      ∙ ap (λ zs. zs ++ ys) (read-append_other grow s s xs h v v (inr (omega arith)))
