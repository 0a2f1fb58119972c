-- ===== src/Prelude/Counting.antt =====
-- How many elements of a list pass a Boolean test.
use discobox.Prelude.{
  ℕ, suc, ◌+◌, ◌<◌, ◌≤◌, ◌≡◌, refl, ◌⊎◌, inl, inr, Bool, true, false, ◌&&◌, List, [], ◌∷◌, ◌++◌,
  Option, none, some, if◌then◌else◌, arith, ltb, All, Bool-cases, any,
}

module _ {ℓ} {A : Type ℓ} where
  abbrev pub count : (A → Bool) → List A → ℕ
  count p [] = 0
  count p (x ∷ xs) = if p x then suc (count p xs) else count p xs

  -- The first element that passes.
  unfoldable pub find : (A → Bool) → List A → Option A
  find p [] = none
  find p (x ∷ xs) = if p x then some x else find p xs

  pub count-append : (p : A → Bool) (xs ys : List A) → count p (xs ++ ys) ≡ count p xs + count p ys
  count-append p [] ys = omega arith
  count-append p (x ∷ xs) ys = ground (arith, count-append p xs ys)

  pub count-congr :
      (p q : A → Bool) (xs : List A) → All (λ x. p x ≡ q x) xs → count p xs ≡ count q xs
  count-congr p q [] h = refl
  count-congr p q (x ∷ xs) h = ground (arith, h.0, count-congr p q xs h.1)

  pub count_zero : (p : A → Bool) (xs : List A) → count p xs ≡ 0 → All (λ x. p x ≡ false) xs
  count_zero p [] h = tt
  count_zero p (x ∷ xs) h = elim (Bool-cases (p x)) [
    | inl t ↦ absurd (omega (arith, rw t at h))
    | inr f ↦ (f, count_zero p xs (rw f at h))
  ]

  pub count-none : (p : A → Bool) (xs : List A) → All (λ x. p x ≡ false) xs → count p xs ≡ 0
  count-none p [] h = refl
  count-none p (x ∷ xs) h = ground (arith, h.0, count-none p xs h.1)

  -- The search finds an element exactly if some element passes.
  pub find-cases :
      (p : A → Bool) (xs : List A)
      → ((find p xs ≡ none) × (count p xs ≡ 0))
        ⊎ ((x : A) × (find p xs ≡ some x) × (0 < count p xs))
  unfolding find
  find-cases p [] = inl (refl, refl)
  find-cases p (x ∷ xs) = elim (Bool-cases (p x)) [
    | inl t ↦ rw t (inr (x, refl, omega arith))
    | inr f ↦ rw f (find-cases p xs)
  ]

  -- What it finds passes, and has what every element has.
  pub find_sound {κ} :
      (P : A → Type κ) (p : A → Bool) (xs : List A) (x : A)
      → All P xs
      → find p xs ≡ some x
      → (p x ≡ true) × P x
  unfolding find
  find_sound P p [] x h e = absurd (cc e)
  find_sound P p (y ∷ ys) x h e = elim (Bool-cases (p y)) [
    | inl t ↦ ground (arith, t, h.0)
    | inr f ↦ find_sound P p ys x h.1 (rw f at e)
  ]

  pub any-count : (p : A → Bool) (xs : List A) → any p xs ≡ ltb 0 (count p xs)
  any-count p [] = refl
  any-count p (x ∷ xs) = ground (arith, any-count p xs)

  pub count-and-le : (q p : A → Bool) (xs : List A) → count (λ x. q x && p x) xs ≤ count p xs
  count-and-le q p [] = omega arith
  count-and-le q p (x ∷ xs) = ground (arith, count-and-le q p xs)

  -- A search that succeeds in the front of a list does not go further.
  pub find-append :
      (p : A → Bool) (xs ys : List A) (x : A) → find p xs ≡ some x → find p (xs ++ ys) ≡ some x
  unfolding find
  find-append p [] ys x h = absurd (cc h)
  find-append p (z ∷ xs) ys x h = ground (arith, find-append p xs ys x)
