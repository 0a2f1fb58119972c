-- ===== src/Prelude/Members.antt =====
-- Membership in lists that are filtered by a Boolean test or read by position.
use mathlib.Core.List.{Mem, Mem-prop, mem-cons, mem-cons_self, mem-cons_of_mem, not-mem-nil}
use mathlib.Core.Logic.Or
use discobox.Prelude.{
  ℕ, zero, suc, ◌≡◌, refl, sym, subst, inl, inr, Bool, true, false, List, [], ◌∷◌, some, arith,
  get_elem?, keep, All, Bool-cases, some-injective,
}

module _ {ℓ} {A : Type ℓ} where
  pub get_elem?-mem : (xs : List A) (i : ℕ) {a : A} → get_elem? xs i ≡ some a → Mem a xs
  get_elem?-mem [] i h = cc
  get_elem?-mem (x ∷ xs) zero h = subst (λ (b : A). Mem b (x ∷ xs)) (some-injective h) mem-cons_self
  get_elem?-mem (x ∷ xs) (suc i) h = mem-cons_of_mem x (get_elem?-mem xs i h)

  pub mem_of_mem-keep : (p : A → Bool) (xs : List A) {a : A} → Mem a (keep p xs) → Mem a xs
  mem_of_mem-keep p [] m = m
  mem_of_mem-keep p (x ∷ xs) m = elim (Bool-cases (p x)) [
    | inl t ↦
        Or.elim Mem-prop (mem-cons.0 (rw t at m)) (λ e. mem-cons.1 (Or.inl e))
          (λ r. mem-cons_of_mem x (mem_of_mem-keep p xs r))
    | inr f ↦ mem-cons_of_mem x (mem_of_mem-keep p xs (rw f at m))
  ]

  -- What holds at every position holds of every member.
  pub All-of_get_elem? {κ} :
      {P : A → Type κ} (xs : List A) → ((i : ℕ) (a : A) → get_elem? xs i ≡ some a → P a) → All P xs
  All-of_get_elem? [] h = tt
  All-of_get_elem? (x ∷ xs) h = (h 0 x refl, All-of_get_elem? xs (λ i a e. h (suc i) a e))

  pub All-mem {κ} :
      {P : A → Type κ} (pP : (a : A) → IsProp (P a)) (xs : List A) {a : A}
      → All P xs
      → Mem a xs
      → P a
  All-mem pP [] h m = absurd (not-mem-nil m)
  All-mem {P} pP (x ∷ xs) h m =
      Or.elim (pP _) (mem-cons.0 m) (λ e. subst P (sym e) h.0) (λ r. All-mem pP xs h.1 r)

  pub mem_of_All {κ} : {P : A → Type κ} (xs : List A) → ((a : A) → Mem a xs → P a) → All P xs
  mem_of_All [] h = tt
  mem_of_All (x ∷ xs) h = (h x mem-cons_self, mem_of_All xs (λ a m. h a (mem-cons_of_mem x m)))

  -- The kept elements pass the test, and are of the list.
  pub keep-All : (p : A → Bool) (xs : List A) → All (λ a. p a ≡ true) (keep p xs)
  keep-All p [] = tt
  keep-All p (x ∷ xs) = ground (arith, keep-All p xs)

  -- What holds of the kept elements holds of all that pass.
  pub All-of_keep {κ} :
      (P : A → Type κ) (p : A → Bool) (xs : List A)
      → All P (keep p xs)
      → All (λ a. p a ≡ true → P a) xs
  All-of_keep P p [] h = tt
  All-of_keep P p (x ∷ xs) h = elim (Bool-cases (p x)) [
    | inl t ↦ let g = rw t at h in (λ _. g.0, All-of_keep P p xs g.1)
    | inr f ↦ (λ t. cc (t, f), All-of_keep P p xs (rw f at h))
  ]

  pub All-keep {κ} : (P : A → Type κ) (p : A → Bool) (xs : List A) → All P xs → All P (keep p xs)
  All-keep P p [] h = tt
  All-keep P p (x ∷ xs) h = ground (arith, All-keep P p xs h.1)

  pub keep_empty : (p : A → Bool) (xs : List A) → keep p xs ≡ [] → All (λ a. p a ≡ false) xs
  keep_empty p [] h = tt
  keep_empty p (x ∷ xs) h = elim (Bool-cases (p x)) [
    | inl t ↦ absurd (cc (rw t at h))
    | inr f ↦ (f, keep_empty p xs (rw f at h))
  ]

  pub All-zip {κ μ ν} :
      {P : A → Type κ} {Q : A → Type μ} {R : A → Type ν} (f : (a : A) → P a → Q a → R a)
      (xs : List A)
      → All P xs
      → All Q xs
      → All R xs
  All-zip f [] h k = tt
  All-zip f (x ∷ xs) h k = (f x h.0 k.0, All-zip f xs h.1 k.1)

  pub All-always {κ} : (P : A → Type κ) → ((a : A) → P a) → (xs : List A) → All P xs
  All-always P f [] = tt
  All-always P f (x ∷ xs) = (f x, All-always P f xs)

  pub All-map {κ μ} :
      {P : A → Type κ} {Q : A → Type μ} (f : (a : A) → P a → Q a) (xs : List A)
      → All P xs
      → All Q xs
  All-map f [] h = tt
  All-map f (x ∷ xs) h = (f x h.0, All-map f xs h.1)
