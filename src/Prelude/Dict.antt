-- ===== src/Prelude/Dict.antt =====
-- Go's maps as association lists. A range over a map goes through the list in its order; no
-- theorem of the library fixes that order, as Go does not. `insert` writes a present key in place.
use discobox.Prelude.{
  ◌≡◌, refl, sym, ◌≢◌, ◌∙◌, ◌⊎◌, inl, inr, Bool, List, [], ◌∷◌, Option, none, some, arith,
  if◌then◌else◌, Eq, ◌==◌, beq_self, beq_of_ne, beq-cases, is_some,
}

abbrev pub Dict : Type 0 → Type 0 → Type 0
Dict K V = List (K × V)

module _ {K V : Type 0} where
  abbrev pub keys : Dict K V → List K
  keys [] = []
  keys ((k, v) ∷ m) = k ∷ keys m

  abbrev pub values : Dict K V → List V
  values [] = []
  values ((k, v) ∷ m) = v ∷ values m

module _ {K V : Type 0} ⦃e : Eq K⦄ where
  -- v, exists := m[k]
  unfoldable pub lookup : K → Dict K V → Option V
  lookup key [] = none
  lookup key ((k, value) ∷ rest) = if k == key then some value else lookup key rest

  -- m[k] = v
  unfoldable pub insert : K → V → Dict K V → Dict K V
  insert key new [] = (key, new) ∷ []
  insert key new ((k, old) ∷ rest) =
      if k == key then (k, new) ∷ rest else (k, old) ∷ insert key new rest

  -- delete(m, k)
  unfoldable pub erase : K → Dict K V → Dict K V
  erase k [] = []
  erase k ((j, w) ∷ m) = if j == k then erase k m else (j, w) ∷ erase k m

  -- _, exists := m[k]
  abbrev pub has : K → Dict K V → Bool
  has k m = is_some (lookup k m)

  pub lookup-insert :
      (written key : K) (new : V) (m : Dict K V)
      → lookup key (insert written new m) ≡ (if written == key then some new else lookup key m)
  unfolding lookup insert
  lookup-insert written key new [] = refl
  lookup-insert written key new ((k, old) ∷ rest) = ground (
    arith,
    e.beq_iff written key,
    e.beq_iff k written,
    e.beq_iff k key,
    lookup-insert written key new rest,
  )

  pub lookup-erase :
      (k j : K) (m : Dict K V) → lookup j (erase k m) ≡ (if k == j then none else lookup j m)
  unfolding lookup erase
  lookup-erase k j [] = ground arith
  lookup-erase k j ((i, w) ∷ m) =
      ground (arith, e.beq_iff k j, e.beq_iff i k, e.beq_iff i j, lookup-erase k j m)

  pub lookup-insert_self : (k : K) (v : V) (m : Dict K V) → lookup k (insert k v m) ≡ some v
  lookup-insert_self k v m = rw (lookup-insert k k v m, beq_self k)

  pub lookup-insert_ne :
      (k j : K) (v : V) (m : Dict K V) → k ≢ j → lookup j (insert k v m) ≡ lookup j m
  lookup-insert_ne k j v m h = rw (lookup-insert k j v m, beq_of_ne k j h)

  pub lookup-erase_self : (k : K) (m : Dict K V) → lookup k (erase k m) ≡ none
  lookup-erase_self k m = rw (lookup-erase k k m, beq_self k)

  pub lookup-erase_ne : (k j : K) (m : Dict K V) → k ≢ j → lookup j (erase k m) ≡ lookup j m
  lookup-erase_ne k j m h = rw (lookup-erase k j m, beq_of_ne k j h)

  -- A lookup that hits after a write hit the written key, or another that was there before.
  pub lookup-insert_cases :
      (k j : K) (v w : V) (m : Dict K V)
      → lookup j (insert k v m) ≡ some w
      → ((k ≡ j) × (v ≡ w)) ⊎ ((k ≢ j) × (lookup j m ≡ some w))
  lookup-insert_cases k j v w m h = elim (beq-cases k j) [
    | inl (p, b) ↦ inl (p, ground (arith, lookup-insert k j v m))
    | inr (n, b) ↦ inr (n, ground (arith, lookup-insert k j v m))
  ]

  pub lookup-erase_cases :
      (k j : K) (w : V) (m : Dict K V)
      → lookup j (erase k m) ≡ some w
      → (k ≢ j) × (lookup j m ≡ some w)
  lookup-erase_cases k j w m h = elim (beq-cases k j) [
    | inl (p, b) ↦ absurd (cc (lookup-erase k j m, b, h))
    | inr (n, b) ↦ (n, ground (arith, lookup-erase k j m))
  ]

  -- A write to a missing key keeps what is there.
  pub lookup-insert_missing :
      (k j : K) (v w : V) (m : Dict K V)
      → lookup k m ≡ none
      → lookup j m ≡ some w
      → lookup j (insert k v m) ≡ some w
  lookup-insert_missing k j v w m missing there =
      lookup-insert_ne k j v m (λ q. cc (missing, there, q)) ∙ there

  -- `IsFresh k m`: no entry of `m` has the key `k`. `IsDict m`: no key stands twice.
  abbrev pub IsFresh : K → Dict K V → Type 0
  IsFresh k [] = Unit
  IsFresh k ((j, v) ∷ m) = (j ≢ k) × IsFresh k m

  abbrev pub IsDict : Dict K V → Type 0
  IsDict [] = Unit
  IsDict ((k, v) ∷ m) = IsFresh k m × IsDict m

  pub lookup_fresh : (k : K) (m : Dict K V) → IsFresh k m → lookup k m ≡ none
  unfolding lookup
  lookup_fresh k [] f = refl
  lookup_fresh k ((j, v) ∷ m) f = ground (arith, e.beq_iff j k, lookup_fresh k m f.1)

  insert-IsFresh : (k j : K) (v : V) (m : Dict K V) → j ≢ k → IsFresh k m → IsFresh k (insert j v m)
  unfolding insert
  insert-IsFresh k j v [] n f = (n, tt)
  insert-IsFresh k j v ((i, w) ∷ m) n f = ground (arith, insert-IsFresh k j v m n f.1)

  erase-IsFresh : (k j : K) (m : Dict K V) → IsFresh k m → IsFresh k (erase j m)
  unfolding erase
  erase-IsFresh k j [] f = tt
  erase-IsFresh k j ((i, w) ∷ m) f = ground (arith, erase-IsFresh k j m f.1)

  pub insert-IsDict : (k : K) (v : V) (m : Dict K V) → IsDict m → IsDict (insert k v m)
  unfolding insert
  insert-IsDict k v [] d = (tt, tt)
  insert-IsDict k v ((j, w) ∷ m) d = elim (beq-cases j k) [
    | inl (p, b) ↦ rw b d
    | inr (n, b) ↦ rw b (insert-IsFresh j k v m (λ q. n (sym q)) d.0, insert-IsDict k v m d.1)
  ]

  pub erase-IsDict : (k : K) (m : Dict K V) → IsDict m → IsDict (erase k m)
  unfolding erase
  erase-IsDict k [] d = tt
  erase-IsDict k ((j, w) ∷ m) d = ground (arith, erase-IsDict k m d.1, erase-IsFresh j k m d.0)
