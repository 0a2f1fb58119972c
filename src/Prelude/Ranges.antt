-- ===== src/Prelude/Ranges.antt =====
-- Loops that range over a map: collecting keys, and deleting entries as they go.
use discobox.Prelude.{
  Bool, false, ◌≡◌, refl, sym, List, [], ◌∷◌, Option, none, some, arith, if◌then◌else◌, Eq, ◌==◌,
  beq-cases, inl, inr, ◌||◌, Bool-cases, if-cases, Option-cases,
}
use discobox.Prelude.Dict.{Dict, lookup, erase, lookup-erase, IsFresh, IsDict, erase-IsDict}

module _ {K : Type 0} ⦃e : Eq K⦄ where
  abbrev pub listed : K → List K → Bool
  listed j [] = false
  listed j (k ∷ ks) = k == j || listed j ks

-- p(v), false where the key is missing.
abbrev pub holds {ℓ} : {V : Type ℓ} → (V → Bool) → Option V → Bool
holds p none = false
holds p (some v) = p v

module _ {K V : Type 0} ⦃e : Eq K⦄ (p : V → Bool) where
  -- for k, v := range m { if p(v) { ks = append(ks, k) } }
  unfoldable pub keys_where : Dict K V → List K
  keys_where [] = []
  keys_where ((k, v) ∷ m) = if p v then k ∷ keys_where m else keys_where m

  -- for k, v := range m { if p(v) { delete(m, k) } }, over the entries that are left to visit.
  unfoldable pub erase_where : Dict K V → Dict K V → Dict K V
  erase_where [] m = m
  erase_where ((k, v) ∷ entries) m = erase_where entries (if p v then erase k m else m)

  listed-keys_where_fresh : (j : K) (m : Dict K V) → IsFresh j m → listed j (keys_where m) ≡ false
  unfolding keys_where
  listed-keys_where_fresh j [] f = refl
  listed-keys_where_fresh j ((k, v) ∷ m) f =
      ground (arith, e.beq_iff k j, listed-keys_where_fresh j m f.1)

  -- A key is collected exactly when its value passes the test.
  pub listed-keys_where :
      (j : K) (m : Dict K V) → IsDict m → listed j (keys_where m) ≡ holds p (lookup j m)
  unfolding keys_where lookup
  listed-keys_where j [] d = refl
  listed-keys_where j ((k, v) ∷ m) d = elim (beq-cases k j) [
    | inl (q, b) ↦ rw (b) (ground (arith, q, b, listed-keys_where_fresh j m (subst_fresh q d.0)))
    | inr (n, b) ↦ rw (b) (ground (arith, b, listed-keys_where j m d.1))
  ]
    where
      subst_fresh : k ≡ j → IsFresh k m → IsFresh j m
      subst_fresh q f = rw (sym q) f

  lookup-erase_where_any :
      (j : K) (entries m : Dict K V)
      → lookup j (erase_where entries m)
        ≡ (if listed j (keys_where entries) then none else lookup j m)
  unfolding keys_where erase_where
  lookup-erase_where_any j [] m = refl
  lookup-erase_where_any j ((k, v) ∷ entries) m = elim (Bool-cases (p v)) [
    | inl t ↦
        rw t (ground (arith, lookup-erase_where_any j entries (erase k m), lookup-erase k j m))
    | inr f ↦ rw f (lookup-erase_where_any j entries m)
  ]

  -- The loop deletes the entries that pass the test and keeps the others.
  pub lookup-erase_where :
      (j : K) (m : Dict K V)
      → IsDict m
      → lookup j (erase_where m m) ≡ (if holds p (lookup j m) then none else lookup j m)
  lookup-erase_where j m d = rw (lookup-erase_where_any j m m, listed-keys_where j m d)

  pub erase_where-IsDict : (entries m : Dict K V) → IsDict m → IsDict (erase_where entries m)
  unfolding erase_where
  erase_where-IsDict [] m d = d
  erase_where-IsDict ((k, v) ∷ entries) m d =
      erase_where-IsDict entries (if p v then erase k m else m)
        (if-cases IsDict (p v) (λ _. erase-IsDict k m d) (λ _. d))

  -- What is left after the loop was there and fails the test.
  pub lookup-erase_where_cases :
      (j : K) (m : Dict K V) {v : V}
      → IsDict m
      → lookup j (erase_where m m) ≡ some v
      → (p v ≡ false) × (lookup j m ≡ some v)
  lookup-erase_where_cases j m d h = elim (Option-cases (lookup j m)) [
    | inl gone ↦ absurd (cc (lookup-erase_where j m d, gone, h))
    | inr (w, there) ↦ elim (Bool-cases (p w)) [
      | inl t ↦ absurd (ground (arith, lookup-erase_where j m d, there, t, h))
      | inr f ↦ ground (arith, lookup-erase_where j m d, there, f, h)
    ]
  ]
