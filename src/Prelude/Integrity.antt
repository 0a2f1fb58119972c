-- ===== src/Prelude/Integrity.antt =====
-- Integrity of maps: entries stored under their own key, and references from one map to another.
use discobox.Prelude.{true, ◌≡◌, ◌≢◌, sym, ap, subst, ◌∙◌, some, arith, Eq, inl, inr, Option-cases}
use discobox.Prelude.Dict.{
  Dict, lookup, insert, erase, has, lookup-insert, lookup-erase, lookup-insert_cases,
  lookup-erase_cases,
}

module _ {K V : Type 0} ⦃e : Eq K⦄ where
  -- What a map holds under k has k for its own key.
  abbrev pub IsKeyed : (V → K) → Dict K V → Type 0
  IsKeyed key m = (k : K) (v : V) → lookup k m ≡ some v → key v ≡ k

  pub has_of_lookup : (k : K) (m : Dict K V) {v : V} → lookup k m ≡ some v → has k m ≡ true
  has_of_lookup k m h = ground (arith, h)

  pub lookup_of_has : (k : K) (m : Dict K V) → has k m ≡ true → (v : V) × (lookup k m ≡ some v)
  lookup_of_has k m h = elim (Option-cases (lookup k m)) [
    | inl n ↦ absurd (cc (n, h))
    | inr (v, p) ↦ (v, p)
  ]

  pub has-insert_of_has :
      (k j : K) (v : V) (m : Dict K V) → has j m ≡ true → has j (insert k v m) ≡ true
  has-insert_of_has k j v m h = ground (arith, lookup-insert k j v m)

  pub has-erase_ne : (k j : K) (m : Dict K V) → k ≢ j → has j m ≡ true → has j (erase k m) ≡ true
  has-erase_ne k j m n h = ground (arith, lookup-erase k j m, e.beq_iff k j)

  pub insert-IsKeyed :
      (key : V → K) (k : K) (v : V) (m : Dict K V)
      → key v ≡ k
      → IsKeyed key m
      → IsKeyed key (insert k v m)
  insert-IsKeyed key k v m own h j w p = elim (lookup-insert_cases k j v w m p) [
    | inl (same, found) ↦ ap key (sym found) ∙ own ∙ same
    | inr (_, old) ↦ h j w old
  ]

  pub erase-IsKeyed : (key : V → K) (k : K) (m : Dict K V) → IsKeyed key m → IsKeyed key (erase k m)
  erase-IsKeyed key k m h j w p = h j w (lookup-erase_cases k j w m p).1

module _ {K V J W : Type 0} ⦃e : Eq K⦄ ⦃d : Eq J⦄ (ref : V → J) where
  -- Every entry of the first map refers to an entry of the second.
  abbrev pub Refers : Dict K V → Dict J W → Type 0
  Refers m n = (k : K) (v : V) → lookup k m ≡ some v → has (ref v) n ≡ true

  pub insert-Refers :
      (k : K) (v : V) (m : Dict K V) (n : Dict J W)
      → has (ref v) n ≡ true
      → Refers m n
      → Refers (insert k v m) n
  insert-Refers k v m n there h j w p = elim (lookup-insert_cases k j v w m p) [
    | inl (same, found) ↦ subst (λ (x : V). has (ref x) n ≡ true) found there
    | inr (_, old) ↦ h j w old
  ]

  pub erase-Refers : (k : K) (m : Dict K V) (n : Dict J W) → Refers m n → Refers (erase k m) n
  erase-Refers k m n h j w p = h j w (lookup-erase_cases k j w m p).1

  -- The second map may grow.
  pub Refers-insert :
      (k : J) (w : W) (m : Dict K V) (n : Dict J W) → Refers m n → Refers m (insert k w n)
  Refers-insert k w m n h j v p = has-insert_of_has k (ref v) w n (h j v p)

  -- It may lose an entry that nothing refers to.
  pub Refers-erase :
      (k : J) (m : Dict K V) (n : Dict J W)
      → ((j : K) (v : V) → lookup j m ≡ some v → k ≢ ref v)
      → Refers m n
      → Refers m (erase k n)
  Refers-erase k m n unused h j v p = has-erase_ne k (ref v) n (unused j v p) (h j v p)
