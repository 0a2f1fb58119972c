-- ===== src/Prelude/Sweep.antt =====
-- The two passes in which the program drops what is too old from a map: collect the keys under the
-- read lock, then delete those whose entry still passes the test.
use discobox.Prelude.{
  Bool, true, ◌≡◌, refl, ◌∙◌, List, [], ◌∷◌, none, arith, if◌then◌else◌, Eq, inl, inr, ◌&&◌,
  Bool-cases,
}
use discobox.Prelude.Dict.{Dict, lookup, erase, lookup-erase}
use discobox.Prelude.Ranges.{keys_where, listed, holds}

module _ {K V : Type 0} ⦃e : Eq K⦄ (p : V → Bool) where
  unfoldable pub delete_listed : List K → Dict K V → Dict K V
  delete_listed [] m = m
  delete_listed (k ∷ ks) m = delete_listed ks (if holds p (lookup k m) then erase k m else m)

  unfoldable pub sweep : Dict K V → Dict K V
  sweep m = delete_listed (keys_where p m) m

  lookup-delete_listed :
      (j : K) (ks : List K) (m : Dict K V)
      → lookup j (delete_listed ks m)
        ≡ (if listed j ks && holds p (lookup j m) then none else lookup j m)
  unfolding delete_listed
  lookup-delete_listed j [] m = refl
  lookup-delete_listed j (k ∷ ks) m = elim (Bool-cases (holds p (lookup k m))) [
    | inl t ↦
        rw t
          (ground (arith, e.beq_iff k j, lookup-delete_listed j ks (erase k m), lookup-erase k j m))
    | inr f ↦ rw f (ground (arith, e.beq_iff k j, lookup-delete_listed j ks m))
  ]

  -- An entry that passes the test is collected.
  holds-listed :
      (j : K) (m : Dict K V) → holds p (lookup j m) ≡ true → listed j (keys_where p m) ≡ true
  unfolding lookup keys_where
  holds-listed j [] h = absurd (cc (h))
  holds-listed j ((k, v) ∷ m) h = elim (Bool-cases (p v)) [
    | inl t ↦ rw t (ground (arith, holds-listed j m))
    | inr f ↦ rw f (ground (arith, f, h, holds-listed j m))
  ]

  -- Both passes delete the entries that pass the test and keep the others.
  pub lookup-sweep :
      (j : K) (m : Dict K V)
      → lookup j (sweep m) ≡ (if holds p (lookup j m) then none else lookup j m)
  unfolding sweep
  lookup-sweep j m = elim (Bool-cases (holds p (lookup j m))) [
    | inl t ↦ lookup-delete_listed j (keys_where p m) m ∙ rw (t, holds-listed j m t)
    | inr f ↦ ground (arith, f, lookup-delete_listed j (keys_where p m) m)
  ]
