-- ===== src/Prelude/Prefixes.antt =====
-- Prefixes of a text and its first occurrence of a byte, as strings.HasPrefix and
-- strings.IndexByte find them.
use discobox.Prelude.Equality.{◌==◌, nat_eq, beq_self, eq_of_beq}
use discobox.Prelude.Tests.{if◌then◌else◌, Bool-cases}
use discobox.Prelude.Lists.{take, drop, length}
use discobox.Prelude.Text.{Str, has_prefix, contains}
use Prim.Native.Nat.{ℕ, suc}
use mathlib.Core.Bool.{true, false}
use mathlib.Core.Path.{◌≡◌, refl, sym, ap, subst, ◌∙◌}
use mathlib.Core.Logic.{inl, inr}
use mathlib.Core.List.{[], ◌∷◌, ◌++◌}
use mathlib.Core.Option.{Option, none, some}

abbrev next_index : Option ℕ → Option ℕ
next_index none = none
next_index (some i) = some (suc i)

-- strings.IndexByte(s, b), with `none` for -1.
unfoldable pub index_byte : Str → ℕ → Option ℕ
index_byte [] b = none
index_byte (c ∷ s) b = let later = index_byte s b in if c == b then some 0 else next_index later

pub has_prefix-append : (p s : Str) → has_prefix (p ++ s) p ≡ true
unfolding has_prefix
has_prefix-append [] s = refl
has_prefix-append (c ∷ p) s = rw (beq_self c) (has_prefix-append p s)

pub drop-append : (p s : Str) → drop (length p) (p ++ s) ≡ s
drop-append [] s = refl
drop-append (c ∷ p) s = drop-append p s

pub take-append : (p s : Str) → take (length p) (p ++ s) ≡ p
take-append [] s = refl
take-append (c ∷ p) s = ap (λ (q : Str). c ∷ q) (take-append p s)

pub drop-append_next : (p s : Str) (b : ℕ) → drop (suc (length p)) (p ++ b ∷ s) ≡ s
drop-append_next [] s b = refl
drop-append_next (c ∷ p) s b = drop-append_next p s b

pub append-drop : (p s : Str) → has_prefix s p ≡ true → s ≡ p ++ drop (length p) s
unfolding has_prefix
append-drop [] s h = refl
append-drop (c ∷ p) [] h = absurd (cc h)
append-drop (c ∷ p) (d ∷ s) h = elim (Bool-cases (d == c)) [
  | inl t ↦
      ap (λ (x : ℕ). x ∷ s) (eq_of_beq d c t)
      ∙ ap (λ (q : Str). c ∷ q) (append-drop p s (rw t at h))
  | inr f ↦ absurd (cc (rw f at h))
]

pub index_byte-append :
    (p s : Str) (b : ℕ) → contains p b ≡ false → index_byte (p ++ b ∷ s) b ≡ some (length p)
unfolding index_byte contains
index_byte-append [] s b h = rw (beq_self b) refl
index_byte-append (c ∷ p) s b h = elim (Bool-cases (c == b)) [
  | inl t ↦ absurd (cc (rw t at h))
  | inr f ↦ rw (f, index_byte-append p s b (rw f at h)) refl
]

next_index-some :
    (o : Option ℕ) (i : ℕ) → next_index o ≡ some i → (j : ℕ) × (o ≡ some j) × (i ≡ suc j)
next_index-some none i h = absurd (cc h)
next_index-some (some j) i h = (j, refl, cc h)

-- The slices before and after the first `b`, which stands at `i`.
abbrev pub Splits : Str → ℕ → ℕ → Type 0
Splits s b i = (s ≡ take i s ++ b ∷ drop (suc i) s) × (contains (take i s) b ≡ false)

pub index_byte-split : (s : Str) (b i : ℕ) → index_byte s b ≡ some i → Splits s b i
unfolding index_byte contains
index_byte-split [] b i h = absurd (cc h)
index_byte-split (c ∷ s) b i h = elim (Bool-cases (c == b)) [
  | inl t ↦
      let first : 0 ≡ i = cc (rw t at h) in
      subst (λ (n : ℕ). Splits (c ∷ s) b n) first (ap (λ (x : ℕ). x ∷ s) (eq_of_beq c b t), refl)
  | inr f ↦
      let later = next_index-some (index_byte s b) i (rw f at h) in
      let rest = index_byte-split s b later.0 later.1 in
      subst (λ (n : ℕ). Splits (c ∷ s) b n) (sym later.2)
        (ap (λ (q : Str). c ∷ q) rest.0, rw f rest.1)
]
