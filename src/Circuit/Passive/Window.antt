-- ===== src/Circuit/Passive/Window.antt =====
-- internal/circuit/health_checker.go: dropping the failures that have left the window of
-- PassiveHealthChecker loses none that a later call counts.
use discobox.Prelude.{
  ℕ, ◌≤◌, ◌≡◌, refl, sym, ap, ◌∙◌, Bool, true, List, [], ◌∷◌, ◌++◌, keep, arith, Bool-cases, inl,
  inr,
}
use discobox.Prelude.Int.{ℤ, ◌+ℤ◌}
use discobox.Circuit.Passive.{is_recent}

is_recent-earlier :
    (window : ℤ) (a b t : ℕ) → a ≤ b → is_recent window b t ≡ true → is_recent window a t ≡ true
unfolding is_recent ◌+ℤ◌
is_recent-earlier window a b t h r = ground arith

keep-append {ℓ} :
    {A : Type ℓ} (p : A → Bool) (xs ys : List A) → keep p (xs ++ ys) ≡ keep p xs ++ keep p ys
keep-append p [] ys = refl
keep-append p (x ∷ xs) ys = elim (Bool-cases (p x)) [
  | inl t ↦ rw t (ap (λ zs. x ∷ zs) (keep-append p xs ys))
  | inr f ↦ rw f (keep-append p xs ys)
]

keep-earlier :
    (window : ℤ) (a b : ℕ) (ts : List ℕ)
    → a ≤ b
    → keep (is_recent window b) (keep (is_recent window a) ts) ≡ keep (is_recent window b) ts
keep-earlier window a b [] h = refl
keep-earlier window a b (t ∷ ts) h = elim (Bool-cases (is_recent window a t)) [
  | inl y ↦ rw y (elim (Bool-cases (is_recent window b t)) [
    | inl z ↦ rw z (ap (λ zs. t ∷ zs) (keep-earlier window a b ts h))
    | inr z ↦ rw z (keep-earlier window a b ts h)
  ])
  | inr n ↦ rw n (elim (Bool-cases (is_recent window b t)) [
    | inl z ↦ absurd (cc (n, is_recent-earlier window a b t h z))
    | inr z ↦ rw z (keep-earlier window a b ts h)
  ])
]

-- At a later time the pruned failures and all of them tell the same.
pub keep-pruned :
    (window : ℤ) (a b : ℕ) (ts : List ℕ)
    → a ≤ b
    → keep (is_recent window b) (keep (is_recent window a) ts ++ a ∷ [])
      ≡ keep (is_recent window b) (ts ++ a ∷ [])
keep-pruned window a b ts h =
    keep-append (is_recent window b) (keep (is_recent window a) ts) (a ∷ [])
    ∙ ap (λ zs. zs ++ keep (is_recent window b) (a ∷ [])) (keep-earlier window a b ts h)
    ∙ sym (keep-append (is_recent window b) ts (a ∷ []))

pub keep-append_congr {ℓ} :
    {A : Type ℓ} (p : A → Bool) (xs ys zs : List A)
    → keep p xs ≡ keep p ys
    → keep p (xs ++ zs) ≡ keep p (ys ++ zs)
keep-append_congr p xs ys zs h =
    keep-append p xs zs ∙ ap (λ k. k ++ keep p zs) h ∙ sym (keep-append p ys zs)
