-- ===== src/Prelude/Products.antt =====
-- Products of two variables, which the linear tactics do not read.
use discobox.Prelude.{
  ℕ, zero, suc, refl, inl, inr, ◌+◌, ◌-◌, ◌*◌, ◌/◌, ◌≤◌, ◌<◌, ◌≡◌, ap, ◌⊎◌, arith,
}

pub scale_le : (a b c : ℕ) → a ≤ b → a * c ≤ b * c
scale_le a b c h = grind arith

pub times_le : (a b c : ℕ) → a ≤ b → c * a ≤ c * b
times_le a b c h = grind arith

pub quotient_le : (a b : ℕ) → 0 < b → a / b * b ≤ a
quotient_le a b h = grind arith

-- What was gained by `q` refills of `r` does not exceed what the time spent on them allows.
pub refill_cost :
    (i r q old new last now finish : ℕ)
    → new ≤ old + q * r
    → q * i ≤ now - last
    → last ≤ now
    → now ≤ finish
    → new * i + r * (finish - now) ≤ old * i + r * (finish - last)
refill_cost i r q old new last now finish ht hq hl hf =
    let a : new * i ≤ (old + q * r) * i = scale_le new (old + q * r) i ht in
    let b : r * (q * i) ≤ r * (now - last) = times_le (q * i) (now - last) r hq in
    let c : r * (finish - last) ≡ r * ((finish - now) + (now - last)) =
      ap (λ x. r * x) (omega arith) in
    grind arith

pub positive_factor : (q r : ℕ) → 0 < q * r → (0 < q) × (0 < r)
positive_factor q r h = (grind arith, grind arith)

pub zero_product : (q r : ℕ) → q * r ≡ 0 → (q ≡ 0) ⊎ (r ≡ 0)
zero_product zero r h = inl refl
zero_product (suc q) zero h = inr refl
zero_product (suc q) (suc r) h = absurd (omega (arith, h))

pub lt_next_multiple : (a b : ℕ) → 0 < b → a / b ≡ 0 → a < b
lt_next_multiple a b h z = grind arith

pub budget_le : (a b c d i r : ℕ) → a ≤ c → b ≤ d → a * i + r * b ≤ c * i + r * d
budget_le a b c d i r h k = omega (arith, scale_le a c i h, times_le b d r k)

pub pay_le : (u v i x c : ℕ) → u * i + x ≤ c → v * i ≤ x → (u + v) * i ≤ c
pay_le u v i x c h k = grind arith

quotient_rest : (a b : ℕ) → 0 < b → a < (a / b + 1) * b
quotient_rest a b h = grind arith

pub quotient_mono : (a b c : ℕ) → 0 < c → a ≤ b → a / c ≤ b / c
quotient_mono a b c p h =
    ground (arith, quotient_le a c p, quotient_rest b c p, scale_le (b / c + 1) (a / c) c)

pub quotient_self : (a : ℕ) → 0 < a → a / a ≡ 1
quotient_self a h = grind arith
