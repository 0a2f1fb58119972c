-- ===== src/Balancer/Indices.antt =====
-- The counters of the rotating balancers in internal/balancer: the index that a count leads to.
use native.Mathlib.Nat.{div-add-mod', mod-lt}
use native.Mathlib.Decide.{dec_le}
use discobox.Prelude.{ℕ, ◌+◌, ◌-◌, ◌*◌, ◌/◌, ◌%◌, ◌<◌, ◌≡◌, ap, ◌∙◌, arith}
use discobox.Balancer.Pool.{u64, add_uint64, index_of}

pub round_index : (q n j : ℕ) → j < n → (q * n + j) % n ≡ j
round_index q n j h = grind arith

-- The index that a call reads is its counter's, before the increment.
pub index_counter : (c n : ℕ) → c < u64 → index_of (add_uint64 c) n ≡ c % n
index_counter c n h =
    let count : ((c + 1) % u64 + u64 - 1) % u64 ≡ c = omega arith in ap (λ (i : ℕ). i % n) count

-- Some count of the next n leads to a given place.
pub reaches : (c n j : ℕ) → j < n → (i : ℕ) × (i < n) × ((c + i) % n ≡ j)
reaches c n j h =
    let r = c % n in
    let q = c / n in
    let from : q * n + r ≡ c = div-add-mod' c n in
    let low : r < n = mod-lt c (omega arith) in
    elim (dec_le r j) [
      | yes after ↦
          let sum : c + (j - r) ≡ q * n + j = omega (arith, from) in
          (j - r, omega arith, ap (λ (k : ℕ). k % n) sum ∙ round_index q n j h)
      | no before ↦
          let sum : c + (j + n - r) ≡ (q + 1) * n + j = omega (arith, from) in
          (j + n - r, omega arith, ap (λ (k : ℕ). k % n) sum ∙ round_index (q + 1) n j h)
    ]
