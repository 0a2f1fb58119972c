-- ===== src/Middleware/TokenBucket/Filled.antt =====
-- internal/middleware/ratelimit.go: the buckets of TokenBucketRateLimiter while no sum overflows,
-- which is so for a clock and a capacity below 2^62.
use discobox.Prelude.{
  ℕ, ◌+◌, ◌-◌, ◌*◌, ◌/◌, ◌^◌, ◌≤◌, ◌<◌, ◌≡◌, refl, ap, ◌∙◌, Bool, true, if◌then◌else◌, ltb, some,
  str_eq, arith, inl, inr, Bool-cases,
}
use discobox.Prelude.Products.{times_le, quotient_le}
use discobox.Prelude.Int.{ℤ, pos, ◌+ℤ◌, ◌-ℤ◌}
use discobox.Middleware.TokenBucket.{Bucket, Limiter, min, since, spend, add_tokens, take_token}
use discobox.Middleware.TokenBucket.Bounds.{IsInt64, wrap64_fits, since_le}
use discobox.Middleware.TokenBucket.Cost.{spend-eq}

-- At time `time` or before, a call last read the bucket, which holds up to `c` tokens.
pub record IsFilled (c time : ℕ) (b : Bucket) : Type 0 where
  pub held : ℕ
  pub tokens : b.tokens ≡ pos held
  pub held_le : held ≤ c
  pub checked : b.last_check ≤ b.last_access
  pub accessed : b.last_access ≤ time

-- What a call leaves of a bucket with `held` tokens and `n` more.
abbrev pub left_of : ℕ → ℕ → ℕ → ℕ
left_of c held n = (if ltb (held + n) c then held + n else c) - 1

refilled_take :
    (c now held n : ℕ) (b : Bucket)
    → b.tokens ≡ pos held
    → held + n < 2 ^ 63
    → 0 < n
    → 0 < c
    → take_token (add_tokens now (pos c) (pos n) b) ≡ (
      true,
      record { tokens = pos (left_of c held n); last_check = now; last_access = b.last_access },
    )
unfolding take_token add_tokens min ◌+ℤ◌ ◌-ℤ◌
refilled_take c now held n b e f p q = rw e (ground (arith, wrap64_fits (held + n) f))

plain_take :
    (now held : ℕ) (b : Bucket)
    → b.tokens ≡ pos held
    → take_token b ≡ (ltb 0 held, record b { tokens = pos (held - 1) })
unfolding take_token ◌-ℤ◌
plain_take now held b e = rw e (ground arith)

nothing_added :
    (now : ℕ) (capacity : ℤ) (n : ℕ) (b : Bucket) → n ≡ 0 → add_tokens now capacity (pos n) b ≡ b
unfolding add_tokens
nothing_added now capacity n b z = rw z refl

-- The settings of a limiter that adds `r` tokens each `i` nanoseconds, up to `c`.
pub record IsRated (c r i : ℕ) : Type 0 where
  pub capacity_pos : 0 < c
  pub capacity_small : c < 2 ^ 62
  pub interval_pos : 0 < i
  pub interval_small : i < 2 ^ 63
  pub refill_le : r ≤ i

abbrev pub IsConfigured : ℕ → ℕ → ℕ → Limiter → Type 0
IsConfigured c r i t = (t.capacity ≡ pos c) × (t.refill ≡ pos r) × (t.interval ≡ pos i)

module _ (c r i : ℕ) (rated : IsRated c r i) (t : Limiter) (set : IsConfigured c r i t) where
  gain_le : (now last : ℕ) → since now last / i * r ≤ now
  gain_le now last = omega (
    arith,
    times_le r i (since now last / i) rated.refill_le,
    quotient_le (since now last) i rated.interval_pos,
    since_le now last,
  )

  module _ (time now : ℕ) (b : Bucket) (f : IsFilled c time b) (later : time ≤ now)
      (small : now < 2 ^ 62) where
    abbrev pub gain : ℕ
    gain = since now b.last_check / i * r

    capacity-IsInt64 : IsInt64 (pos c)
    capacity-IsInt64 = (omega (arith, rated.capacity_small), omega arith)

    spend-take : spend now t b ≡ (
      some (take_token (add_tokens now (pos c) (pos gain) (record b { last_access = now }))).0,
      (take_token (add_tokens now (pos c) (pos gain) (record b { last_access = now }))).1,
    )
    spend-take =
        rw
          (
            spend-eq t i r set.2 set.1 (rw set.0 capacity-IsInt64) rated.interval_pos
                rated.interval_small rated.refill_le now b,
            set.0,
          )
          refl

    pub spend-due :
        0 < gain
        → spend now t b ≡ (
          some true,
          record { tokens = pos (left_of c f.held gain); last_check = now; last_access = now },
        )
    spend-due p =
        spend-take
        ∙ ap (λ (x : Bool × Bucket). (some x.0, x.1))
            (refilled_take c now f.held gain (record b { last_access = now }) f.tokens
              (omega (arith, gain_le now b.last_check, f.held_le, rated.capacity_small)) p
              rated.capacity_pos)

    pub spend-early :
        gain ≡ 0
        → spend now t b ≡ (
          some (ltb 0 f.held),
          record { tokens = pos (f.held - 1); last_check = b.last_check; last_access = now },
        )
    spend-early z =
        spend-take
        ∙ ap (λ (x : Bool × Bucket). (some x.0, x.1))
            (ap take_token (nothing_added now (pos c) gain (record b { last_access = now }) z)
              ∙ plain_take now f.held (record b { last_access = now }) f.tokens)

    pub spend-IsFilled : IsFilled c now (spend now t b).1
    spend-IsFilled = elim (Bool-cases (ltb 0 gain)) [
      | inl p ↦ rw (spend-due (ground arith)) (record {
        held = left_of c f.held gain;
        tokens = refl;
        held_le = ground arith;
        checked = omega arith;
        accessed = omega arith;
      })
      | inr z ↦ rw (spend-early (ground arith)) (record {
        held = f.held - 1;
        tokens = refl;
        held_le = omega (arith, f.held_le);
        checked = omega (arith, f.checked, f.accessed, later);
        accessed = omega arith;
      })
    ]
