-- ===== src/Middleware/TokenBucket/Cost.antt =====
-- internal/middleware/ratelimit.go: what a call of TokenBucketRateLimiter costs its bucket, in
-- tokens times the interval.
use discobox.Prelude.{
  ℕ, ◌+◌, ◌-◌, ◌*◌, ◌/◌, ◌^◌, ◌≤◌, ◌<◌, ◌≡◌, ◌⊎◌, Bool, some, if◌then◌else◌, ltb, str_eq, arith,
  Bool-cases, inl, inr,
}
use discobox.Prelude.Int.{pos, pos_part, ltb_ℤ, ◌-ℤ◌, ◌*ℤ◌, quot}
use discobox.Prelude.Products.{
  scale_le, times_le, quotient_le, refill_cost, positive_factor, zero_product, budget_le,
  lt_next_multiple,
}
use discobox.Middleware.TokenBucket.{
  Bucket, Limiter, since, tokens_to_add, add_tokens, take_token, spend, refill_and_take,
}
use discobox.Middleware.TokenBucket.Bounds.{
  used, IsInt64, IsBounded, wrap64_fits, since_le, add_tokens_le, add_tokens-IsBounded,
}

since-lt : (now earlier : ℕ) → since now earlier < 2 ^ 63
unfolding since
since-lt now earlier = ground arith

take_cost :
    (b : Bucket) (i : ℕ)
    → (if (take_token b).0 then 1 else 0) * i + pos_part (take_token b).1.tokens * i
      ≤ pos_part b.tokens * i
unfolding take_token ◌-ℤ◌
take_cost b i = elim (Bool-cases (ltb_ℤ (pos 0) b.tokens)) [
  | inl t ↦ rw t (
      ground
        (arith, scale_le (1 + pos_part (b.tokens -ℤ pos 1)) (pos_part b.tokens) i (ground arith)))
  | inr f ↦ rw f (omega arith)
]

since-cases :
    (now earlier : ℕ) → (since now earlier ≡ now - earlier) ⊎ (since now earlier ≡ 2 ^ 63 - 1)
unfolding since
since-cases now earlier = ground arith

module _ (t : Limiter) (i r : ℕ) (every : t.interval ≡ pos i) (adds : t.refill ≡ pos r)
    (fits : IsInt64 t.capacity) (ip : 0 < i) (im : i < 2 ^ 63) (ri : r ≤ i) where
  product-lt : (now last : ℕ) → since now last / i * r < 2 ^ 63
  product-lt now last = omega (
    arith,
    times_le r i (since now last / i) ri,
    quotient_le (since now last) i ip,
    since-lt now last,
  )

  pub tokens_to_add-eq :
      (now last : ℕ) → tokens_to_add (since now last) t ≡ some (pos (since now last / i * r))
  unfolding tokens_to_add quot ◌*ℤ◌
  tokens_to_add-eq now last =
      rw (every, adds) (ground (arith, wrap64_fits (since now last / i * r) (product-lt now last)))

  -- What the lock of the bucket guards, where the division does not panic.
  abbrev pub spend_of : ℕ → Bucket → Bool × Bucket
  spend_of now b = take_token (
      add_tokens now t.capacity (pos (since now b.last_check / i * r))
        (record b { last_access = now }))

  pub spend-eq :
      (now : ℕ) (b : Bucket) → spend now t b ≡ (some (spend_of now b).0, (spend_of now b).1)
  unfolding spend refill_and_take
  spend-eq now b = ground (arith, tokens_to_add-eq now b.last_check)

  -- The bucket of a call once its refill is in.
  abbrev pub refilled : ℕ → Bucket → Bucket
  refilled now b =
      add_tokens now t.capacity (pos (since now b.last_check / i * r))
        (record b { last_access = now })

  due-lt : (now last : ℕ) → 0 < since now last / i * r → last < now
  due-lt now last h = omega (
    arith,
    scale_le 1 (since now last / i) i (positive_factor (since now last / i) r h).0,
    quotient_le (since now last) i ip,
    since_le now last,
  )

  refilled-cases :
      (now : ℕ) (b : Bucket)
      → ((since now b.last_check / i * r ≡ 0) × (refilled now b ≡ record b { last_access = now }))
        ⊎ ((b.last_check < now) × ((refilled now b).last_check ≡ now))
  unfolding add_tokens
  refilled-cases now b = elim (Bool-cases (ltb 0 (since now b.last_check / i * r))) [
    | inl y ↦ inr (due-lt now b.last_check (ground arith), ground arith)
    | inr n ↦ inl (ground arith, ground arith)
  ]

  refilled_cost :
      (now finish : ℕ) (b : Bucket)
      → IsInt64 b.tokens
      → now ≤ finish
      → pos_part (refilled now b).tokens * i + r * (finish - (refilled now b).last_check)
        ≤ pos_part b.tokens * i + r * (finish - b.last_check)
  refilled_cost now finish b h hf = elim (refilled-cases now b) [
    | inl (z, e) ↦ rw e (omega arith)
    | inr (l, e) ↦ rw e (
        refill_cost i r (since now b.last_check / i) (pos_part b.tokens)
          (pos_part (refilled now b).tokens) b.last_check now finish
          (add_tokens_le now t.capacity (pos (since now b.last_check / i * r))
            (record b { last_access = now }) h)
          (omega (arith, quotient_le (since now b.last_check) i ip, since_le now b.last_check))
          (omega arith) hf)
  ]

  -- A bucket before its first call in a window that opens at `start`.
  window_cost :
      (start now finish : ℕ) (b : Bucket)
      → IsBounded t.capacity b
      → start ≤ now
      → now ≤ finish
      → pos_part (refilled now b).tokens * i + r * (finish - (refilled now b).last_check)
        ≤ pos_part t.capacity * i + r * (finish - start + i)
  window_cost start now finish b h hs hf = elim (refilled-cases now b) [
    | inl (z, e) ↦ rw e (elim (zero_product (since now b.last_check / i) r z) [
      | inl q ↦ within (lt_next_multiple (since now b.last_check) i ip q)
      | inr q ↦ idle q
    ])
    | inr (l, e) ↦ rw e (
        budget_le (pos_part (refilled now b).tokens) (finish - now) (pos_part t.capacity)
          (finish - start + i) i r
          (ground (
            arith,
            add_tokens-IsBounded t.capacity fits now (pos (since now b.last_check / i * r))
                (record b { last_access = now }) h,
          ))
          (omega arith))
  ]
    where
      idle :
          r ≡ 0
          → pos_part b.tokens * i + r * (finish - b.last_check)
            ≤ pos_part t.capacity * i + r * (finish - start + i)
      idle q =
          rw q (ground (arith, scale_le (pos_part b.tokens) (pos_part t.capacity) i (ground arith)))

      within :
          since now b.last_check < i
          → pos_part b.tokens * i + r * (finish - b.last_check)
            ≤ pos_part t.capacity * i + r * (finish - start + i)
      within l =
          budget_le (pos_part b.tokens) (finish - b.last_check) (pos_part t.capacity)
            (finish - start + i) i r (ground arith) (omega (arith, since-cases now b.last_check))

  taken_cost :
      (b : Bucket) (cost : ℕ)
      → pos_part b.tokens * i + r * (cost - b.last_check)
        ≡ pos_part b.tokens * i + r * (cost - (take_token b).1.last_check)
  unfolding take_token
  taken_cost b cost = ground arith

  spent :
      (now finish : ℕ) (b : Bucket) {c : ℕ}
      → pos_part (refilled now b).tokens * i + r * (finish - (refilled now b).last_check) ≤ c
      → used (spend now t b).0 * i
          + (pos_part (spend now t b).1.tokens * i + r * (finish - (spend now t b).1.last_check))
        ≤ c
  spent now finish b h =
      rw (spend-eq now b)
        (omega (arith, take_cost (refilled now b) i, taken_cost (refilled now b) finish, h))

  pub spend_cost :
      (now finish : ℕ) (b : Bucket)
      → IsInt64 b.tokens
      → now ≤ finish
      → used (spend now t b).0 * i
          + (pos_part (spend now t b).1.tokens * i + r * (finish - (spend now t b).1.last_check))
        ≤ pos_part b.tokens * i + r * (finish - b.last_check)
  spend_cost now finish b h hf = spent now finish b (refilled_cost now finish b h hf)

  pub first_cost :
      (start now finish : ℕ) (b : Bucket)
      → IsBounded t.capacity b
      → start ≤ now
      → now ≤ finish
      → used (spend now t b).0 * i
          + (pos_part (spend now t b).1.tokens * i + r * (finish - (spend now t b).1.last_check))
        ≤ pos_part t.capacity * i + r * (finish - start + i)
  first_cost start now finish b h hs hf =
      spent now finish b (window_cost start now finish b h hs hf)
