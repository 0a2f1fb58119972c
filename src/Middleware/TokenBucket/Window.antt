-- ===== src/Middleware/TokenBucket/Window.antt =====
-- internal/middleware/ratelimit.go: what TokenBucketRateLimiter allows a key within a window of
-- time, whatever happened before and whatever the other keys ask for.
use discobox.Prelude.{
  Str, ℕ, ◌+◌, ◌-◌, ◌*◌, ◌^◌, ◌≤◌, ◌<◌, ◌≡◌, refl, ◌∙◌, List, [], ◌∷◌, All, if◌then◌else◌, some,
  str_eq, arith, inl, inr, ◌==◌, beq-cases, subst,
}
use discobox.Prelude.Products.{pay_le}
use discobox.Prelude.Int.{ℤ, pos, pos_part}
use discobox.Prelude.Dict.{lookup}
use discobox.Middleware.TokenBucket.{Bucket, Limiter, spend, allow, new_token_bucket_rate_limiter}
use discobox.Middleware.TokenBucket.Bounds.{used, IsInt64, IsBounded}
use discobox.Middleware.TokenBucket.Cost.{spend_cost, first_cost}
use discobox.Middleware.TokenBucket.Calls.{
  Event, run, bucket_of, allow-other, allow-settings, allow_keeps, Holds, run-Holds, run-settings,
  spend_keeps, bucket_of-IsBounded, allow-key,
}

-- How many of the calls are allowed to `key`.
abbrev pub allowed_of : Str → List (ℕ × Str) → Limiter → ℕ
allowed_of key [] t = 0
allowed_of key ((now, k) ∷ calls) t =
    let rest = allowed_of key calls (allow now k t).1 in
    if k == key then used (allow now k t).0 + rest else rest

abbrev pub IsWithin : ℕ → ℕ → List (ℕ × Str) → Type 0
IsWithin start finish calls = All (λ call. (start ≤ call.0) × (call.0 ≤ finish)) calls

module _ (c : ℤ) (fits : IsInt64 c) (i r : ℕ) (ip : 0 < i) (im : i < 2 ^ 63) (ri : r ≤ i)
    (key : Str) (start finish : ℕ) where
  -- The settings of a limiter of `r` tokens each `i` nanoseconds.
  abbrev pub IsConfigured : Limiter → Type 0
  IsConfigured t = Holds c key t × (t.refill ≡ pos r) × (t.interval ≡ pos i)

  allow-IsConfigured :
      (now : ℕ) (k : Str) (t : Limiter) → IsConfigured t → IsConfigured (allow now k t).1
  allow-IsConfigured now k t h =
      let e = allow-settings now k t in (allow_keeps c fits key now k t h.0, e.1 ∙ h.1, e.2 ∙ h.2)

  -- What a bucket has left, in tokens times the interval.
  abbrev budget : Bucket → ℕ
  budget b = pos_part b.tokens * i + r * (finish - b.last_check)

  later_calls :
      (calls : List (ℕ × Str)) (t : Limiter) (b : Bucket)
      → IsConfigured t
      → lookup key t.buckets ≡ some b
      → IsBounded c b
      → IsWithin start finish calls
      → allowed_of key calls t * i ≤ budget b
  later_calls [] t b s there h w = omega arith
  later_calls ((now, k) ∷ calls) t b s there h w = elim (beq-cases k key) [
    | inl (p, e) ↦
        let b' = (spend now t b).1 in
        let q = allow-key now k key t p in
        let same : bucket_of now key t ≡ b = rw there refl in
        rw (e, q.0, same)
          (pay_le (used (spend now t b).0) (allowed_of key calls (allow now k t).1) i (budget b')
            (budget b) (spend_cost t i r s.2 s.1 (rw s.0.0 fits) ip im ri now finish b h.1 w.0.1)
            (later_calls calls (allow now k t).1 b' (allow-IsConfigured now k t s)
              (q.1 ∙ rw same refl) (spend_keeps c fits key now t b s.0.0 h) w.1))
    | inr (n, e) ↦ rw e (
        later_calls calls (allow now k t).1 b (allow-IsConfigured now k t s)
          (allow-other now k t key n ∙ there) h w.1)
  ]

  opening :
      (now : ℕ) (t : Limiter) (b : Bucket)
      → IsConfigured t
      → IsBounded c b
      → start ≤ now
      → now ≤ finish
      → used (spend now t b).0 * i + budget (spend now t b).1
        ≤ pos_part c * i + r * (finish - start + i)
  opening now t b s h hs hf =
      subst
        (λ d.
          used (spend now t b).0 * i + budget (spend now t b).1
          ≤ pos_part d * i + r * (finish - start + i))
        s.0.0
        (first_cost t i r s.2 s.1 (rw s.0.0 fits) ip im ri start now finish b (rw s.0.0 h) hs hf)

  pub window :
      (calls : List (ℕ × Str)) (t : Limiter)
      → IsConfigured t
      → IsWithin start finish calls
      → allowed_of key calls t * i ≤ pos_part c * i + r * (finish - start + i)
  window [] t s w = omega arith
  window ((now, k) ∷ calls) t s w = elim (beq-cases k key) [
    | inl (p, e) ↦
        let b = bucket_of now key t in
        let q = allow-key now k key t p in
        rw (e, q.0)
          (pay_le (used (spend now t b).0) (allowed_of key calls (allow now k t).1) i
            (budget (spend now t b).1) (pos_part c * i + r * (finish - start + i))
            (opening now t b s (bucket_of-IsBounded c fits key now t s.0) w.0.0 w.0.1)
            (later_calls calls (allow now k t).1 (spend now t b).1 (allow-IsConfigured now k t s)
              q.1 (spend_keeps c fits key now t b s.0.0 (bucket_of-IsBounded c fits key now t s.0))
              w.1))
    | inr (n, e) ↦ rw e (window calls (allow now k t).1 (allow-IsConfigured now k t s) w.1)
  ]

-- For a capacity that fits an int and at most one token a nanosecond, the calls that are allowed to
-- a key within a window of time, after any history and between any calls for other keys, are at
-- most the capacity and the refills of the window's length and one interval more; all of it times
-- the interval, so that no division rounds.
pub allowed_of-window :
    (capacity : ℤ) (refill interval start finish : ℕ) (key : Str) (history : List Event)
    (calls : List (ℕ × Str))
    → IsInt64 capacity
    → 0 < interval
    → interval < 2 ^ 63
    → refill ≤ interval
    → IsWithin start finish calls
    → allowed_of key calls
          (run history (new_token_bucket_rate_limiter capacity (pos refill) (pos interval)))
        * interval
      ≤ pos_part capacity * interval + refill * (finish - start + interval)
unfolding lookup
allowed_of-window capacity refill interval start finish key history calls fits ip im ri w =
    let t = new_token_bucket_rate_limiter capacity (pos refill) (pos interval) in
    let s = run-settings history t in
    window capacity fits interval refill ip im ri key start finish calls (run history t)
      (run-Holds capacity fits key history t (refl, tt), s.0, s.1) w
