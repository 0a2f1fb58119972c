-- ===== src/Middleware/TokenBucket/Idle.antt =====
-- internal/middleware/ratelimit.go: buckets that are full, or full again after a time without calls.
use discobox.Prelude.{
  ℕ, ◌-◌, ◌*◌, ◌/◌, ◌^◌, ◌≤◌, ◌<◌, ◌≡◌, sym, ap, ◌∙◌, true, some, lt→ltb, str_eq, arith,
}
use discobox.Prelude.Products.{scale_le, quotient_le, quotient_mono}
use discobox.Prelude.Int.{pos}
use discobox.Middleware.TokenBucket.{Bucket, Limiter, since, ttl, is_idle, spend}
use discobox.Middleware.TokenBucket.Filled.{IsFilled, IsRated, IsConfigured, spend-due, spend-early}
use discobox.Middleware.TokenBucket.Calls.{full_bucket}

since_mono : (now a b : ℕ) → a ≤ b → since now b ≤ since now a
unfolding since
since_mono now a b h = ground arith

since_self : (now : ℕ) → since now now ≡ 0
unfolding since
since_self now = ground arith

module _ (c r i : ℕ) (rated : IsRated c r i) where
  pub full_bucket-IsFilled :
      (now : ℕ) (t : Limiter) → IsConfigured c r i t → IsFilled c now (full_bucket now t)
  full_bucket-IsFilled now t s = record {
    held = c;
    tokens = s.0;
    held_le = omega arith;
    checked = omega arith;
    accessed = omega arith;
  }

  -- A full bucket that is new.
  pub spend-full :
      (now : ℕ) (t : Limiter) (s : IsConfigured c r i t)
      → now < 2 ^ 62
      → spend now t (full_bucket now t)
        ≡ (some true, record { tokens = pos (c - 1); last_check = now; last_access = now })
  unfolding full_bucket-IsFilled
  spend-full now t s small =
      spend-early c r i rated t s now now (full_bucket now t) (full_bucket-IsFilled now t s)
        (omega arith) small
        (rw (since_self now) (ground (arith, quotient_le 0 i rated.interval_pos)))
      ∙ ap (λ ok. (some ok, record { tokens = pos (c - 1); last_check = now; last_access = now }))
          (lt→ltb 0 c rated.capacity_pos)

  -- A bucket that has been idle for the ttl is full again.
  pub spend-idle :
      (time now : ℕ) (t : Limiter) (s : IsConfigured c r i t) (b : Bucket)
      → IsFilled c time b
      → time ≤ now
      → now < 2 ^ 62
      → c ≤ ttl / i * r
      → is_idle now b ≡ true
      → spend now t b ≡ spend now t (full_bucket now t)
  spend-idle time now t s b f later small full idle =
      spend-due c r i rated t s time now b f later small (omega (arith, enough, rated.capacity_pos))
      ∙ ap (λ n. (some true, record { tokens = pos n; last_check = now; last_access = now }))
          (ground (arith, enough))
      ∙ sym (spend-full now t s small)
    where
      waited : ttl ≤ since now b.last_check
      waited = ground (arith, since_mono now b.last_check b.last_access f.checked)

      enough : c ≤ since now b.last_check / i * r
      enough = omega (
        arith,
        full,
        scale_le (ttl / i) (since now b.last_check / i) r
            (quotient_mono ttl (since now b.last_check) i rated.interval_pos waited),
      )
