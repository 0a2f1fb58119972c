-- ===== src/Middleware/TokenBucket/Waiting.antt =====
-- internal/middleware/ratelimit.go: a client of TokenBucketRateLimiter that waits is served.
use discobox.Prelude.{
  Str, ℕ, ◌+◌, ◌*◌, ◌/◌, ◌^◌, ◌≤◌, ◌<◌, ◌≡◌, ◌≢◌, refl, ◌∙◌, inl, inr, Bool, true, List, [], ◌∷◌,
  Option, some, if-cases, str_eq, arith, Option-cases, subst, ap,
}
use discobox.Prelude.Products.{scale_le, quotient_mono, quotient_self}
use discobox.Prelude.Int.{pos}
use discobox.Prelude.Dict.{lookup}
use discobox.Prelude.Ranges.{holds}
use discobox.Prelude.Sweep.{lookup-sweep}
use discobox.Middleware.TokenBucket.{
  Bucket, Limiter, since, is_idle, spend, allow, cleanup, new_token_bucket_rate_limiter,
}
use discobox.Middleware.TokenBucket.Filled.{IsFilled, IsRated, IsConfigured, spend-due}
use discobox.Middleware.TokenBucket.Idle.{spend-full}
use discobox.Middleware.TokenBucket.Calls.{
  Event, request, tick, run, allow-answer, allow-other, Stands,
}
use discobox.Middleware.TokenBucket.Forgetting.{
  IsClocked, time_of, IsFilled-later, allow-IsConfigured, allow-filled,
}

-- The time of the last event.
abbrev pub last_time : ℕ → List Event → ℕ
last_time time [] = time
last_time time (e ∷ es) = last_time (time_of e) es

-- No request is for the key.
abbrev pub Spares : Str → List Event → Type 0
Spares key [] = Unit
Spares key (request now k ∷ es) = (k ≢ key) × Spares key es
Spares key (tick now ∷ es) = Spares key es

since_ge : (now last i : ℕ) → last + i ≤ now → i < 2 ^ 63 → i ≤ since now last
unfolding since
since_ge now last i h k = ground arith

module _ (c r i : ℕ) (rated : IsRated c r i) where
  record Ready (time : ℕ) (t : Limiter) : Type 0 where
    set : IsConfigured c r i t
    filled : (k : Str) → Stands (IsFilled c time) (lookup k t.buckets)

  cleanup-Ready :
      (time now : ℕ) (t : Limiter) → time ≤ now → Ready time t → Ready now (cleanup now t)
  unfolding cleanup
  cleanup-Ready time now t h p = record {
    set = p.set;
    filled = λ k. rw (lookup-sweep (is_idle now) k t.buckets) (
        if-cases (Stands (IsFilled c now)) (holds (is_idle now) (lookup k t.buckets)) (λ _. tt)
          (λ _. IsFilled-later c r i rated time now (lookup k t.buckets) h (p.filled k)));
  }

  run-Ready :
      (es : List Event) (time : ℕ) (t : Limiter)
      → Ready time t
      → IsClocked time es
      → Ready (last_time time es) (run es t)
  run-Ready [] time t p w = p
  run-Ready (request now k ∷ es) time t p w =
      run-Ready es now (allow now k t).1
        (record {
          set = allow-IsConfigured c r i rated now k t p.set;
          filled = allow-filled c r i rated time now k t p.set w.0 w.1 p.filled;
        })
        w.2
  run-Ready (tick now ∷ es) time t p w =
      run-Ready es now (cleanup now t) (cleanup-Ready time now t w.0 p) w.2

  -- The settings, and the bucket of a key as the events up to `time` have left it.
  Keeps : Str → ℕ → Limiter → Type 0
  Keeps key time t = IsConfigured c r i t × Stands (IsFilled c time) (lookup key t.buckets)

  cleanup-Keeps :
      (key : Str) (time now : ℕ) (t : Limiter) → Keeps key time t → Keeps key time (cleanup now t)
  unfolding cleanup Keeps
  cleanup-Keeps key time now t p = (
    p.0,
    rw (lookup-sweep (is_idle now) key t.buckets) (
        if-cases (Stands (IsFilled c time)) (holds (is_idle now) (lookup key t.buckets)) (λ _. tt)
          (λ _. p.1)),
  )

  -- Requests of other keys and ticks of cleanup leave the bucket, or drop it.
  run-Keeps :
      (key : Str) (time : ℕ) (es : List Event) (t : Limiter)
      → Spares key es
      → Keeps key time t
      → Keeps key time (run es t)
  unfolding Keeps
  run-Keeps key time [] t w p = p
  run-Keeps key time (request now k ∷ es) t w p =
      run-Keeps key time es (allow now k t).1 w.1
        (allow-IsConfigured c r i rated now k t p.0, rw (allow-other now k t key w.0) p.1)
  run-Keeps key time (tick now ∷ es) t w p =
      run-Keeps key time es (cleanup now t) w (cleanup-Keeps key time now t p)

  served :
      (time now : ℕ) (k : Str) (t : Limiter)
      → Keeps k time t
      → 0 < r
      → time + i ≤ now
      → now < 2 ^ 62
      → (allow now k t).0 ≡ some true
  unfolding Keeps
  served time now k t p positive waited small =
      allow-answer now k t ∙ elim (Option-cases (lookup k t.buckets)) [
        | inl gone ↦ rw (gone, spend-full c r i rated now t p.0 small) refl
        | inr (b, there) ↦ rw (there, due b (subst (Stands (IsFilled c time)) there p.1)) refl
      ]
    where
      gained : (b : Bucket) (f : IsFilled c time b) → 0 < since now b.last_check / i * r
      gained b f =
          let elapsed : i ≤ since now b.last_check =
            since_ge now b.last_check i (omega (arith, f.checked, f.accessed))
              rated.interval_small in
          omega (
            arith,
            positive,
            quotient_self i rated.interval_pos,
            quotient_mono i (since now b.last_check) i rated.interval_pos elapsed,
            scale_le 1 (since now b.last_check / i) r,
          )

      due : (b : Bucket) (f : IsFilled c time b) → (spend now t b).0 ≡ some true
      due b f =
          ap (λ (x : Option Bool × Bucket). x.0)
            (spend-due c r i rated t p.0 time now b f (omega arith) small (gained b f))

-- With a positive refill, after any sequence of calls and ticks of cleanup, a request for a key that
-- comes an interval or more after it is allowed, whatever calls for other keys and ticks of cleanup
-- come in between. In the sequence the clock does not run back; it and the capacity, which is
-- positive, stay below 2^62; there is at most one token a nanosecond.
pub allow-served :
    (c r i now : ℕ) (key : Str) (es others : List Event)
    → IsRated c r i
    → 0 < r
    → IsClocked 0 es
    → Spares key others
    → last_time 0 es + i ≤ now
    → now < 2 ^ 62
    → (allow now key
        (run others (run es (new_token_bucket_rate_limiter (pos c) (pos r) (pos i))))).0
      ≡ some true
unfolding lookup Keeps
allow-served c r i now key es others rated positive w spared waited small =
    let ready =
      run-Ready c r i rated es 0 t (record { set = (refl, refl, refl); filled = λ k. tt }) w in
    served c r i rated (last_time 0 es) now key (run others (run es t))
      (run-Keeps c r i rated key (last_time 0 es) others (run es t) spared
        (ready.set, ready.filled key))
      positive waited small
  where
    t : Limiter
    t = new_token_bucket_rate_limiter (pos c) (pos r) (pos i)
