-- ===== src/Middleware/TokenBucket/Ticks.antt =====
-- internal/middleware/ratelimit.go: what TokenBucketRateLimiter allows a key within a window of time
-- in which its cleanup may run.
use discobox.Prelude.{
  Str, ℕ, ◌+◌, ◌-◌, ◌*◌, ◌/◌, ◌≤◌, ◌≡◌, refl, ◌⊎◌, inl, inr, List, [], ◌∷◌, if◌then◌else◌, ◌==◌,
  str_eq, arith, All,
}
use discobox.Prelude.Int.{pos}
use discobox.Prelude.Dict.{lookup}
use discobox.Middleware.TokenBucket.{Limiter, ttl, allow, cleanup, new_token_bucket_rate_limiter}
use discobox.Middleware.TokenBucket.Bounds.{used, IsInt64}
use discobox.Middleware.TokenBucket.Filled.{IsRated}
use discobox.Middleware.TokenBucket.Calls.{Event, request, tick, run}
use discobox.Middleware.TokenBucket.Window.{allowed_of, IsWithin, allowed_of-window}
use discobox.Middleware.TokenBucket.Forgetting.{
  IsClocked, time_of, requests, Tracks, allow-Tracks, cleanup-Tracks,
}
use discobox.Middleware.TokenBucket.Waiting.{last_time}

-- How many of the requests are allowed to `key`.
abbrev pub allowed_in : Str → List Event → Limiter → ℕ
allowed_in key [] t = 0
allowed_in key (request now k ∷ es) t =
    let rest = allowed_in key es (allow now k t).1 in
    if k == key then used (allow now k t).0 + rest else rest
allowed_in key (tick now ∷ es) t = allowed_in key es (cleanup now t)

abbrev calls_of : List Event → List (ℕ × Str)
calls_of [] = []
calls_of (request now k ∷ es) = (now, k) ∷ calls_of es
calls_of (tick now ∷ es) = calls_of es

abbrev pub IsDuring : ℕ → ℕ → List Event → Type 0
IsDuring start finish es = All (λ e. (start ≤ time_of e) × (time_of e ≤ finish)) es

abbrev pub HasNoTick : List Event → Type 0
HasNoTick [] = Unit
HasNoTick (request now k ∷ es) = HasNoTick es
HasNoTick (tick now ∷ es) = ⊥

calls_of-IsWithin :
    (start finish : ℕ) (es : List Event)
    → IsDuring start finish es
    → IsWithin start finish (calls_of es)
calls_of-IsWithin start finish [] h = tt
calls_of-IsWithin start finish (request now k ∷ es) h = (h.0, calls_of-IsWithin start finish es h.1)
calls_of-IsWithin start finish (tick now ∷ es) h = calls_of-IsWithin start finish es h.1

allowed_in-HasNoTick :
    (key : Str) (es : List Event) (t : Limiter)
    → HasNoTick es
    → allowed_in key es t ≡ allowed_of key (calls_of es) t
allowed_in-HasNoTick key [] t h = refl
allowed_in-HasNoTick key (request now k ∷ es) t h =
    rw (allowed_in-HasNoTick key es (allow now k t).1 h) refl
allowed_in-HasNoTick key (tick now ∷ es) t h = absurd h

module _ (c r i : ℕ) (rated : IsRated c r i) (full : c ≤ ttl / i * r) where
  run-Tracks :
      (es : List Event) (time : ℕ) (t u : Limiter)
      → Tracks c r i rated time t u
      → IsClocked time es
      → Tracks c r i rated (last_time time es) (run es t) (run (requests es) u)
  run-Tracks [] time t u h w = h
  run-Tracks (request now k ∷ es) time t u h w =
      run-Tracks es now (allow now k t).1 (allow now k u).1
        (allow-Tracks c r i rated time now k t u h w.0 w.1 full).1 w.2
  run-Tracks (tick now ∷ es) time t u h w =
      run-Tracks es now (cleanup now t) u (cleanup-Tracks c r i rated time now t u h w.0) w.2

  allowed_in-Tracks :
      (key : Str) (es : List Event) (time : ℕ) (t u : Limiter)
      → Tracks c r i rated time t u
      → IsClocked time es
      → allowed_in key es t ≡ allowed_of key (calls_of es) u
  allowed_in-Tracks key [] time t u h w = refl
  allowed_in-Tracks key (request now k ∷ es) time t u h w =
      let s = allow-Tracks c r i rated time now k t u h w.0 w.1 full in
      rw (s.0, allowed_in-Tracks key es now (allow now k t).1 (allow now k u).1 s.1 w.2) refl
  allowed_in-Tracks key (tick now ∷ es) time t u h w =
      allowed_in-Tracks key es now (cleanup now t) u (cleanup-Tracks c r i rated time now t u h w.0)
        w.2

-- Within a window of time, after any history, and between any requests of other keys, the requests
-- that are allowed to a key are at most the capacity and the refills of the window's length and one
-- interval more; all of it times the interval, so that no division rounds. Ticks of cleanup may fall
-- into the window where the five minutes of an idle bucket are enough to fill it up; otherwise there
-- is none in it. The clock does not run back, and it and the capacity, which is positive, stay below
-- 2^62; there is at most one token a nanosecond.
pub allowed_in-window :
    (c r i start finish : ℕ) (key : Str) (history es : List Event)
    → IsRated c r i
    → IsClocked 0 history
    → IsClocked (last_time 0 history) es
    → IsDuring start finish es
    → (c ≤ ttl / i * r) ⊎ HasNoTick es
    → allowed_in key es (run history (new_token_bucket_rate_limiter (pos c) (pos r) (pos i))) * i
      ≤ c * i + r * (finish - start + i)
unfolding lookup
allowed_in-window c r i start finish key history es rated before clocked during ticks = elim ticks [
  | inl full ↦
      rw
        (allowed_in-Tracks c r i rated full key es (last_time 0 history) (run history t)
          (run (requests history) t)
          (run-Tracks c r i rated full history 0 t t
            (record {
              set = (refl, refl, refl);
              kept_set = (refl, refl, refl);
              filled = λ k. tt;
              agrees = λ k. inl refl;
            })
            before)
          clocked)
        (bound (requests history))
  | inr none_in ↦ rw (allowed_in-HasNoTick key es (run history t) none_in) (bound history)
]
  where
    t : Limiter
    t = new_token_bucket_rate_limiter (pos c) (pos r) (pos i)

    fits : IsInt64 (pos c)
    fits = (omega (arith, rated.capacity_small), omega arith)

    bound :
        (past : List Event)
        → allowed_of key (calls_of es) (run past t) * i ≤ c * i + r * (finish - start + i)
    bound past =
        allowed_of-window (pos c) r i start finish key past (calls_of es) fits rated.interval_pos
          rated.interval_small rated.refill_le (calls_of-IsWithin start finish es during)
