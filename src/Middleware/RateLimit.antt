-- ===== src/Middleware/RateLimit.antt =====
-- internal/middleware/ratelimit.go: rateLimiter over the limiters of package golang.org/x/time/rate,
-- which are an interface, and CustomRateLimiter over a types.RateLimiter. A time is a number of
-- nanoseconds, read once a call. The `*rate.Limiter` that Allow mutates is written back to its entry.
pub mod Isolation
use discobox.Prelude.{
  Str, ℕ, Bool, true, false, List, [], ◌∷◌, Option, none, some, if◌then◌else◌, is_empty, ltb, text,
  str_eq,
}
use discobox.Prelude.Int.{ℤ, pos, negsuc}
use discobox.Prelude.Dict.{Dict, lookup, insert}
use discobox.Prelude.Sweep.{sweep}
use discobox.Middleware.TokenBucket.{since}
use discobox.Middleware.Runes.{string_of_rune}

-- rate.NewLimiter and Limiter.Allow.
pub record Rate (L : Type 0) : Type 0 where
  pub new_limiter : ℤ → ℤ → L
  pub allow : ℕ → L → Bool × L

pub record LimiterEntry (L : Type 0) : Type 0 where
  pub limiter : L
  pub last_access : ℕ

pub record RateLimiter (L Request : Type 0) : Type 0 where
  pub limiters : Dict Str (LimiterEntry L)
  pub rps : ℤ
  pub burst : ℤ
  pub key_func : Request → Str
  pub ttl : ℕ

-- `header` is Header.Get, `client_ip` is getClientIP.
abbrev pub rate_limit :
    {L Request : Type 0}
    → ℤ
    → ℤ
    → Str
    → (Request → Str → Str)
    → (Request → Str)
    → RateLimiter L Request
rate_limit rps burst by_header header client_ip = record {
  limiters = [];
  rps = rps;
  burst = burst;
  key_func = if is_empty by_header then client_ip else (λ r. header r by_header);
  ttl = 300_000_000_000;
}

abbrev pub is_stale : {L : Type 0} → ℕ → ℕ → LimiterEntry L → Bool
is_stale now ttl entry = ltb ttl (since now entry.last_access)

module _ {L Request : Type 0} (rate : Rate L) where
  abbrev pub put : Str → L → ℕ → RateLimiter L Request → RateLimiter L Request
  put key limiter now rl = record rl {
    limiters = insert key (record { limiter = limiter; last_access = now }) rl.limiters;
  }

  -- The limiter of an entry, or a new one.
  abbrev pub limiter_or : RateLimiter L Request → Option (LimiterEntry L) → L
  limiter_or rl none = rate.new_limiter rl.rps rl.burst
  limiter_or rl (some entry) = entry.limiter

  unfoldable pub get_limiter : ℕ → Str → RateLimiter L Request → L × RateLimiter L Request
  get_limiter now key rl =
      let limiter = limiter_or rl (lookup key rl.limiters) in (limiter, put key limiter now rl)

  -- Middleware: whether the request goes on to the next handler; else it is answered 429.
  unfoldable pub middleware : ℕ → Request → RateLimiter L Request → Bool × RateLimiter L Request
  middleware now r rl =
      let key = rl.key_func r in
      let g = get_limiter now key rl in
      let a = rate.allow now g.0 in if is_empty key then (true, rl) else (a.0, put key a.1 now g.1)

  unfoldable pub cleanup_stale : ℕ → RateLimiter L Request → RateLimiter L Request
  cleanup_stale now rl = record rl { limiters = sweep (is_stale now rl.ttl) rl.limiters }

-- types.RateLimiter on a state of its own; `wait` is whether Wait gives no error.
pub record Limits (S : Type 0) : Type 0 where
  pub allow : Str → S → Bool × S
  pub wait : Str → S → Bool × S
  pub limit : Str → S → ℤ

pub data Answer : Type 0 where
  forwarded : Answer
  -- Status 429 with the headers.
  limited : Dict Str Str → Answer

-- string(rune(n))
abbrev pub rune_text : ℤ → Str
rune_text (pos n) = string_of_rune n
rune_text (negsuc n) = string_of_rune 0xFFFD

abbrev pub limit_headers : ℤ → Dict Str Str
limit_headers n =
    (text "X-RateLimit-Limit", rune_text n)
    ∷ (text "X-RateLimit-Remaining", text "0")
    ∷ (text "Retry-After", text "1")
    ∷ []

module _ {S : Type 0} (limits : Limits S) where
  unfoldable pub after_wait : Str → Bool × S → Answer × S
  after_wait key w =
      if w.0 then (forwarded, w.1) else (limited (limit_headers (limits.limit key w.1)), w.1)

  unfoldable pub custom_middleware : Str → S → Answer × S
  custom_middleware key s =
      let a = limits.allow key s in
      if is_empty key
      then (forwarded, s)
      else if a.0
      then (forwarded, a.1)
      else after_wait key (limits.wait key a.1)
