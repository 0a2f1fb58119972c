-- ===== src/Middleware/TokenBucket.antt =====
-- internal/middleware/ratelimit.go: TokenBucketRateLimiter. A time is a number of nanoseconds on
-- the monotonic clock, which a call reads once. A result of `none` is a panic. A bucket that the
-- program mutates through its pointer is written back to the map.
pub mod Bounds
pub mod Cost
pub mod Calls
pub mod Window
pub mod Filled
pub mod Idle
pub mod Forgetting
pub mod Waiting
pub mod Ticks
use discobox.Prelude.{
  Str, ℕ, ◌-◌, ◌^◌, Bool, true, false, List, [], ◌∷◌, Option, none, some, if◌then◌else◌, ltb,
  str_eq,
}
use discobox.Prelude.Int.{ℤ, pos, ltb_ℤ, ◌+ℤ◌, ◌-ℤ◌, ◌*ℤ◌, quot, wrap64}
use discobox.Prelude.Dict.{Dict, lookup, insert}
use discobox.Prelude.Sweep.{sweep}

pub record Bucket : Type 0 where
  pub tokens : ℤ
  pub last_check : ℕ
  pub last_access : ℕ

pub record Limiter : Type 0 where
  pub buckets : Dict Str Bucket
  pub capacity : ℤ
  pub refill : ℤ
  pub interval : ℤ

abbrev pub new_token_bucket_rate_limiter : ℤ → ℤ → ℤ → Limiter
new_token_bucket_rate_limiter capacity refill_rate interval = record {
  buckets = [];
  capacity = capacity;
  refill = refill_rate;
  interval = interval;
}

unfoldable pub min : ℤ → ℤ → ℤ
min a b = if ltb_ℤ a b then a else b

-- now.Sub(earlier), which stops at the largest time.Duration.
unfoldable pub since : ℕ → ℕ → ℕ
since now earlier = let d = now - earlier in if ltb d (2 ^ 63) then d else 2 ^ 63 - 1

unfoldable pub get_bucket : ℕ → Str → Limiter → Bucket × Limiter
get_bucket now key t = elim (lookup key t.buckets) [
  | some bucket ↦ (bucket, t)
  | none ↦
      let bucket : Bucket = record { tokens = t.capacity; last_check = now; last_access = now } in
      (bucket, record t { buckets = insert key bucket t.buckets })
]

-- int(elapsed/t.interval) * t.refill
unfoldable pub tokens_to_add : ℕ → Limiter → Option ℤ
tokens_to_add elapsed t = elim (quot (pos elapsed) t.interval) [
  | none ↦ none
  | some n ↦ some (wrap64 (n *ℤ t.refill))
]

unfoldable pub add_tokens : ℕ → ℤ → ℤ → Bucket → Bucket
add_tokens now capacity n bucket =
    if ltb_ℤ (pos 0) n
    then record bucket { tokens = min (wrap64 (bucket.tokens +ℤ n)) capacity; last_check = now }
    else bucket

unfoldable pub take_token : Bucket → Bool × Bucket
take_token bucket =
    if ltb_ℤ (pos 0) bucket.tokens
    then (true, record bucket { tokens = bucket.tokens -ℤ pos 1 })
    else (false, bucket)

-- What Allow does with the number of tokens to add.
unfoldable pub refill_and_take : ℕ → ℤ → Option ℤ → Bucket → Option Bool × Bucket
refill_and_take now capacity none bucket = (none, bucket)
refill_and_take now capacity (some n) bucket =
    let r = take_token (add_tokens now capacity n bucket) in (some r.0, r.1)

-- Allow, from the lock of the bucket on.
unfoldable pub spend : ℕ → Limiter → Bucket → Option Bool × Bucket
spend now t bucket =
    refill_and_take now t.capacity (tokens_to_add (since now bucket.last_check) t)
      (record bucket { last_access = now })

unfoldable pub allow : ℕ → Str → Limiter → Option Bool × Limiter
allow now key t =
    let b = get_bucket now key t in
    let r = spend now b.1 b.0 in (r.0, record b.1 { buckets = insert key r.1 b.1.buckets })

-- The ticks of Wait's ticker that come before the context is done; `false` is its error.
unfoldable pub wait : List ℕ → Str → Limiter → Option Bool × Limiter
wait [] key t = (some false, t)
wait (now ∷ ticks) key t =
    let r = allow now key t in
    let rest = wait ticks key r.1 in
    elim r.0 [ none ↦ (none, r.1) | some ok ↦ if ok then (some true, r.1) else rest ]

unfoldable pub limit : Str → Limiter → ℤ
limit key t = t.capacity

-- 5 * time.Minute
abbrev pub ttl : ℕ
ttl = 300_000_000_000

abbrev pub is_idle : ℕ → Bucket → Bool
is_idle now bucket = ltb ttl (since now bucket.last_access)

-- One tick of cleanup.
unfoldable pub cleanup : ℕ → Limiter → Limiter
cleanup now t = record t { buckets = sweep (is_idle now) t.buckets }
