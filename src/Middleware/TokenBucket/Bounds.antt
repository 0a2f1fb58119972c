-- ===== src/Middleware/TokenBucket/Bounds.antt =====
-- internal/middleware/ratelimit.go: how many tokens a bucket of TokenBucketRateLimiter holds.
use discobox.Prelude.{
  ℕ, ◌+◌, ◌-◌, ◌^◌, ◌≤◌, ◌<◌, ◌≡◌, Bool, Option, none, some, if◌then◌else◌, str_eq, arith,
  Bool-cases, inl, inr,
}
use discobox.Prelude.Int.{ℤ, pos, negsuc, pos_part, neg_part, ltb_ℤ, ◌+ℤ◌, ◌-ℤ◌, ◌≤ℤ◌, wrap64}
use discobox.Middleware.TokenBucket.{Bucket, min, since, add_tokens, take_token}

-- What a call uses of the bucket.
abbrev pub used : Option Bool → ℕ
used none = 0
used (some ok) = if ok then 1 else 0

-- The range of a Go int.
abbrev pub IsInt64 : ℤ → Type 0
IsInt64 z = (pos_part z < 2 ^ 63) × (neg_part z ≤ 2 ^ 63)

abbrev pub IsBounded : ℤ → Bucket → Type 0
IsBounded capacity b = (b.tokens ≤ℤ capacity) × IsInt64 b.tokens

pub wrap64-IsInt64 : (z : ℤ) → IsInt64 (wrap64 z)
unfolding wrap64
wrap64-IsInt64 (pos n) = ground arith
wrap64-IsInt64 (negsuc n) = ground arith

pub wrap64_le : (z : ℤ) → neg_part z ≤ 2 ^ 63 → pos_part (wrap64 z) ≤ pos_part z
unfolding wrap64
wrap64_le (pos n) h = ground arith
wrap64_le (negsuc n) h = ground arith

pub wrap64_fits : (n : ℕ) → n < 2 ^ 63 → wrap64 (pos n) ≡ pos n
unfolding wrap64
wrap64_fits n h = ground arith

pub since_le : (now earlier : ℕ) → since now earlier ≤ now - earlier
unfolding since
since_le now earlier = ground arith

pub min_le : (a b : ℤ) → min a b ≤ℤ b
unfolding min
min_le a b = ground arith

pub pos_part-min : (a b : ℤ) → pos_part (min a b) ≤ pos_part a
unfolding min
pos_part-min a b = ground arith

pub min-IsInt64 : (a b : ℤ) → IsInt64 a → IsInt64 b → IsInt64 (min a b)
unfolding min
min-IsInt64 a b ha hb = ground arith

module _ (capacity : ℤ) (fits : IsInt64 capacity) where
  pub add_tokens-IsBounded :
      (now : ℕ) (n : ℤ) (b : Bucket)
      → IsBounded capacity b
      → IsBounded capacity (add_tokens now capacity n b)
  unfolding add_tokens
  add_tokens-IsBounded now n b h = elim (Bool-cases (ltb_ℤ (pos 0) n)) [
    | inl t ↦ rw t (
      min_le (wrap64 (b.tokens +ℤ n)) capacity,
      min-IsInt64 (wrap64 (b.tokens +ℤ n)) capacity (wrap64-IsInt64 (b.tokens +ℤ n)) fits,
    )
    | inr f ↦ rw f h
  ]

  pub take_token-IsBounded :
      (b : Bucket) → IsBounded capacity b → IsBounded capacity (take_token b).1
  unfolding take_token ◌-ℤ◌
  take_token-IsBounded b h = ground arith

-- A refill adds at most its tokens.
pub add_tokens_le :
    (now : ℕ) (capacity n : ℤ) (b : Bucket)
    → IsInt64 b.tokens
    → pos_part (add_tokens now capacity n b).tokens ≤ pos_part b.tokens + pos_part n
unfolding add_tokens ◌+ℤ◌
add_tokens_le now capacity n b h =
    ground (arith, pos_part-min (wrap64 (b.tokens +ℤ n)) capacity, wrap64_le (b.tokens +ℤ n))
