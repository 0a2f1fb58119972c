-- ===== src/Middleware/TokenBucket/Calls.antt =====
-- internal/middleware/ratelimit.go: sequences of calls of TokenBucketRateLimiter and ticks of its
-- cleanup, and what they keep.
use discobox.Prelude.{
  Str, ℕ, ◌≡◌, ◌≢◌, refl, ◌∙◌, List, [], ◌∷◌, Option, none, some, str_eq, arith, Option-cases, inl,
  inr, beq-cases, subst, if-cases,
}
use discobox.Prelude.Int.{ℤ}
use discobox.Prelude.Dict.{Dict, lookup, insert, lookup-insert_self, lookup-insert_ne}
use discobox.Prelude.Sweep.{lookup-sweep}
use discobox.Prelude.Ranges.{holds}
use discobox.Middleware.TokenBucket.{
  Bucket, Limiter, get_bucket, add_tokens, spend, allow, cleanup, is_idle, tokens_to_add, since,
  refill_and_take,
}
use discobox.Middleware.TokenBucket.Bounds.{
  IsInt64, IsBounded, add_tokens-IsBounded, take_token-IsBounded,
}

pub data Event : Type 0 where
  request : ℕ → Str → Event
  tick : ℕ → Event

abbrev pub step : Event → Limiter → Limiter
step (request now key) t = (allow now key t).1
step (tick now) t = cleanup now t

abbrev pub run : List Event → Limiter → Limiter
run [] t = t
run (e ∷ es) t = run es (step e t)

-- The bucket that a key has at its first request.
abbrev pub full_bucket : ℕ → Limiter → Bucket
full_bucket now t = record { tokens = t.capacity; last_check = now; last_access = now }

spend-settings :
    (now : ℕ) (t : Limiter) (m : Dict Str Bucket) (b : Bucket)
    → spend now (record t { buckets = m }) b ≡ spend now t b
unfolding spend tokens_to_add
spend-settings now t m b = refl

get_bucket-stored :
    (now : ℕ) (key : Str) (t : Limiter) {b : Bucket}
    → lookup key t.buckets ≡ some b
    → get_bucket now key t ≡ (b, t)
unfolding get_bucket
get_bucket-stored now key t there = ground (arith, there)

get_bucket-new :
    (now : ℕ) (key : Str) (t : Limiter)
    → lookup key t.buckets ≡ none
    → get_bucket now key t
      ≡ (full_bucket now t, record t { buckets = insert key (full_bucket now t) t.buckets })
unfolding get_bucket
get_bucket-new now key t gone = ground (arith, gone)

pub allow-stored :
    (now : ℕ) (key : Str) (t : Limiter) {b : Bucket}
    → lookup key t.buckets ≡ some b
    → allow now key t
      ≡ ((spend now t b).0, record t { buckets = insert key (spend now t b).1 t.buckets })
unfolding allow
allow-stored now key t there = rw (get_bucket-stored now key t there) refl

pub allow-new :
    (now : ℕ) (key : Str) (t : Limiter)
    → lookup key t.buckets ≡ none
    → allow now key t ≡ (
      (spend now t (full_bucket now t)).0,
      record t {
        buckets =
            insert key
              (spend now t (full_bucket now t)).1
              (insert key (full_bucket now t) t.buckets);
      },
    )
unfolding allow
allow-new now key t gone =
    rw
      (
        get_bucket-new now key t gone,
        spend-settings now t (insert key (full_bucket now t) t.buckets) (full_bucket now t),
      )
      refl

abbrev pub stored_or {ℓ} : {A : Type ℓ} → A → Option A → A
stored_or a none = a
stored_or a (some b) = b

-- The bucket that Allow works on: the stored one, or a full one.
abbrev pub bucket_of : ℕ → Str → Limiter → Bucket
bucket_of now key t = stored_or (full_bucket now t) (lookup key t.buckets)

module _ (now : ℕ) (key : Str) (t : Limiter) where
  pub allow-answer : (allow now key t).0 ≡ (spend now t (bucket_of now key t)).0
  allow-answer = elim (Option-cases (lookup key t.buckets)) [
    | inl gone ↦ rw (allow-new now key t gone, gone) refl
    | inr (b, there) ↦ rw (allow-stored now key t there, there) refl
  ]

  pub allow-own :
      lookup key (allow now key t).1.buckets ≡ some (spend now t (bucket_of now key t)).1
  allow-own = elim (Option-cases (lookup key t.buckets)) [
    | inl gone ↦
        rw (allow-new now key t gone, gone)
          (lookup-insert_self key (spend now t (full_bucket now t)).1
            (insert key (full_bucket now t) t.buckets))
    | inr (b, there) ↦
        rw (allow-stored now key t there, there)
          (lookup-insert_self key (spend now t b).1 t.buckets)
  ]

  pub allow-other :
      (other : Str)
      → key ≢ other
      → lookup other (allow now key t).1.buckets ≡ lookup other t.buckets
  allow-other other n = elim (Option-cases (lookup key t.buckets)) [
    | inl gone ↦ rw (allow-new now key t gone) (
        lookup-insert_ne key other (spend now t (full_bucket now t)).1
          (insert key (full_bucket now t) t.buckets) n
        ∙ lookup-insert_ne key other (full_bucket now t) t.buckets n)
    | inr (b, there) ↦
        rw (allow-stored now key t there) (lookup-insert_ne key other (spend now t b).1 t.buckets n)
  ]

  pub allow-settings :
      ((allow now key t).1.capacity ≡ t.capacity)
      × ((allow now key t).1.refill ≡ t.refill)
      × ((allow now key t).1.interval ≡ t.interval)
  allow-settings = elim (Option-cases (lookup key t.buckets)) [
    | inl gone ↦ rw (allow-new now key t gone) (refl, refl, refl)
    | inr (b, there) ↦ rw (allow-stored now key t there) (refl, refl, refl)
  ]

pub spend-IsBounded :
    (now : ℕ) (t : Limiter) (b : Bucket)
    → IsInt64 t.capacity
    → IsBounded t.capacity b
    → IsBounded t.capacity (spend now t b).1
unfolding spend refill_and_take
spend-IsBounded now t b fits h = taken (tokens_to_add (since now b.last_check) t)
  where
    touched : Bucket
    touched = record b { last_access = now }

    taken : (o : Option ℤ) → IsBounded t.capacity (refill_and_take now t.capacity o touched).1
    taken none = h
    taken (some n) =
        take_token-IsBounded t.capacity fits (add_tokens now t.capacity n touched)
          (add_tokens-IsBounded t.capacity fits now n touched h)

-- `Stands P o`: what is stored, if anything, satisfies `P`.
abbrev pub Stands {ℓ κ} : {A : Type ℓ} → (A → Type κ) → Option A → Type κ
Stands P none = Unit
Stands P (some a) = P a

pub stored_or-Stands {ℓ κ} :
    {A : Type ℓ} (P : A → Type κ) (a : A) (o : Option A) → P a → Stands P o → P (stored_or a o)
stored_or-Stands P a none h s = h
stored_or-Stands P a (some b) h s = s

-- A limiter of capacity `c` whose bucket of `key`, if there is one, is within it.
abbrev pub Holds : ℤ → Str → Limiter → Type 0
Holds c key t = (t.capacity ≡ c) × Stands (IsBounded c) (lookup key t.buckets)

module _ (c : ℤ) (fits : IsInt64 c) (key : Str) where
  full_bucket-IsBounded : (now : ℕ) (t : Limiter) → t.capacity ≡ c → IsBounded c (full_bucket now t)
  full_bucket-IsBounded now t e = ground (arith, e, fits)

  pub bucket_of-IsBounded :
      (now : ℕ) (t : Limiter) → Holds c key t → IsBounded c (bucket_of now key t)
  bucket_of-IsBounded now t h =
      stored_or-Stands (IsBounded c) (full_bucket now t) (lookup key t.buckets)
        (full_bucket-IsBounded now t h.0) h.1

  pub spend_keeps :
      (now : ℕ) (t : Limiter) (b : Bucket)
      → t.capacity ≡ c
      → IsBounded c b
      → IsBounded c (spend now t b).1
  spend_keeps now t b e h =
      subst (λ d. IsBounded d (spend now t b).1) e (spend-IsBounded now t b (rw e fits) (rw e h))

  pub allow_keeps :
      (now : ℕ) (k : Str) (t : Limiter) → Holds c key t → Holds c key (allow now k t).1
  allow_keeps now k t h = elim (beq-cases k key) [
    | inl (p, b) ↦ (
      (allow-settings now k t).0 ∙ h.0,
      subst (λ j. Stands (IsBounded c) (lookup j (allow now k t).1.buckets)) p
          (rw (allow-own now k t)
            (spend_keeps now t (bucket_of now k t) h.0 (rw p (bucket_of-IsBounded now t h)))),
    )
    | inr (n, b) ↦ ((allow-settings now k t).0 ∙ h.0, rw (allow-other now k t key n) h.1)
  ]

  cleanup_keeps : (now : ℕ) (t : Limiter) → Holds c key t → Holds c key (cleanup now t)
  unfolding cleanup
  cleanup_keeps now t h = (
    h.0,
    rw (lookup-sweep (is_idle now) key t.buckets) (
        if-cases (Stands (IsBounded c)) (holds (is_idle now) (lookup key t.buckets)) (λ _. tt)
          (λ _. h.1)),
  )

  pub run-Holds : (es : List Event) (t : Limiter) → Holds c key t → Holds c key (run es t)
  run-Holds [] t h = h
  run-Holds (request now k ∷ es) t h = run-Holds es (allow now k t).1 (allow_keeps now k t h)
  run-Holds (tick now ∷ es) t h = run-Holds es (cleanup now t) (cleanup_keeps now t h)

pub allow-key :
    (now : ℕ) (k key : Str) (t : Limiter)
    → k ≡ key
    → ((allow now k t).0 ≡ (spend now t (bucket_of now key t)).0)
      × (lookup key (allow now k t).1.buckets ≡ some (spend now t (bucket_of now key t)).1)
allow-key now k key t p = rw p (allow-answer now key t, allow-own now key t)

pub run-settings :
    (es : List Event) (t : Limiter)
    → ((run es t).refill ≡ t.refill) × ((run es t).interval ≡ t.interval)
unfolding cleanup
run-settings [] t = (refl, refl)
run-settings (request now k ∷ es) t =
    let r = run-settings es (allow now k t).1 in
    let e = allow-settings now k t in (r.0 ∙ e.1, r.1 ∙ e.2)
run-settings (tick now ∷ es) t = run-settings es (cleanup now t)
