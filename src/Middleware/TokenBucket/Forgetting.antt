-- ===== src/Middleware/TokenBucket/Forgetting.antt =====
-- internal/middleware/ratelimit.go: cleanup cannot be observed.
use discobox.Prelude.{
  Str, ℕ, ◌*◌, ◌/◌, ◌^◌, ◌≤◌, ◌<◌, ◌≡◌, refl, sym, ap, ◌∙◌, ◌⊎◌, inl, inr, Bool, true, List, [],
  ◌∷◌, Option, none, some, if◌then◌else◌, str_eq, arith, Option-cases, Bool-cases, beq-cases, subst,
}
use discobox.Prelude.Int.{ℤ, pos}
use discobox.Prelude.Dict.{lookup}
use discobox.Prelude.Ranges.{holds}
use discobox.Prelude.Sweep.{lookup-sweep}
use discobox.Middleware.TokenBucket.{
  Bucket, Limiter, since, ttl, is_idle, spend, tokens_to_add, allow, cleanup,
  new_token_bucket_rate_limiter,
}
use discobox.Middleware.TokenBucket.Filled.{IsFilled, IsRated, IsConfigured, spend-IsFilled}
use discobox.Middleware.TokenBucket.Idle.{full_bucket-IsFilled, spend-idle}
use discobox.Middleware.TokenBucket.Calls.{
  Event, request, tick, full_bucket, bucket_of, stored_or, stored_or-Stands, allow-answer,
  allow-own, allow-other, allow-settings, allow-key, Stands,
}

abbrev pub time_of : Event → ℕ
time_of (request now key) = now
time_of (tick now) = now

-- The clock does not run back, and stays below 2^62 nanoseconds.
abbrev pub IsClocked : ℕ → List Event → Type 0
IsClocked time [] = Unit
IsClocked time (e ∷ es) = (time ≤ time_of e) × (time_of e < 2 ^ 62) × IsClocked (time_of e) es

-- What the calls of Allow answer.
abbrev pub answers : List Event → Limiter → List (Option Bool)
answers [] t = []
answers (request now key ∷ es) t = (allow now key t).0 ∷ answers es (allow now key t).1
answers (tick now ∷ es) t = answers es (cleanup now t)

-- The calls without the ticks of cleanup.
abbrev pub requests : List Event → List Event
requests [] = []
requests (request now key ∷ es) = request now key ∷ requests es
requests (tick now ∷ es) = requests es

-- The entry of a limiter that may have forgotten it, and that of one that forgets nothing.
abbrev pub Agrees : ℕ → Option Bucket → Option Bucket → Type 0
Agrees time o kept = (o ≡ kept) ⊎ ((o ≡ none) × (holds (is_idle time) kept ≡ true))

is_idle-later : (a b : ℕ) (w : Bucket) → a ≤ b → is_idle a w ≡ true → is_idle b w ≡ true
unfolding since
is_idle-later a b w h g = ground arith

Agrees-later : (a b : ℕ) (o kept : Option Bucket) → a ≤ b → Agrees a o kept → Agrees b o kept
unfolding since
Agrees-later a b o none h g = ground arith
Agrees-later a b o (some w) h g = ground arith

Agrees-sweep :
    (time : ℕ) (o kept : Option Bucket)
    → Agrees time o kept
    → Agrees time (if holds (is_idle time) o then none else o) kept
Agrees-sweep time o kept (inl p) = elim (Bool-cases (holds (is_idle time) o)) [
  | inl t ↦ rw t (inr (refl, rw (sym p) t))
  | inr f ↦ rw f (inl p)
]
Agrees-sweep time o kept (inr (p, q)) = rw p (inr (refl, q))

spend-set :
    (c r i now : ℕ) (t u : Limiter) (b : Bucket)
    → IsConfigured c r i t
    → IsConfigured c r i u
    → spend now t b ≡ spend now u b
unfolding spend tokens_to_add
spend-set c r i now t u b s v = rw (s.0, s.1, s.2, v.0, v.1, v.2) refl

module _ (c r i : ℕ) (rated : IsRated c r i) where
  pub record Tracks (time : ℕ) (t u : Limiter) : Type 0 where
    pub set : IsConfigured c r i t
    pub kept_set : IsConfigured c r i u
    pub filled : (k : Str) → Stands (IsFilled c time) (lookup k u.buckets)
    pub agrees : (k : Str) → Agrees time (lookup k t.buckets) (lookup k u.buckets)

  pub IsFilled-later :
      (a b : ℕ) (o : Option Bucket) → a ≤ b → Stands (IsFilled c a) o → Stands (IsFilled c b) o
  IsFilled-later a b none h f = tt
  IsFilled-later a b (some w) h f = record {
    held = f.held;
    tokens = f.tokens;
    held_le = f.held_le;
    checked = f.checked;
    accessed = omega (arith, f.accessed, h);
  }

  pub allow-IsConfigured :
      (now : ℕ) (k : Str) (t : Limiter)
      → IsConfigured c r i t
      → IsConfigured c r i (allow now k t).1
  allow-IsConfigured now k t s = let e = allow-settings now k t in (e.0 ∙ s.0, e.1 ∙ s.1, e.2 ∙ s.2)

  pub bucket_of-IsFilled :
      (time now : ℕ) (k : Str) (u : Limiter)
      → IsConfigured c r i u
      → time ≤ now
      → Stands (IsFilled c time) (lookup k u.buckets)
      → IsFilled c now (bucket_of now k u)
  bucket_of-IsFilled time now k u s h f =
      stored_or-Stands (IsFilled c now) (full_bucket now u) (lookup k u.buckets)
        (full_bucket-IsFilled c r i rated now u s)
        (IsFilled-later time now (lookup k u.buckets) h f)

  pub allow-filled :
      (time now : ℕ) (k : Str) (u : Limiter)
      → IsConfigured c r i u
      → time ≤ now
      → now < 2 ^ 62
      → ((j : Str) → Stands (IsFilled c time) (lookup j u.buckets))
      → (j : Str) → Stands (IsFilled c now) (lookup j (allow now k u).1.buckets)
  allow-filled time now k u s h small f j = elim (beq-cases k j) [
    | inl (p, e) ↦ rw ((allow-key now k j u p).1) (
        spend-IsFilled c r i rated u s now now (bucket_of now j u)
          (bucket_of-IsFilled time now j u s h (f j)) (omega arith) small)
    | inr (n, e) ↦
        rw (allow-other now k u j n) (IsFilled-later time now (lookup j u.buckets) h (f j))
  ]

  -- A call gives the same with the entry that was forgotten as with the one that was kept.
  same_spend :
      (time now : ℕ) (k : Str) (t u : Limiter)
      → Tracks time t u
      → time ≤ now
      → now < 2 ^ 62
      → c ≤ ttl / i * r
      → spend now t (bucket_of now k t) ≡ spend now u (bucket_of now k u)
  same_spend time now k t u h later small full = elim (h.agrees k) [
    | inl p ↦
        spend-set c r i now t u (bucket_of now k t) h.set h.kept_set
        ∙ ap (spend now u) (
            ap (λ d. stored_or (full_of d) (lookup k t.buckets)) (h.set.0 ∙ sym h.kept_set.0)
            ∙ ap (stored_or (full_bucket now u)) p)
    | inr (p, q) ↦ forgotten p q
  ]
    where
      full_of : ℤ → Bucket
      full_of d = record { tokens = d; last_check = now; last_access = now }

      same_full : spend now t (full_bucket now t) ≡ spend now u (full_bucket now u)
      same_full =
          spend-set c r i now t u (full_bucket now t) h.set h.kept_set
          ∙ ap (λ d. spend now u (full_of d)) (h.set.0 ∙ sym h.kept_set.0)

      forgotten :
          lookup k t.buckets ≡ none
          → holds (is_idle time) (lookup k u.buckets) ≡ true
          → spend now t (bucket_of now k t) ≡ spend now u (bucket_of now k u)
      forgotten p q = elim (Option-cases (lookup k u.buckets)) [
        | inl z ↦ absurd (cc (z, q))
        | inr (b, e) ↦
            rw (p, e)
              (same_full
                ∙ sym (
                    spend-idle c r i rated time now u h.kept_set b
                      (subst (Stands (IsFilled c time)) e (h.filled k)) later small full
                      (is_idle-later time now b later
                        (subst (λ o. holds (is_idle time) o ≡ true) e q))))
      ]

  pub allow-Tracks :
      (time now : ℕ) (k : Str) (t u : Limiter)
      → Tracks time t u
      → time ≤ now
      → now < 2 ^ 62
      → c ≤ ttl / i * r
      → ((allow now k t).0 ≡ (allow now k u).0) × Tracks now (allow now k t).1 (allow now k u).1
  allow-Tracks time now k t u h later small full =
      let same = same_spend time now k t u h later small full in
      (
        allow-answer now k t
            ∙ ap (λ (x : Option Bool × Bucket). x.0) same
            ∙ sym (allow-answer now k u),
        record {
          set = allow-IsConfigured now k t h.set;
          kept_set = allow-IsConfigured now k u h.kept_set;
          filled = allow-filled time now k u h.kept_set later small h.filled;
          agrees = λ j. elim (beq-cases k j) [
            | inl (p, e) ↦ inl (own j p same)
            | inr (n, e) ↦
                rw (allow-other now k t j n, allow-other now k u j n)
                  (Agrees-later time now (lookup j t.buckets) (lookup j u.buckets) later
                    (h.agrees j))
          ];
        },
      )
    where
      own :
          (j : Str)
          → k ≡ j
          → spend now t (bucket_of now k t) ≡ spend now u (bucket_of now k u)
          → lookup j (allow now k t).1.buckets ≡ lookup j (allow now k u).1.buckets
      own j p same = rw (sym p) (
          allow-own now k t
          ∙ ap (λ (x : Option Bool × Bucket). some x.1) same
          ∙ sym (allow-own now k u))

  pub cleanup-Tracks :
      (time now : ℕ) (t u : Limiter) → Tracks time t u → time ≤ now → Tracks now (cleanup now t) u
  unfolding cleanup
  cleanup-Tracks time now t u h later = record {
    set = h.set;
    kept_set = h.kept_set;
    filled = λ j. IsFilled-later time now (lookup j u.buckets) later (h.filled j);
    agrees = λ j. rw (lookup-sweep (is_idle now) j t.buckets) (
        Agrees-sweep now (lookup j t.buckets) (lookup j u.buckets)
          (Agrees-later time now (lookup j t.buckets) (lookup j u.buckets) later (h.agrees j)));
  }

  answers-Tracks :
      (es : List Event) (time : ℕ) (t u : Limiter)
      → Tracks time t u
      → IsClocked time es
      → c ≤ ttl / i * r
      → answers es t ≡ answers (requests es) u
  answers-Tracks [] time t u h w full = refl
  answers-Tracks (request now k ∷ es) time t u h w full =
      let s = allow-Tracks time now k t u h w.0 w.1 full in
      rw s.0 (
        ap (λ rest. (allow now k u).0 ∷ rest)
          (answers-Tracks es now (allow now k t).1 (allow now k u).1 s.1 w.2 full))
  answers-Tracks (tick now ∷ es) time t u h w full =
      answers-Tracks es now (cleanup now t) u (cleanup-Tracks time now t u h w.0) w.2 full

-- Where the five minutes of an idle bucket are enough to fill it up, the answers of Allow in any
-- sequence of calls and ticks of cleanup are those of the same calls without the ticks. The clock
-- does not run back, and it and the capacity, which is positive, stay below 2^62; there is at most
-- one token a nanosecond.
pub answers-requests :
    (c r i : ℕ) (es : List Event)
    → IsRated c r i
    → IsClocked 0 es
    → c ≤ ttl / i * r
    → answers es (new_token_bucket_rate_limiter (pos c) (pos r) (pos i))
      ≡ answers (requests es) (new_token_bucket_rate_limiter (pos c) (pos r) (pos i))
unfolding lookup
answers-requests c r i es rated w full =
    answers-Tracks c r i rated es 0 t t
      (record {
        set = (refl, refl, refl);
        kept_set = (refl, refl, refl);
        filled = λ k. tt;
        agrees = λ k. inl refl;
      })
      w full
  where
    t : Limiter
    t = new_token_bucket_rate_limiter (pos c) (pos r) (pos i)
