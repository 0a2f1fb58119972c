-- ===== src/Middleware/RateLimit/Isolation.antt =====
-- internal/middleware/ratelimit.go: no client of rateLimiter can spend what another one may.
use discobox.Prelude.{
  Str, ℕ, ◌≡◌, ◌≢◌, refl, sym, ap, ◌∙◌, Bool, true, false, List, [], ◌∷◌, Option, none, some,
  if◌then◌else◌, is_empty, str_eq, ◌==◌, beq-cases, Bool-cases, inl, inr,
}
use discobox.Prelude.Dict.{lookup, lookup-insert_self, lookup-insert_ne}
use discobox.Prelude.Sweep.{lookup-sweep}
use discobox.Middleware.RateLimit.{
  Rate, LimiterEntry, RateLimiter, limiter_or, get_limiter, middleware, is_stale, cleanup_stale,
}

pub data Event (Request : Type 0) : Type 0 where
  request : ℕ → Request → Event Request
  tick : ℕ → Event Request

module _ {L Request : Type 0} (rate : Rate L) where
  abbrev pub step : Event Request → RateLimiter L Request → RateLimiter L Request
  step (request now r) rl = (middleware rate now r rl).1
  step (tick now) rl = cleanup_stale rate now rl

  -- The answers to the requests of one key.
  abbrev pub answers_to : Str → List (Event Request) → RateLimiter L Request → List Bool
  answers_to key [] rl = []
  answers_to key (request now r ∷ es) rl =
      let rest = answers_to key es (middleware rate now r rl).1 in
      if rl.key_func r == key then (middleware rate now r rl).0 ∷ rest else rest
  answers_to key (tick now ∷ es) rl = answers_to key es (cleanup_stale rate now rl)

  -- The events without the requests of other keys.
  abbrev pub only : (Request → Str) → Str → List (Event Request) → List (Event Request)
  only key_func key [] = []
  only key_func key (request now r ∷ es) =
      let rest = only key_func key es in if key_func r == key then request now r ∷ rest else rest
  only key_func key (tick now ∷ es) = tick now ∷ only key_func key es

  -- Two limiters that are the same for a key.
  record Alike (key : Str) (a b : RateLimiter L Request) : Type 0 where
    rps : a.rps ≡ b.rps
    burst : a.burst ≡ b.burst
    key_func : a.key_func ≡ b.key_func
    ttl : a.ttl ≡ b.ttl
    entry : lookup key a.limiters ≡ lookup key b.limiters

  -- A request of another key.
  other-Alike :
      (key : Str) (now : ℕ) (r : Request) (a b : RateLimiter L Request)
      → (a.key_func r ≢ key)
      → Alike key a b
      → Alike key (middleware rate now r a).1 b
  unfolding middleware get_limiter
  other-Alike key now r a b n h = elim (Bool-cases (is_empty (a.key_func r))) [
    | inl t ↦ rw t h
    | inr f ↦ rw f (record {
      rps = h.rps;
      burst = h.burst;
      key_func = h.key_func;
      ttl = h.ttl;
      entry =
          lookup-insert_ne (a.key_func r) key
            (record {
              limiter = (rate.allow now (limiter_or rate a (lookup (a.key_func r) a.limiters))).1;
              last_access = now;
            })
            (get_limiter rate now (a.key_func r) a).1.limiters n
          ∙ lookup-insert_ne (a.key_func r) key
              (record {
                limiter = limiter_or rate a (lookup (a.key_func r) a.limiters);
                last_access = now;
              })
              a.limiters n
          ∙ h.entry;
    })
  ]

  -- What a request makes of the limiter of its key.
  abbrev allowed : ℕ → Str → RateLimiter L Request → Bool × L
  allowed now key rl = rate.allow now (limiter_or rate rl (lookup key rl.limiters))

  middleware-own :
      (key : Str) (now : ℕ) (r : Request) (rl : RateLimiter L Request)
      → rl.key_func r ≡ key
      → ((middleware rate now r rl).0 ≡ (if is_empty key then true else (allowed now key rl).0))
        × (lookup key (middleware rate now r rl).1.limiters ≡ (
            if is_empty key
            then lookup key rl.limiters
            else some (record { limiter = (allowed now key rl).1; last_access = now })))
        × ((middleware rate now r rl).1.rps ≡ rl.rps)
        × ((middleware rate now r rl).1.burst ≡ rl.burst)
        × ((middleware rate now r rl).1.key_func ≡ rl.key_func)
        × ((middleware rate now r rl).1.ttl ≡ rl.ttl)
  unfolding middleware get_limiter
  middleware-own key now r rl p = rw p (elim (Bool-cases (is_empty key)) [
    | inl t ↦ rw t (refl, refl, refl, refl, refl, refl)
    | inr f ↦ rw f (
      refl,
      lookup-insert_self key (record { limiter = (allowed now key rl).1; last_access = now })
          (get_limiter rate now key rl).1.limiters,
      refl,
      refl,
      refl,
      refl,
    )
  ])

  limiter_or-Alike :
      (key : Str) (a b : RateLimiter L Request)
      → Alike key a b
      → (o : Option (LimiterEntry L)) → limiter_or rate a o ≡ limiter_or rate b o
  limiter_or-Alike key a b h none = rw (h.rps, h.burst) refl
  limiter_or-Alike key a b h (some entry) = refl

  allowed-Alike :
      (key : Str) (now : ℕ) (a b : RateLimiter L Request)
      → Alike key a b
      → allowed now key a ≡ allowed now key b
  allowed-Alike key now a b h =
      ap (rate.allow now)
        (ap (limiter_or rate a) h.entry ∙ limiter_or-Alike key a b h (lookup key b.limiters))

  own-Alike :
      (key : Str) (now : ℕ) (r : Request) (a b : RateLimiter L Request)
      → a.key_func r ≡ key
      → Alike key a b
      → ((middleware rate now r a).0 ≡ (middleware rate now r b).0)
        × Alike key (middleware rate now r a).1 (middleware rate now r b).1
  own-Alike key now r a b p h =
      let q : b.key_func r ≡ key = sym (ap (λ (f : Request → Str). f r) h.key_func) ∙ p in
      let x = middleware-own key now r a p in
      let y = middleware-own key now r b q in
      let same = allowed-Alike key now a b h in
      (
        x.0 ∙ ap (λ (w : Bool × L). if is_empty key then true else w.0) same ∙ sym y.0,
        record {
          rps = x.2 ∙ h.rps ∙ sym y.2;
          burst = x.3 ∙ h.burst ∙ sym y.3;
          key_func = x.4 ∙ h.key_func ∙ sym y.4;
          ttl = x.5 ∙ h.ttl ∙ sym y.5;
          entry = x.1 ∙ rw (same, h.entry) refl ∙ sym y.1;
        },
      )

  tick-Alike :
      (key : Str) (now : ℕ) (a b : RateLimiter L Request)
      → Alike key a b
      → Alike key (cleanup_stale rate now a) (cleanup_stale rate now b)
  unfolding cleanup_stale
  tick-Alike key now a b h = record {
    rps = h.rps;
    burst = h.burst;
    key_func = h.key_func;
    ttl = h.ttl;
    entry =
        rw
          (
            lookup-sweep (is_stale now a.ttl) key a.limiters,
            lookup-sweep (is_stale now b.ttl) key b.limiters,
            h.ttl,
            h.entry,
          )
          refl;
  }

  -- With `f` for the key function of both.
  answers_to-Alike :
      (f : Request → Str) (key : Str) (es : List (Event Request)) (a b : RateLimiter L Request)
      → b.key_func ≡ f
      → Alike key a b
      → answers_to key es a ≡ answers_to key (only f key es) b
  unfolding cleanup_stale
  answers_to-Alike f key [] a b g h = refl
  answers_to-Alike f key (tick now ∷ es) a b g h =
      answers_to-Alike f key es (cleanup_stale rate now a) (cleanup_stale rate now b) g
        (tick-Alike key now a b h)
  answers_to-Alike f key (request now r ∷ es) a b g h = elim (beq-cases (a.key_func r) key) [
    | inl (p, e) ↦
        let eb : (b.key_func r == key) ≡ true =
          sym (ap (λ (k : Request → Str). k r == key) h.key_func) ∙ e in
        let ef : (f r == key) ≡ true = sym (ap (λ (k : Request → Str). k r == key) g) ∙ eb in
        let own = own-Alike key now r a b p h in
        let q : b.key_func r ≡ key = sym (ap (λ (k : Request → Str). k r) h.key_func) ∙ p in
        rw (e, ef, eb)
          (ap (λ (x : Bool). x ∷ answers_to key es (middleware rate now r a).1) own.0
            ∙ ap (λ (xs : List Bool). (middleware rate now r b).0 ∷ xs)
                (answers_to-Alike f key es (middleware rate now r a).1 (middleware rate now r b).1
                  ((middleware-own key now r b q).4 ∙ g) own.1))
    | inr (n, e) ↦
        let ef : (f r == key) ≡ false =
          sym (ap (λ (k : Request → Str). k r == key) (h.key_func ∙ g)) ∙ e in
        rw (e, ef)
          (answers_to-Alike f key es (middleware rate now r a).1 b g
            (other-Alike key now r a b n h))
  ]

  -- Through any sequence of requests and cleanups, the requests of one key are answered as if no
  -- other key had sent any.
  pub answers_to-only :
      (key : Str) (es : List (Event Request)) (rl : RateLimiter L Request)
      → answers_to key es rl ≡ answers_to key (only rl.key_func key es) rl
  answers_to-only key es rl =
      answers_to-Alike rl.key_func key es rl rl refl
        (record { rps = refl; burst = refl; key_func = refl; ttl = refl; entry = refl })
