-- ===== src/Middleware/Retry/Attempts.antt =====
-- internal/middleware/retry.go: which response the retry middleware writes, and when it sleeps.
use discobox.Prelude.{
  ℕ, zero, suc, ◌+◌, ◌-◌, ◌≤◌, ◌<◌, ◌≡◌, refl, sym, ap, ◌∙◌, ◌⊎◌, inl, inr, Bool, true, false, not,
  ◌||◌, ◌&&◌, ◌∷◌, ◌==◌, nat_eq, arith, Bool-cases, beq-cases,
}
use discobox.Prelude.Int.{ℤ, pos}
use discobox.Middleware.Backoff.{ExponentialBackoff, new_exponential_backoff, next, nexts}
use discobox.Middleware.Retry.{
  Recorder, RetryConfig, Request, Outcome, respond, restore_body, next_delay, mark_attempt,
  should_retry, attempts, run_attempts, serve_http,
}

module _ {World : Type 0} (config : RetryConfig)
    (serve : Request → World → Recorder × Request × World) (r : Request) (world : World) where
  -- The request and the handler's state before an attempt: both as the attempt before has left them,
  -- with the header that counts the attempts.
  abbrev pub before : ℕ → Request × World
  before zero = (r, world)
  before (suc k) =
      let a = serve (restore_body r.body (before k).0) (before k).1 in (mark_attempt k a.1, a.2)

  -- What an attempt makes of them, with the body that was read first.
  abbrev pub attempt_at : ℕ → Recorder × Request × World
  attempt_at k = serve (restore_body r.body (before k).0) (before k).1

  abbrev pub response : ℕ → Recorder
  response k = (attempt_at k).0

  abbrev pub is_retried : ℕ → Bool
  is_retried k = should_retry config serve (response k)

  -- All the attempts before attempt `k` are repeated.
  abbrev pub are_retried : ℕ → Bool
  are_retried zero = true
  are_retried (suc k) = is_retried k && are_retried k

  are_retried-all : (k : ℕ) → ((j : ℕ) → j < k → is_retried j ≡ true) → are_retried k ≡ true
  are_retried-all zero h = refl
  are_retried-all (suc k) h =
      rw (h k (omega arith), are_retried-all k (λ j l. h j (omega (arith, l)))) refl

  -- An ExponentialBackoff of the configuration, on its way.
  abbrev backoff : ℤ → ExponentialBackoff
  backoff delay = record {
    initial = config.initial_delay;
    max = config.max_delay;
    scale = config.scale;
    current = delay;
  }

  -- The loop that starts with attempt `a` ends with attempt `k`.
  abbrev Ends : ℕ → ℕ → ℤ → Outcome World → Type 0
  Ends a last delay o =
      (k : ℕ) × (a ≤ k)
      × (k ≤ last)
      × ((j : ℕ) → a ≤ j → j < k → is_retried j ≡ true)
      × ((is_retried k ≡ false) ⊎ (k ≡ last))
      × (o ≡ record {
        reply = respond (response k);
        sleeps = nexts (k - a) (backoff delay);
        world = (attempt_at k).2;
      })

  nexts-delay :
      (n : ℕ) (delay : ℤ)
      → nexts (suc n) (backoff delay) ≡ delay ∷ nexts n (backoff (next_delay config delay))
  unfolding next next_delay
  nexts-delay n delay = refl

  later_sleeps :
      (k a : ℕ) (delay : ℤ)
      → suc a ≤ k
      → delay ∷ nexts (k - suc a) (backoff (next_delay config delay))
        ≡ nexts (k - a) (backoff delay)
  later_sleeps k a delay h =
      sym (nexts-delay (k - suc a) delay) ∙ ap (λ n. nexts n (backoff delay)) (counted k a h)
    where
      counted : (k a : ℕ) → suc a ≤ k → suc (k - suc a) ≡ k - a
      counted k a h = omega arith

  -- An attempt that is not the last one is followed by the others.
  Ends-later :
      (a last : ℕ) (delay : ℤ) (rest : Outcome World)
      → is_retried a ≡ true
      → Ends (suc a) last (next_delay config delay) rest
      → Ends a last delay (record rest { sleeps = delay ∷ rest.sleeps })
  Ends-later a last delay rest again h = (
    h.0,
    omega (arith, h.1),
    h.2,
    λ j from until. earlier j from until,
    h.4,
    ap (λ (o : Outcome World). record o { sleeps = delay ∷ o.sleeps }) h.5
        ∙ ap
            (λ sleeps. record {
              reply = respond (response h.0);
              sleeps = sleeps;
              world = (attempt_at h.0).2;
            })
            (later_sleeps h.0 a delay h.1),
  )
    where
      earlier : (j : ℕ) → a ≤ j → j < h.0 → is_retried j ≡ true
      earlier j from until = elim (beq-cases a j) [
        | inl (q, b) ↦ rw (sym q) again
        | inr (n, b) ↦ h.3 j (omega (arith, n, from)) until
      ]

  attempts-Ends :
      (fuel a last : ℕ) (delay : ℤ)
      → a + fuel ≡ suc last
      → 0 < fuel
      → Ends a last delay (attempts config serve r.body fuel last a delay (before a).0 (before a).1)
  unfolding attempts
  attempts-Ends zero a last delay e p = absurd (omega (arith, p))
  attempts-Ends (suc fuel) a last delay e p = elim (Bool-cases (not (is_retried a) || a == last)) [
    | inl t ↦ rw t (
      a,
      omega arith,
      omega arith,
      (λ j h l. absurd (omega (arith, h, l))),
      ground (arith, t),
      rw (self a) refl,
    )
    | inr f ↦ rw f (
        Ends-later a last delay
          (attempts config serve r.body fuel last (suc a) (next_delay config delay)
            (before (suc a)).0 (before (suc a)).1)
          (ground (arith, f))
          (attempts-Ends fuel (suc a) last (next_delay config delay) (omega arith)
            (ground (arith, f))))
  ]
    where
      self : (n : ℕ) → n - n ≡ 0
      self n = omega arith

pred_suc : (n : ℕ) → suc n - 1 ≡ n
pred_suc n = omega arith

minus_zero : (n : ℕ) → n - 0 ≡ n
minus_zero n = omega arith

serve_http-eq :
    {World : Type 0} (config : RetryConfig) (serve : Request → World → Recorder × Request × World)
    (r : Request) (world : World) (last : ℕ)
    → config.max_attempts ≡ pos (suc last)
    → serve_http config serve false r world
      ≡ attempts config serve r.body (suc last) last 0 config.initial_delay r world
unfolding serve_http run_attempts
serve_http-eq config serve r world last e =
    ap (λ m. run_attempts config serve m r world) e
    ∙ ap (λ l. attempts config serve r.body (suc last) l 0 config.initial_delay r world)
        (pred_suc last)

-- With MaxAttempts at least 1 and a body that can be read, the middleware answers with exactly one
-- attempt: the first that RetryIf does not want to repeat, or the last one. It writes that response
-- if its status is one, and panics if it is none. It makes no attempt after that one; each attempt
-- has the body that was read first, and starts from the request and the state that the one before
-- has left; and the delays in between are what Next of an ExponentialBackoff of the same settings
-- gives.
pub serve_http-attempts :
    {World : Type 0} (config : RetryConfig) (serve : Request → World → Recorder × Request × World)
    (r : Request) (world : World) (last : ℕ)
    → config.max_attempts ≡ pos (suc last)
    → (k : ℕ) × (k ≤ last)
      × (are_retried config serve r world k ≡ true)
      × ((is_retried config serve r world k ≡ false) ⊎ (k ≡ last))
      × (serve_http config serve false r world ≡ record {
        reply = respond (response config serve r world k);
        sleeps =
            nexts k (new_exponential_backoff config.initial_delay config.max_delay config.scale);
        world = (attempt_at config serve r world k).2;
      })
serve_http-attempts config serve r world last e =
    let h =
      attempts-Ends config serve r world (suc last) 0 last config.initial_delay (omega arith)
        (omega arith) in
    (
      h.0,
      h.2,
      are_retried-all config serve r world h.0 (λ j l. h.3 j (omega arith) l),
      h.4,
      serve_http-eq config serve r world last e
          ∙ h.5
          ∙ ap
              (λ n. record {
                reply = respond (response config serve r world h.0);
                sleeps =
                    nexts n
                      (new_exponential_backoff config.initial_delay config.max_delay config.scale);
                world = (attempt_at config serve r world h.0).2;
              })
              (minus_zero h.0),
    )
