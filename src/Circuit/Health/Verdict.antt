-- ===== src/Circuit/Health/Verdict.antt =====
-- internal/circuit/health_checker.go: what healthChecker says of each server after any sequence of
-- checks and recorded results.
use discobox.Prelude.{
  Str, ℕ, suc, ◌+◌, ◌^◌, ◌≤◌, ◌<◌, ◌≡◌, refl, ◌∙◌, Bool, true, false, List, [], ◌∷◌, length, Option,
  none, some, if◌then◌else◌, str_eq, arith, inl, inr, subst, ◌==◌, beq-cases,
}
use discobox.Prelude.Int.{pos}
use discobox.Prelude.Dict.{lookup}
use discobox.Circuit.Health.{
  HealthInfo, HealthChecker, new_health_checker, note_success, note_failure, is_healthy,
  get_health_status, health_url,
}
use discobox.Circuit.Health.Counters.{
  info_of, info_or, passes, reason, noted, Writes, record_success-Writes, record_failure-Writes,
  check-Writes,
}
use discobox.Circuit.Health.History.{
  Event, checked, succeeded, errored, step, run, server_of, result_of, results, verdict, Tells,
  note_success-Tells, note_failure-Tells,
}

-- What the status of a server tells of its results; a server without results is not tracked.
abbrev pub Tracked : ℕ → ℕ → List Bool → Option HealthInfo → Type 0
Tracked f p rs none = rs ≡ []
Tracked f p rs (some info) = Tells f p rs info

Tracked-info_or :
    (f p now : ℕ) (rs : List Bool) (o : Option HealthInfo)
    → Tracked f p rs o
    → Tells f p rs (info_or now o)
Tracked-info_or f p now rs none e = rw e (record {
  healthy = refl;
  fails = refl;
  passes = refl;
  checks = refl;
  failed = refl;
  idle = refl;
})
Tracked-info_or f p now rs (some info) t = t

module _ (f p : ℕ) (fs : f < 2 ^ 31) (ps : p < 2 ^ 31) where
  -- The checker has the thresholds `f` and `p`, and tells for each server its results.
  record Follows (rs : Str → List Bool) (bound : ℕ) (hc : HealthChecker) : Type 0 where
    fail_threshold : hc.fail_threshold ≡ pos f
    pass_threshold : hc.pass_threshold ≡ pos p
    tracked : (id : Str) → Tracked f p (rs id) (lookup id hc.health_status)
    bounded : (id : Str) → length (rs id) ≤ bound

  -- What an event makes of the entry of its server.
  entry : Event → HealthChecker → HealthInfo
  entry (checked now server probe) hc =
      noted now hc (probe (health_url server)) (info_of now server.id hc)
  entry (succeeded now id) hc = note_success now hc.pass_threshold (info_of now id hc)
  entry (errored now id error) hc = note_failure now hc.fail_threshold error (info_of now id hc)

  step-Writes :
      (e : Event) (rs : Str → List Bool) (bound : ℕ) (hc : HealthChecker)
      → Follows rs bound hc
      → Writes (server_of e) (entry e hc) hc (step e hc)
  unfolding entry
  step-Writes (checked now server probe) rs bound hc h =
      (check-Writes now server probe hc
        (Tracked-info_or f p now (rs server.id) (lookup server.id hc.health_status)
          (h.tracked server.id)).idle).1
  step-Writes (succeeded now id) rs bound hc h = record_success-Writes now id hc
  step-Writes (errored now id error) rs bound hc h = record_failure-Writes now id hc error

  entry-Tells :
      (e : Event) (rs : Str → List Bool) (bound : ℕ) (hc : HealthChecker)
      → Follows rs bound hc
      → suc bound < 2 ^ 31
      → Tells f p (result_of e ∷ rs (server_of e)) (entry e hc)
  unfolding entry
  entry-Tells (checked now server probe) rs bound hc h small =
      noted-Tells (passes (probe (health_url server))) refl
    where
      told : Tells f p (rs server.id) (info_of now server.id hc)
      told =
          Tracked-info_or f p now (rs server.id) (lookup server.id hc.health_status)
            (h.tracked server.id)

      noted-Tells :
          (b : Bool)
          → passes (probe (health_url server)) ≡ b
          → Tells f p
              (passes (probe (health_url server)) ∷ rs server.id)
              (noted now hc (probe (health_url server)) (info_of now server.id hc))
      noted-Tells true e =
          rw (e, h.pass_threshold)
            (note_success-Tells f p fs ps now (rs server.id) (info_of now server.id hc)
              (omega (arith, h.bounded server.id)) told)
      noted-Tells false e =
          rw (e, h.fail_threshold)
            (note_failure-Tells f p fs ps now (reason (probe (health_url server))) (rs server.id)
              (info_of now server.id hc) (omega (arith, h.bounded server.id)) told)
  entry-Tells (succeeded now id) rs bound hc h small = rw h.pass_threshold (
      note_success-Tells f p fs ps now (rs id) (info_of now id hc) (omega (arith, h.bounded id))
        (Tracked-info_or f p now (rs id) (lookup id hc.health_status) (h.tracked id)))
  entry-Tells (errored now id error) rs bound hc h small = rw h.fail_threshold (
      note_failure-Tells f p fs ps now error (rs id) (info_of now id hc)
        (omega (arith, h.bounded id))
        (Tracked-info_or f p now (rs id) (lookup id hc.health_status) (h.tracked id)))

  -- The results once an event is recorded.
  abbrev extended : Event → (Str → List Bool) → Str → List Bool
  extended e rs id = if server_of e == id then result_of e ∷ rs id else rs id

  step-Follows :
      (e : Event) (rs : Str → List Bool) (bound : ℕ) (hc : HealthChecker)
      → Follows rs bound hc
      → suc bound < 2 ^ 31
      → Follows (extended e rs) (suc bound) (step e hc)
  step-Follows e rs bound hc h small =
      let w = step-Writes e rs bound hc h in
      record {
        fail_threshold = w.fail_threshold ∙ h.fail_threshold;
        pass_threshold = w.pass_threshold ∙ h.pass_threshold;
        tracked = λ id. elim (beq-cases (server_of e) id) [
          | inl (q, b) ↦ rw b (
              subst (λ j. Tracked f p (result_of e ∷ rs j) (lookup j (step e hc).health_status)) q
                (rw w.own (entry-Tells e rs bound hc h small)))
          | inr (n, b) ↦ rw (b, w.others id n) (h.tracked id)
        ];
        bounded = λ id. ground (arith, h.bounded id);
      }

  run-Tracked :
      (es : List Event) (rs : Str → List Bool) (bound : ℕ) (hc : HealthChecker)
      → Follows rs bound hc
      → bound + length es < 2 ^ 31
      → (id : Str) → Tracked f p (results id es (rs id)) (get_health_status id (run es hc))
  unfolding get_health_status
  run-Tracked [] rs bound hc h small id = h.tracked id
  run-Tracked (e ∷ es) rs bound hc h small id =
      run-Tracked es (extended e rs) (suc bound) (step e hc)
        (step-Follows e rs bound hc h (omega arith)) (omega arith) id

Tracked-healthy :
    (f p : ℕ) (rs : List Bool) (o : Option HealthInfo)
    → Tracked f p rs o
    → (elim o [ some info ↦ info.healthy | none ↦ true ]) ≡ verdict f p rs
Tracked-healthy f p rs none e = rw e refl
Tracked-healthy f p rs (some info) t = t.healthy

Tracked-is_healthy :
    (f p : ℕ) (rs : List Bool) (id : Str) (hc : HealthChecker)
    → Tracked f p rs (get_health_status id hc)
    → is_healthy id hc ≡ verdict f p rs
unfolding get_health_status is_healthy
Tracked-is_healthy f p rs id hc t = Tracked-healthy f p rs (lookup id hc.health_status) t

-- After any sequence of checks and recorded results, fewer than 2^31 and with thresholds that an
-- int32 holds, IsHealthy tells for each server what its results alone decide: it is down from
-- failThreshold failures in a row on, up again from passThreshold passes in a row on, and up before
-- that. Its status counts its checks and failures and the length of its last streak, and a server
-- without results is not tracked.
pub is_healthy-verdict :
    (fail_threshold pass_threshold : ℕ) (es : List Event) (id : Str)
    → fail_threshold < 2 ^ 31
    → pass_threshold < 2 ^ 31
    → length es < 2 ^ 31
    → let hc = run es (new_health_checker (pos fail_threshold) (pos pass_threshold)) in
      (is_healthy id hc ≡ verdict fail_threshold pass_threshold (results id es []))
      × Tracked fail_threshold pass_threshold (results id es []) (get_health_status id hc)
unfolding lookup
is_healthy-verdict f p es id fs ps small =
    let hc = run es (new_health_checker (pos f) (pos p)) in
    let t : Tracked f p (results id es []) (get_health_status id hc) =
      run-Tracked f p fs ps es (λ j. []) 0 (new_health_checker (pos f) (pos p))
        (record {
          fail_threshold = refl;
          pass_threshold = refl;
          tracked = λ j. refl;
          bounded = λ j. omega arith;
        })
        (omega arith) id in
    (Tracked-is_healthy f p (results id es []) id hc t, t)
