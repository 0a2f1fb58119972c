-- ===== src/Circuit/Passive/Verdict.antt =====
-- internal/circuit/health_checker.go: PassiveHealthChecker as a function of the outcomes of each
-- server's requests.
use discobox.Prelude.{
  Str, ℕ, suc, ◌≤◌, ◌≡◌, refl, sym, ◌∙◌, Bool, true, false, List, [], ◌∷◌, ◌++◌, if◌then◌else◌,
  keep, length, Option, none, some, str_eq, arith, Option-cases, inl, inr, ◌==◌, beq-cases,
  length-append,
}
use discobox.Prelude.Int.{ℤ, pos, leb_ℤ}
use discobox.Prelude.Dict.{lookup, lookup-insert_self, lookup-insert_ne}
use discobox.Circuit.Passive.{
  PassiveInfo, PassiveChecker, new_passive_health_checker, info_or, put, note_failure,
  record_success, record_failure, is_recent, is_healthy,
}
use discobox.Circuit.Passive.Window.{keep-pruned, keep-append_congr}

pub data Event : Type 0 where
  succeeded : Str → Event
  errored : ℕ → Str → Event

abbrev pub step : Event → PassiveChecker → PassiveChecker
step (succeeded id) p = record_success id p
step (errored now id) p = record_failure now id p

abbrev pub run : List Event → PassiveChecker → PassiveChecker
run [] p = p
run (e ∷ es) p = run es (step e p)

-- The clock does not run back.
abbrev pub IsClocked : ℕ → List Event → Type 0
IsClocked time [] = Unit
IsClocked time (succeeded id ∷ es) = IsClocked time es
IsClocked time (errored now id ∷ es) = (time ≤ now) × IsClocked now es

pub data Outcome : Type 0 where
  success : Outcome
  failure : ℕ → Outcome

-- The outcomes of a server, the latest first, in front of those of before.
abbrev pub outcomes : Str → List Event → List Outcome → List Outcome
outcomes id [] before = before
outcomes id (succeeded k ∷ es) before =
    outcomes id es (if k == id then success ∷ before else before)
outcomes id (errored now k ∷ es) before =
    outcomes id es (if k == id then failure now ∷ before else before)

-- The times of the failures since the last success, the first one first.
abbrev pub failure_times : List Outcome → List ℕ
failure_times [] = []
failure_times (success ∷ os) = []
failure_times (failure t ∷ os) = failure_times os ++ t ∷ []

-- A success clears a server; a failure takes it down if it and the recent ones before it, since the
-- last success, reach the threshold.
abbrev pub verdict : ℤ → ℤ → List Outcome → Bool
verdict threshold window [] = true
verdict threshold window (success ∷ os) = true
verdict threshold window (failure now ∷ os) =
    let before = verdict threshold window os in
    if leb_ℤ threshold (pos (suc (length (keep (is_recent window now) (failure_times os)))))
    then false
    else before

module _ (threshold window : ℤ) where
  -- An entry at time `time` that tells the outcomes `os`.
  pub record Tells (time : ℕ) (os : List Outcome) (info : PassiveInfo) : Type 0 where
    pub healthy : info.healthy ≡ verdict threshold window os
    pub recent :
        (now : ℕ)
        → time ≤ now
        → keep (is_recent window now) info.failures ≡ keep (is_recent window now) (failure_times os)

  abbrev pub Tracked : ℕ → List Outcome → Option PassiveInfo → Type 0
  Tracked time os none = (verdict threshold window os ≡ true) × (failure_times os ≡ [])
  Tracked time os (some info) = Tells time os info

  Tracked-info_or :
      (time : ℕ) (os : List Outcome) (o : Option PassiveInfo)
      → Tracked time os o
      → Tells time os (info_or o)
  Tracked-info_or time os none t = record { healthy = sym t.0; recent = λ now h. rw t.1 refl }
  Tracked-info_or time os (some info) t = t

  Tracked-later :
      (a b : ℕ) (os : List Outcome) (o : Option PassiveInfo)
      → a ≤ b
      → Tracked a os o
      → Tracked b os o
  Tracked-later a b os none h t = t
  Tracked-later a b os (some info) h t = record {
    healthy = t.healthy;
    recent = λ now k. t.recent now (omega (arith, h, k));
  }

  note_failure-Tells :
      (time now : ℕ) (os : List Outcome) (info : PassiveInfo)
      → time ≤ now
      → Tells time os info
      → Tells now (failure now ∷ os) (note_failure now threshold window info)
  unfolding note_failure
  note_failure-Tells time now os info h t = record {
    healthy =
        rw
          (
            length-append (keep (is_recent window now) info.failures) (now ∷ []),
            t.recent now h,
            t.healthy,
          )
          (ground arith);
    recent = λ later k.
        keep-pruned window now later info.failures k
        ∙ keep-append_congr (is_recent window later) info.failures (failure_times os) (now ∷ [])
            (t.recent later (omega (arith, h, k)));
  }

  record_success-stored :
      (id : Str) (p : PassiveChecker) {info : PassiveInfo}
      → lookup id p.health_status ≡ some info
      → record_success id p ≡ put id (record info { failures = []; healthy = true }) p
  unfolding record_success
  record_success-stored id p there = ground (arith, there)

  record_success-missing :
      (id : Str) (p : PassiveChecker) → lookup id p.health_status ≡ none → record_success id p ≡ p
  unfolding record_success
  record_success-missing id p gone = ground (arith, gone)

  record Tracks (time : ℕ) (os : Str → List Outcome) (p : PassiveChecker) : Type 0 where
    threshold_set : p.fail_threshold ≡ threshold
    window_set : p.window ≡ window
    tracked : (id : Str) → Tracked time (os id) (lookup id p.health_status)

  cleared :
      (time : ℕ) (os : List Outcome) (info : PassiveInfo)
      → Tells time (success ∷ os) (record info { failures = []; healthy = true })
  cleared time os info = record { healthy = refl; recent = λ now h. refl }

  record_success-Tracks :
      (time : ℕ) (os : Str → List Outcome) (k : Str) (p : PassiveChecker)
      → Tracks time os p
      → Tracks time (λ id. if k == id then success ∷ os id else os id) (record_success k p)
  record_success-Tracks time os k p h = elim (Option-cases (lookup k p.health_status)) [
    | inl gone ↦ rw (record_success-missing k p gone) (record {
      threshold_set = h.threshold_set;
      window_set = h.window_set;
      tracked = λ id. elim (beq-cases k id) [
        | inl (q, b) ↦ rw (b, sym q, gone) (refl, refl)
        | inr (n, b) ↦ rw b (h.tracked id)
      ];
    })
    | inr (info, there) ↦ rw (record_success-stored k p there) (record {
      threshold_set = h.threshold_set;
      window_set = h.window_set;
      tracked = λ id. elim (beq-cases k id) [
        | inl (q, b) ↦
            rw
              (
                b,
                sym q,
                lookup-insert_self k (record info { failures = []; healthy = true })
                    p.health_status,
              )
              (cleared time (os k) info)
        | inr (n, b) ↦
            rw
              (
                b,
                lookup-insert_ne k id (record info { failures = []; healthy = true })
                    p.health_status n,
              )
              (h.tracked id)
      ];
    })
  ]

  record_failure-Tracks :
      (time now : ℕ) (os : Str → List Outcome) (k : Str) (p : PassiveChecker)
      → Tracks time os p
      → time ≤ now
      → Tracks now (λ id. if k == id then failure now ∷ os id else os id) (record_failure now k p)
  unfolding record_failure
  record_failure-Tracks time now os k p h later = record {
    threshold_set = h.threshold_set;
    window_set = h.window_set;
    tracked = λ id. elim (beq-cases k id) [
      | inl (q, b) ↦
          rw (b, sym q, lookup-insert_self k noted p.health_status, h.threshold_set, h.window_set)
            (note_failure-Tells time now (os k) (info_or (lookup k p.health_status)) later
              (Tracked-info_or time (os k) (lookup k p.health_status) (h.tracked k)))
      | inr (n, b) ↦
          rw (b, lookup-insert_ne k id noted p.health_status n)
            (Tracked-later time now (os id) (lookup id p.health_status) later (h.tracked id))
    ];
  }
    where
      noted : PassiveInfo
      noted = note_failure now p.fail_threshold p.window (info_or (lookup k p.health_status))

  Tracked-healthy :
      (time : ℕ) (os : List Outcome) (o : Option PassiveInfo)
      → Tracked time os o
      → (elim o [ some info ↦ info.healthy | none ↦ true ]) ≡ verdict threshold window os
  Tracked-healthy time os none t = sym t.0
  Tracked-healthy time os (some info) t = t.healthy

  run-Tracked :
      (es : List Event) (time : ℕ) (os : Str → List Outcome) (p : PassiveChecker)
      → Tracks time os p
      → IsClocked time es
      → (id : Str) → is_healthy id (run es p) ≡ verdict threshold window (outcomes id es (os id))
  unfolding is_healthy
  run-Tracked [] time os p h w id =
      Tracked-healthy time (os id) (lookup id p.health_status) (h.tracked id)
  run-Tracked (succeeded k ∷ es) time os p h w id =
      run-Tracked es time (λ j. if k == j then success ∷ os j else os j) (record_success k p)
        (record_success-Tracks time os k p h) w id
  run-Tracked (errored now k ∷ es) time os p h w id =
      run-Tracked es now (λ j. if k == j then failure now ∷ os j else os j) (record_failure now k p)
        (record_failure-Tracks time now os k p h w.0) w.1 id

-- After any sequence of recorded outcomes on a clock that does not run back, IsHealthy of the
-- passive checker tells for each server what its outcomes alone decide: a failure takes it down if
-- it and the failures since the last success that its window still holds reach the threshold, and
-- it stays down until a success, however long that takes.
pub is_healthy-passive :
    (threshold window : ℤ) (es : List Event) (id : Str)
    → IsClocked 0 es
    → is_healthy id (run es (new_passive_health_checker threshold window))
      ≡ verdict threshold window (outcomes id es [])
unfolding lookup
is_healthy-passive threshold window es id w =
    run-Tracked threshold window es 0 (λ j. []) (new_passive_health_checker threshold window)
      (record { threshold_set = refl; window_set = refl; tracked = λ j. (refl, refl) }) w id
