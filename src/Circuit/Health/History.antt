-- ===== src/Circuit/Health/History.antt =====
-- internal/circuit/health_checker.go: the state of healthChecker as a function of what was
-- recorded for each server.
use discobox.Prelude.{
  Str, ℕ, suc, ◌^◌, ◌≤◌, ◌<◌, ◌≡◌, refl, Bool, true, false, not, ◌&&◌, List, [], ◌∷◌, length,
  if◌then◌else◌, leb, str_eq, arith, ◌==◌,
}
use discobox.Prelude.Int.{pos, ◌+ℤ◌, wrap32, wrap64}
use discobox.Circuit.Health.{
  HealthInfo, HealthChecker, note_success, note_failure, record_success, record_failure, Probe,
  Target, check, health_url,
}
use discobox.Circuit.Health.Counters.{passes}

-- The methods that record a result: Check, RecordSuccess and RecordFailure.
pub data Event : Type 0 where
  checked : ℕ → Target → (Str → Probe) → Event
  succeeded : ℕ → Str → Event
  errored : ℕ → Str → Str → Event

abbrev pub step : Event → HealthChecker → HealthChecker
step (checked now server probe) hc = (check now server probe hc).1
step (succeeded now id) hc = record_success now id hc
step (errored now id error) hc = (record_failure now id error hc).1

abbrev pub run : List Event → HealthChecker → HealthChecker
run [] hc = hc
run (e ∷ es) hc = run es (step e hc)

abbrev pub server_of : Event → Str
server_of (checked now server probe) = server.id
server_of (succeeded now id) = id
server_of (errored now id error) = id

abbrev pub result_of : Event → Bool
result_of (checked now server probe) = passes (probe (health_url server))
result_of (succeeded now id) = true
result_of (errored now id error) = false

-- The results of a server, the latest first, in front of those of before.
abbrev pub results : Str → List Event → List Bool → List Bool
results id [] before = before
results id (e ∷ es) before =
    results id es (if server_of e == id then result_of e ∷ before else before)

-- How many of the latest results are passes, and how many are failures.
abbrev pub streak : Bool → List Bool → ℕ
streak b [] = 0
streak true (r ∷ rs) = if r then suc (streak true rs) else 0
streak false (r ∷ rs) = if r then 0 else suc (streak false rs)

abbrev pub failures : List Bool → ℕ
failures [] = 0
failures (r ∷ rs) = if r then failures rs else suc (failures rs)

-- A server is down from `fail_threshold` failures in a row on, and up again from `pass_threshold`
-- passes in a row on.
abbrev pub verdict : ℕ → ℕ → List Bool → Bool
verdict fail_threshold pass_threshold [] = true
verdict fail_threshold pass_threshold (r ∷ rs) =
    let before = verdict fail_threshold pass_threshold rs in
    if leb fail_threshold (streak false (r ∷ rs)) && not r
    then false
    else if leb pass_threshold (streak true (r ∷ rs)) && r
    then true
    else before

streak_le : (b : Bool) (rs : List Bool) → streak b rs ≤ length rs
streak_le b [] = omega arith
streak_le true (r ∷ rs) = ground (arith, streak_le true rs)
streak_le false (r ∷ rs) = ground (arith, streak_le false rs)

failures_le : (rs : List Bool) → failures rs ≤ length rs
failures_le [] = omega arith
failures_le (r ∷ rs) = ground (arith, failures_le rs)

-- An entry that tells the results `rs`.
pub record Tells (f p : ℕ) (rs : List Bool) (info : HealthInfo) : Type 0 where
  pub healthy : info.healthy ≡ verdict f p rs
  pub fails : info.consecutive_fails ≡ pos (streak false rs)
  pub passes : info.consecutive_pass ≡ pos (streak true rs)
  pub checks : info.total_checks ≡ pos (length rs)
  pub failed : info.total_failures ≡ pos (failures rs)
  pub idle : info.check_in_progress ≡ false

wrap32_next : (n : ℕ) → suc n < 2 ^ 31 → wrap32 (pos n +ℤ pos 1) ≡ pos (suc n)
unfolding wrap32 ◌+ℤ◌
wrap32_next n h = ground arith

wrap64_next : (n : ℕ) → suc n < 2 ^ 31 → wrap64 (pos n +ℤ pos 1) ≡ pos (suc n)
unfolding wrap64 ◌+ℤ◌
wrap64_next n h = ground arith

wrap32_fits : (n : ℕ) → n < 2 ^ 31 → wrap32 (pos n) ≡ pos n
unfolding wrap32
wrap32_fits n h = ground arith

module _ (f p : ℕ) (fs : f < 2 ^ 31) (ps : p < 2 ^ 31) where
  pub note_success-Tells :
      (now : ℕ) (rs : List Bool) (info : HealthInfo)
      → suc (length rs) < 2 ^ 31
      → Tells f p rs info
      → Tells f p (true ∷ rs) (note_success now (pos p) info)
  unfolding note_success
  note_success-Tells now rs info small t = record {
    healthy =
        rw
          (
            wrap32_fits p ps,
            t.passes,
            wrap32_next (streak true rs) (omega (arith, streak_le true rs)),
            t.healthy,
          )
          (ground arith);
    fails = refl;
    passes = rw t.passes (wrap32_next (streak true rs) (omega (arith, streak_le true rs)));
    checks = rw t.checks (wrap64_next (length rs) small);
    failed = t.failed;
    idle = t.idle;
  }

  pub note_failure-Tells :
      (now : ℕ) (error : Str) (rs : List Bool) (info : HealthInfo)
      → suc (length rs) < 2 ^ 31
      → Tells f p rs info
      → Tells f p (false ∷ rs) (note_failure now (pos f) error info)
  unfolding note_failure
  note_failure-Tells now error rs info small t = record {
    healthy =
        rw
          (
            wrap32_fits f fs,
            t.fails,
            wrap32_next (streak false rs) (omega (arith, streak_le false rs)),
            t.healthy,
          )
          (ground arith);
    fails = rw t.fails (wrap32_next (streak false rs) (omega (arith, streak_le false rs)));
    passes = refl;
    checks = rw t.checks (wrap64_next (length rs) small);
    failed = rw t.failed (wrap64_next (failures rs) (omega (arith, failures_le rs)));
    idle = t.idle;
  }
