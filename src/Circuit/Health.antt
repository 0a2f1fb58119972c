-- ===== src/Circuit/Health.antt =====
-- internal/circuit/health_checker.go: healthChecker. An error is its text, and a time a number of
-- nanoseconds. What the network gives for a health check is an argument. The `*healthInfo` that a
-- method mutates is written back to the map.
pub mod Counters
pub mod History
pub mod Verdict
use discobox.Prelude.{
  Str, ℕ, Bool, true, false, not, ◌&&◌, ◌++◌, [], Option, none, some, if◌then◌else◌, ltb, leb,
  str_eq, text, is_empty, decimal,
}
use discobox.Prelude.Int.{ℤ, pos, leb_ℤ, ◌+ℤ◌, wrap32, wrap64}
use discobox.Prelude.Dict.{Dict, lookup, insert}

pub record HealthInfo : Type 0 where
  pub healthy : Bool
  pub consecutive_fails : ℤ
  pub consecutive_pass : ℤ
  pub last_check : ℕ
  pub last_error : Option Str
  pub check_in_progress : Bool
  pub total_checks : ℤ
  pub total_failures : ℤ

pub record HealthChecker : Type 0 where
  pub fail_threshold : ℤ
  pub pass_threshold : ℤ
  pub health_status : Dict Str HealthInfo

abbrev pub new_health_checker : ℤ → ℤ → HealthChecker
new_health_checker fail_threshold pass_threshold = record {
  fail_threshold = fail_threshold;
  pass_threshold = pass_threshold;
  health_status = [];
}

abbrev pub new_info : ℕ → HealthInfo
new_info now = record {
  healthy = true;
  consecutive_fails = pos 0;
  consecutive_pass = pos 0;
  last_check = now;
  last_error = none;
  check_in_progress = false;
  total_checks = pos 0;
  total_failures = pos 0;
}

abbrev pub put : Str → HealthInfo → HealthChecker → HealthChecker
put id info hc = record hc { health_status = insert id info hc.health_status }

unfoldable pub get_or_create_health_info : ℕ → Str → HealthChecker → HealthInfo × HealthChecker
get_or_create_health_info now id hc = elim (lookup id hc.health_status) [
  | some info ↦ (info, hc)
  | none ↦ (new_info now, put id (new_info now) hc)
]

-- What recordSuccess does to the server's entry.
unfoldable pub note_success : ℕ → ℤ → HealthInfo → HealthInfo
note_success now threshold info =
    let passes = wrap32 (info.consecutive_pass +ℤ pos 1) in
    record info {
      healthy = if leb_ℤ (wrap32 threshold) passes && not info.healthy then true else info.healthy;
      consecutive_fails = pos 0;
      consecutive_pass = passes;
      last_check = now;
      last_error = none;
      total_checks = wrap64 (info.total_checks +ℤ pos 1);
    }

-- What recordFailure does to it.
unfoldable pub note_failure : ℕ → ℤ → Str → HealthInfo → HealthInfo
note_failure now threshold error info =
    let fails = wrap32 (info.consecutive_fails +ℤ pos 1) in
    record info {
      healthy = if leb_ℤ (wrap32 threshold) fails && info.healthy then false else info.healthy;
      consecutive_fails = fails;
      consecutive_pass = pos 0;
      last_check = now;
      last_error = some error;
      total_checks = wrap64 (info.total_checks +ℤ pos 1);
      total_failures = wrap64 (info.total_failures +ℤ pos 1);
    }

unfoldable pub record_success : ℕ → Str → HealthChecker → HealthChecker
record_success now id hc =
    let g = get_or_create_health_info now id hc in
    put id (note_success now hc.pass_threshold g.0) g.1

-- It returns the error that it is given.
unfoldable pub record_failure : ℕ → Str → Str → HealthChecker → Option Str × HealthChecker
record_failure now id error hc =
    let g = get_or_create_health_info now id hc in
    (some error, put id (note_failure now hc.fail_threshold error g.0) g.1)

unfoldable pub is_healthy : Str → HealthChecker → Bool
is_healthy id hc = elim (lookup id hc.health_status) [ some info ↦ info.healthy | none ↦ true ]

-- What GetHealthStatus tells of a server that is tracked: all that the entry has but the flag.
unfoldable pub get_health_status : Str → HealthChecker → Option HealthInfo
get_health_status id hc = lookup id hc.health_status

-- What the network gives for a check: an error of NewRequestWithContext or of Do, or a status code.
pub data Probe : Type 0 where
  failed : Str → Probe
  answered : ℕ → Probe

-- The part of a server that a check reads: `url` is URL.String(), `health_path` is
-- Metadata["health_path"], empty where it is missing.
pub record Target : Type 0 where
  pub id : Str
  pub url : Str
  pub health_path : Str

unfoldable pub health_url : Target → Str
health_url server =
    server.url ++ (if is_empty server.health_path then text "/health" else server.health_path)

-- The compare-and-swap of checkInProgress: `false` where a check is under way.
unfoldable pub begin_check : ℕ → Str → HealthChecker → Bool × HealthChecker
begin_check now id hc =
    let g = get_or_create_health_info now id hc in
    if g.0.check_in_progress
    then (false, g.1)
    else (true, put id (record g.0 { check_in_progress = true }) g.1)

-- The deferred store.
unfoldable pub end_check : ℕ → Str → HealthChecker → HealthChecker
end_check now id hc =
    let g = get_or_create_health_info now id hc in
    put id (record g.0 { check_in_progress = false }) g.1

abbrev pub is_success : ℕ → Bool
is_success status = leb 200 status && ltb status 300

-- Check, from the answer of the network on.
unfoldable pub judge : ℕ → Str → Probe → HealthChecker → Option Str × HealthChecker
judge now id (failed error) hc = record_failure now id error hc
judge now id (answered status) hc =
    if is_success status
    then (none, record_success now id hc)
    else record_failure now id (text "unhealthy status: " ++ decimal status) hc

unfoldable pub check : ℕ → Target → (Str → Probe) → HealthChecker → Option Str × HealthChecker
check now server probe hc =
    let b = begin_check now server.id hc in
    let r = judge now server.id (probe (health_url server)) b.1 in
    if b.0 then (r.0, end_check now server.id r.1) else (none, b.1)
