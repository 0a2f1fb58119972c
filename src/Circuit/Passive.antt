-- ===== src/Circuit/Passive.antt =====
-- internal/circuit/health_checker.go: PassiveHealthChecker. Times are numbers of nanoseconds.
pub mod Window
pub mod Verdict
use discobox.Prelude.{
  Str, ℕ, ◌++◌, Bool, true, false, List, [], ◌∷◌, Option, none, some, if◌then◌else◌, keep, length,
  str_eq,
}
use discobox.Prelude.Int.{ℤ, pos, leb_ℤ, ltb_ℤ, ◌+ℤ◌}
use discobox.Prelude.Dict.{Dict, lookup, insert}

pub record PassiveInfo : Type 0 where
  pub failures : List ℕ
  pub last_failure : ℕ
  pub healthy : Bool

pub record PassiveChecker : Type 0 where
  pub health_status : Dict Str PassiveInfo
  pub fail_threshold : ℤ
  pub window : ℤ

abbrev pub new_passive_health_checker : ℤ → ℤ → PassiveChecker
new_passive_health_checker fail_threshold window = record {
  health_status = [];
  fail_threshold = fail_threshold;
  window = window;
}

abbrev pub put : Str → PassiveInfo → PassiveChecker → PassiveChecker
put id info p = record p { health_status = insert id info p.health_status }

unfoldable pub record_success : Str → PassiveChecker → PassiveChecker
record_success id p = elim (lookup id p.health_status) [
  | some info ↦ put id (record info { failures = []; healthy = true }) p
  | none ↦ p
]

-- t.After(now.Add(-window))
unfoldable pub is_recent : ℤ → ℕ → ℕ → Bool
is_recent window now t = ltb_ℤ (pos now) (pos t +ℤ window)

-- The entry of a server that has none, before its failure is counted.
abbrev pub new_info : PassiveInfo
new_info = record { failures = []; last_failure = 0; healthy = true }

-- What RecordFailure does to an entry.
unfoldable pub note_failure : ℕ → ℤ → ℤ → PassiveInfo → PassiveInfo
note_failure now threshold window info =
    let failures = keep (is_recent window now) info.failures ++ now ∷ [] in
    record info {
      failures = failures;
      last_failure = now;
      healthy = if leb_ℤ threshold (pos (length failures)) then false else info.healthy;
    }

abbrev pub info_or : Option PassiveInfo → PassiveInfo
info_or none = new_info
info_or (some info) = info

unfoldable pub record_failure : ℕ → Str → PassiveChecker → PassiveChecker
record_failure now id p =
    put id (note_failure now p.fail_threshold p.window (info_or (lookup id p.health_status))) p

unfoldable pub is_healthy : Str → PassiveChecker → Bool
is_healthy id p = elim (lookup id p.health_status) [ some info ↦ info.healthy | none ↦ true ]
