-- ===== src/Circuit/Health/Counters.antt =====
-- internal/circuit/health_checker.go: the methods of healthChecker, read off the entry of one
-- server.
use discobox.Prelude.{
  Str, ℕ, ◌≡◌, ◌≢◌, refl, ◌∙◌, ◌++◌, text, decimal, Bool, true, false, Option, none, some,
  if◌then◌else◌, str_eq, arith, Option-cases, Bool-cases, inl, inr, ap, subst,
}
use discobox.Prelude.Dict.{lookup, lookup-insert_self, lookup-insert_ne}
use discobox.Circuit.Health.{
  HealthInfo, HealthChecker, new_info, put, get_or_create_health_info, note_success, note_failure,
  record_success, record_failure, Probe, failed, answered, Target, begin_check, end_check, judge,
  check, is_success, health_url,
}

-- The entry that a method works on: the stored one, or a new one.
abbrev pub info_or : ℕ → Option HealthInfo → HealthInfo
info_or now none = new_info now
info_or now (some info) = info

abbrev pub info_of : ℕ → Str → HealthChecker → HealthInfo
info_of now id hc = info_or now (lookup id hc.health_status)

-- `after` has what `before` has, but for the entry of `id`, which is `info`.
pub record Writes (id : Str) (info : HealthInfo) (before after : HealthChecker) : Type 0 where
  pub own : lookup id after.health_status ≡ some info
  pub others :
      (other : Str)
      → id ≢ other
      → lookup other after.health_status ≡ lookup other before.health_status
  pub fail_threshold : after.fail_threshold ≡ before.fail_threshold
  pub pass_threshold : after.pass_threshold ≡ before.pass_threshold

Writes-put :
    (id : Str) (info : HealthInfo) (hc : HealthChecker) → Writes id info hc (put id info hc)
Writes-put id info hc = record {
  own = lookup-insert_self id info hc.health_status;
  others = λ other n. lookup-insert_ne id other info hc.health_status n;
  fail_threshold = refl;
  pass_threshold = refl;
}

Writes-then :
    (id : Str) (first second : HealthInfo) (a b c : HealthChecker)
    → Writes id first a b
    → Writes id second b c
    → Writes id second a c
Writes-then id first second a b c f s = record {
  own = s.own;
  others = λ other n. s.others other n ∙ f.others other n;
  fail_threshold = s.fail_threshold ∙ f.fail_threshold;
  pass_threshold = s.pass_threshold ∙ f.pass_threshold;
}

module _ (now : ℕ) (id : Str) (hc : HealthChecker) where
  get_or_create-stored :
      {info : HealthInfo}
      → lookup id hc.health_status ≡ some info
      → get_or_create_health_info now id hc ≡ (info, hc)
  unfolding get_or_create_health_info
  get_or_create-stored there = ground (arith, there)

  get_or_create-new :
      lookup id hc.health_status ≡ none
      → get_or_create_health_info now id hc ≡ (new_info now, put id (new_info now) hc)
  unfolding get_or_create_health_info
  get_or_create-new gone = ground (arith, gone)

  pub get_or_create-Writes :
      (get_or_create_health_info now id hc).0 ≡ info_of now id hc
      × Writes id (info_of now id hc) hc (get_or_create_health_info now id hc).1
  get_or_create-Writes = elim (Option-cases (lookup id hc.health_status)) [
    | inl gone ↦ rw (get_or_create-new gone, gone) (refl, Writes-put id (new_info now) hc)
    | inr (info, there) ↦
        rw (get_or_create-stored there, there)
          (
            refl,
            record {
              own = there;
              others = λ other n. refl;
              fail_threshold = refl;
              pass_threshold = refl;
            },
          )
  ]

  -- Every update of an entry writes what it makes of the entry that the server has.
  update-Writes :
      (g : HealthInfo → HealthInfo)
      → let r = get_or_create_health_info now id hc in
        Writes id (g (info_of now id hc)) hc (put id (g r.0) r.1)
  update-Writes g =
      let r = get_or_create_health_info now id hc in
      let w = get_or_create-Writes in
      rw (w.0) (
        Writes-then id (info_of now id hc) (g (info_of now id hc)) hc r.1
          (put id (g (info_of now id hc)) r.1) w.1 (Writes-put id (g (info_of now id hc)) r.1))

  pub record_success-Writes :
      Writes id
        (note_success now hc.pass_threshold (info_of now id hc))
        hc
        (record_success now id hc)
  unfolding record_success
  record_success-Writes = update-Writes (note_success now hc.pass_threshold)

  pub record_failure-Writes :
      (error : Str)
      → Writes id
          (note_failure now hc.fail_threshold error (info_of now id hc))
          hc
          (record_failure now id error hc).1
  unfolding record_failure
  record_failure-Writes error = update-Writes (note_failure now hc.fail_threshold error)

  end_check-Writes :
      Writes id (record (info_of now id hc) { check_in_progress = false }) hc (end_check now id hc)
  unfolding end_check
  end_check-Writes = update-Writes (λ info. record info { check_in_progress = false })

  begin_check-Writes :
      (info_of now id hc).check_in_progress ≡ false
      → ((begin_check now id hc).0 ≡ true)
        × Writes id
            (record (info_of now id hc) { check_in_progress = true })
            hc
            (begin_check now id hc).1
  unfolding begin_check
  begin_check-Writes idle =
      let r = get_or_create_health_info now id hc in
      let w = get_or_create-Writes in
      let i = info_of now id hc in
      let flag : r.0.check_in_progress ≡ false = rw w.0 idle in
      rw flag (
        refl,
        rw w.0 (
            Writes-then id i (record i { check_in_progress = true }) hc r.1
              (put id (record i { check_in_progress = true }) r.1) w.1
              (Writes-put id (record i { check_in_progress = true }) r.1)),
      )

-- Whether a check passes.
abbrev pub passes : Probe → Bool
passes (failed error) = false
passes (answered status) = is_success status

-- The error that a failed check records.
abbrev pub reason : Probe → Str
reason (failed error) = error
reason (answered status) = text "unhealthy status: " ++ decimal status

-- What a check makes of the entry of its server.
abbrev pub noted : ℕ → HealthChecker → Probe → HealthInfo → HealthInfo
noted now hc probe info =
    if passes probe
    then note_success now hc.pass_threshold info
    else note_failure now hc.fail_threshold (reason probe) info

judge-Writes :
    (now : ℕ) (id : Str) (probe : Probe) (hc : HealthChecker)
    → ((judge now id probe hc).0 ≡ (if passes probe then none else some (reason probe)))
      × Writes id (noted now hc probe (info_of now id hc)) hc (judge now id probe hc).1
unfolding judge record_failure
judge-Writes now id (failed error) hc = (refl, record_failure-Writes now id hc error)
judge-Writes now id (answered status) hc = elim (Bool-cases (is_success status)) [
  | inl t ↦ rw t (refl, record_success-Writes now id hc)
  | inr f ↦
      rw f (refl, record_failure-Writes now id hc (text "unhealthy status: " ++ decimal status))
]

noted-flag :
    (now : ℕ) (hc : HealthChecker) (probe : Probe) (i : HealthInfo)
    → i.check_in_progress ≡ false
    → record (noted now hc probe (record i { check_in_progress = true })) {
      check_in_progress = false;
    }
      ≡ noted now hc probe i
unfolding note_success note_failure
noted-flag now hc probe i idle = ground (arith, idle)

own-info_of :
    (now : ℕ) (id : Str) (info : HealthInfo) (a b : HealthChecker)
    → Writes id info a b
    → info_of now id b ≡ info
own-info_of now id info a b w = ap (info_or now) w.own

noted-settings :
    (now : ℕ) (a b : HealthChecker) (id : Str) (i : HealthInfo) (probe : Probe) (info : HealthInfo)
    → Writes id i a b
    → noted now b probe info ≡ noted now a probe info
noted-settings now a b id i probe info w = rw (w.fail_threshold, w.pass_threshold) refl

-- A check that no other one of its server overlaps.
pub check-Writes :
    (now : ℕ) (server : Target) (probe : Str → Probe) (hc : HealthChecker)
    → (info_of now server.id hc).check_in_progress ≡ false
    → let p = probe (health_url server) in
      ((check now server probe hc).0 ≡ (if passes p then none else some (reason p)))
      × Writes server.id
          (noted now hc p (info_of now server.id hc))
          hc
          (check now server probe hc).1
unfolding check
check-Writes now server probe hc idle =
    let id = server.id in
    let p = probe (health_url server) in
    let i = info_of now id hc in
    let busy : HealthInfo = record i { check_in_progress = true } in
    let b = begin_check-Writes now id hc idle in
    let b' = (begin_check now id hc).1 in
    let j = judge-Writes now id p b' in
    let j' = (judge now id p b').1 in
    let e = end_check-Writes now id j' in
    let made : info_of now id j' ≡ noted now hc p busy =
      own-info_of now id (noted now b' p (info_of now id b')) b' j' j.1
      ∙ ap (noted now b' p) (own-info_of now id busy hc b' b.1)
      ∙ noted-settings now hc b' id busy p busy b.1 in
    rw b.0 (
      j.0,
      subst (λ info. Writes id info hc (end_check now id j'))
          (ap (λ (info : HealthInfo). record info { check_in_progress = false }) made
            ∙ noted-flag now hc p i idle)
          (Writes-then id (noted now b' p (info_of now id b'))
            (record (info_of now id j') { check_in_progress = false }) hc j' (end_check now id j')
            (Writes-then id busy (noted now b' p (info_of now id b')) hc b' j' b.1 j.1) e),
    )
