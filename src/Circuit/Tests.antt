-- ===== src/Circuit/Tests.antt =====
-- The health checkers of internal/circuit on a few results.
use discobox.Prelude.{Str, ℕ, ◌≡◌, refl, true, false, List, [], ◌∷◌, text, arith, list_beq, decimal}
use discobox.Prelude.Int.{pos, wrap32, wrap64, ◌+ℤ◌}
use discobox.Prelude.Dict.{lookup, insert}
use discobox.Circuit.Health.{
  Probe, answered, Target, new_health_checker, is_healthy, get_health_status, check, judge,
  begin_check, end_check, get_or_create_health_info, record_success, record_failure, note_success,
  note_failure, health_url,
}
use discobox.Circuit.Health.History.{Event, checked, succeeded, errored, run, results, verdict}
use discobox.Circuit.Health.Verdict.{Tracked, is_healthy-verdict}
use discobox.Circuit.Passive
use discobox.Circuit.Passive.Verdict as PassiveVerdict
use discobox.Circuit.Passive.Verdict.{is_healthy-passive}

abbrev web : Target
web = record { id = text "web"; url = text "http://10.0.0.1"; health_path = [] }

abbrev answers_with : ℕ → Str → Probe
answers_with status url = answered status

-- Two failures in a row take the server down, and one pass is not enough to bring it up again.
abbrev history : List Event
history =
    checked 1 web (answers_with 503)
    ∷ errored 2 (text "db") (text "refused")
    ∷ checked 3 web (answers_with 500)
    ∷ succeeded 4 (text "web")
    ∷ []

history_down : is_healthy (text "web") (run history (new_health_checker (pos 2) (pos 2))) ≡ false
unfolding is_healthy check judge begin_check end_check get_or_create_health_info record_success
    record_failure note_success note_failure health_url wrap32 wrap64 ◌+ℤ◌ lookup insert list_beq
    decimal
history_down = refl

history_up :
    is_healthy (text "web") (
      run
        (checked 5 web (answers_with 204) ∷ [])
        (run history (new_health_checker (pos 2) (pos 2))))
    ≡ true
unfolding is_healthy check judge begin_check end_check get_or_create_health_info record_success
    record_failure note_success note_failure health_url wrap32 wrap64 ◌+ℤ◌ lookup insert list_beq
    decimal
history_up = refl

is_healthy-verdict_example :
    (is_healthy (text "web") (run history (new_health_checker (pos 2) (pos 2)))
      ≡ verdict 2 2 (results (text "web") history []))
    × Tracked 2 2
        (results (text "web") history [])
        (get_health_status (text "web") (run history (new_health_checker (pos 2) (pos 2))))
is_healthy-verdict_example =
    is_healthy-verdict 2 2 history (text "web") (omega arith) (omega arith) (omega arith)

abbrev outcomes : List PassiveVerdict.Event
outcomes =
    PassiveVerdict.errored 10 (text "web")
    ∷ PassiveVerdict.errored 200 (text "web")
    ∷ PassiveVerdict.errored 250 (text "web")
    ∷ []

is_healthy-passive_example :
    Passive.is_healthy
      (text "web")
      (PassiveVerdict.run outcomes (Passive.new_passive_health_checker (pos 2) (pos 100)))
    ≡ PassiveVerdict.verdict (pos 2) (pos 100) (PassiveVerdict.outcomes (text "web") outcomes [])
is_healthy-passive_example =
    is_healthy-passive (pos 2) (pos 100) outcomes (text "web")
      (omega arith, (omega arith, (omega arith, tt)))
