-- ===== src/Wake/Schedule.antt =====
-- src/continuation-scheduler.mjs: the record of a wake, and arming it on the store of Wake/Store.
pub mod Laws
use bounded_agent_harness.Prelude.{
  ℕ, String, Bool, true, false, not, ◌&&◌, Option, none, some, List, [], ◌∷◌, ltb, str_eq, Result,
  ok, err, assert, ◌>>=◌, ◌>>◌, if◌then◌else◌,
}
use bounded_agent_harness.Json.{
  Value, bool, num, nat, str, get, is_string, is_text, text_of, object_of,
}
use bounded_agent_harness.Json.Text.{is_digest}
use bounded_agent_harness.Json.Canonical.{Host}
use bounded_agent_harness.Queue.Claim.{date_of}
use bounded_agent_harness.Queue.Validate.{strict_equal, seal}
use bounded_agent_harness.Wake.Store.{WakeStore, persist_wake, schedule_wake}

unfoldable pub valid_digest : Value → Result (Unit {0})
valid_digest v = assert (is_string v && is_digest (text_of v)) "INVALID_WAKE"

-- `validTimestamp`.
unfoldable pub valid_timestamp : Host → Value → Result ℕ
valid_timestamp host v = elim (date_of host v) [ none ↦ err "INVALID_WAKE" | some t ↦ ok t ]

unfoldable pub wake_record : Host → (workflow run checkpoint : Value) (wake_at : ℕ) → Value
wake_record host workflow run checkpoint wake_at = seal host "wakeDigest" (
    ("format", str "agent-harness.owner-wake.v1")
    ∷ ("version", num (nat 1))
    ∷ ("workflowDigest", workflow)
    ∷ ("parentRunId", run)
    ∷ ("checkpointDigest", checkpoint)
    ∷ ("action", str "RECHECK_OWNER_TIMEOUT")
    ∷ ("nextWakeAt", str (host.iso_text wake_at))
    ∷ [])

-- `buildOwnerWakeRecord({ workflowDigest, parentRunId, checkpointDigest, nextWakeAt, now })`.
unfoldable pub build_owner_wake_record :
    Host → (workflow run checkpoint next_wake_at : Value) (now : ℕ) → Result Value
build_owner_wake_record host workflow run checkpoint next_wake_at now = do
  valid_digest workflow
  valid_digest checkpoint
  assert (is_string run && not (str_eq (text_of run) "")) "INVALID_WAKE"
  wake_at ← valid_timestamp host next_wake_at
  assert (ltb now wake_at) "WAKE_NOT_FUTURE"
  ok (wake_record host workflow run checkpoint wake_at)

-- What `armOwnerTimeout` reports of a record; it is armed, and never terminal.
pub record Armed : Type 0 where
  pub action : Value
  pub next_wake_at : Value
  pub wake_digest : Value

abbrev is_false : Value → Bool
is_false (bool false) = true
is_false v = false

unfoldable pub check_decision : Value → Result (Unit {0})
check_decision decision = do
  assert (is_text (get decision "decision") "WAIT_OWNER") "INVALID_WAKE_DECISION"
  assert
      (is_false (get (get decision "watchdog") "terminal")
        && is_text (get (get decision "watchdog") "state") "ARMED")
      "INVALID_WAKE_DECISION"

unfoldable pub record_of_decision : Host → Value → (now : ℕ) → Result Value
record_of_decision host decision now = do
  check_decision decision
  build_owner_wake_record host (get decision "workflowDigest") (get decision "parentRunId")
      (get decision "checkpointDigest") (get (get decision "watchdog") "nextWakeAt") now

abbrev report_armed : Value → Result (Unit {0}) → Result Armed
report_armed r scheduled =
    scheduled
    >> ok (record {
      action = get r "action";
      next_wake_at = get r "nextWakeAt";
      wake_digest = get r "wakeDigest";
    })

-- The record is persisted, its digest compared, and then scheduled.
unfoldable pub arm_record : Value → WakeStore → WakeStore × Result Armed
arm_record r s =
    let (s', persisted) = persist_wake r s in
    elim (persisted >>= λ p.
    assert (strict_equal (get p "wakeDigest") (get r "wakeDigest")) "WAKE_NOT_PERSISTED") [
      | err code ↦ (s', err code)
      | ok _ ↦ let (s'', scheduled) = schedule_wake r s' in (s'', report_armed r scheduled)
    ]

-- `armOwnerTimeout({ decision, now, persistWake, scheduleWake })` with the callbacks of the store.
unfoldable pub arm_owner_timeout : Host → Value → (now : ℕ) → WakeStore → WakeStore × Result Armed
arm_owner_timeout host decision now s = elim (record_of_decision host decision now) [
  | err code ↦ (s, err code)
  | ok r ↦ arm_record r s
]
