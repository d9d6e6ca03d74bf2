-- ===== src/Wake/Store.antt =====
-- src/file-wake-store.mjs and src/owner-timeout-runner.mjs: the persisted wake, its schedule, and a tick of
-- polling. A file is the value that its text parses to, since a file is replaced by a whole new one,
-- and null when there is none.
pub mod Calls
pub mod Kept
pub mod Laws
use bounded_agent_harness.Prelude.{
  ℕ, String, Bool, true, false, not, ◌&&◌, ◌||◌, Option, none, some, List, [], ◌∷◌, leb,
  if◌then◌else◌, includes, Result, ok, err, assert, ◌>>=◌, ◌>>◌,
}
use bounded_agent_harness.Json.{
  Value, null, num, nat, str, get, is_string, is_text, is_number, is_truthy, is_null, is_undefined,
  is_object, is_array, text_of, fields_of, object_of,
}
use bounded_agent_harness.Json.Canonical.{Host, digest_of}
use bounded_agent_harness.Queue.Claim.{date_of, set_field}
use bounded_agent_harness.Queue.Validate.{strict_equal}

-- `owner-wake.json` and `owner-wake-schedule.json`.
pub record WakeStore : Type 0 where
  pub wake : Value
  pub schedule : Value

-- An access to a property of null or undefined throws.
abbrev check_present : Value → Result (Unit {0})
check_present v = assert (not (is_null v || is_undefined v)) "UNEXPECTED_ERROR"

-- `if (existing) assert(existing.wakeDigest === record.wakeDigest, …)`.
unfoldable pub check_same_wake : (existing r : Value) → Result (Unit {0})
check_same_wake existing r =
    if is_truthy existing
    then assert (strict_equal (get existing "wakeDigest") (get r "wakeDigest")) "WAKE_CONFLICT"
    else ok tt

-- `persistWake(record)`.
unfoldable pub check_persist : Value → WakeStore → Result (Unit {0})
check_persist r s = do
  assert (is_text (get r "format") "agent-harness.owner-wake.v1") "INVALID_WAKE"
  check_same_wake s.wake r

unfoldable pub write_wake : Value → WakeStore → WakeStore
write_wake r s = if is_truthy s.wake then s else (record s { wake = r })

unfoldable pub persist_wake : Value → WakeStore → WakeStore × Result Value
persist_wake r s = elim (check_persist r s) [
  | err code ↦ (s, err code)
  | ok _ ↦ (write_wake r s, ok r)
]

-- `scheduleWake(record)`.
unfoldable pub check_schedule : Value → WakeStore → Result (Unit {0})
check_schedule r s = do
  assert (strict_equal (get s.wake "wakeDigest") (get r "wakeDigest")) "WAKE_NOT_PERSISTED"
  check_present r
  check_same_wake s.schedule r
  assert (not (is_truthy s.schedule) || is_text (get s.schedule "status") "SCHEDULED")
      "WAKE_ALREADY_CONSUMED"

unfoldable pub new_schedule : Value → Value
new_schedule r = object_of (
    ("format", str "agent-harness.owner-wake-schedule.v1")
    ∷ ("version", num (nat 1))
    ∷ ("wakeDigest", get r "wakeDigest")
    ∷ ("nextWakeAt", get r "nextWakeAt")
    ∷ ("action", get r "action")
    ∷ ("status", str "SCHEDULED")
    ∷ [])

unfoldable pub write_schedule : Value → WakeStore → WakeStore
write_schedule r s = if is_truthy s.schedule then s else (record s { schedule = new_schedule r })

unfoldable pub schedule_wake : Value → WakeStore → WakeStore × Result (Unit {0})
schedule_wake r s = elim (check_schedule r s) [
  | err code ↦ (s, err code)
  | ok _ ↦ (write_schedule r s, ok tt)
]

unfoldable pub unsigned_wake : Value → Value
unsigned_wake w = object_of (
    ("format", get w "format")
    ∷ ("version", get w "version")
    ∷ ("workflowDigest", get w "workflowDigest")
    ∷ ("parentRunId", get w "parentRunId")
    ∷ ("checkpointDigest", get w "checkpointDigest")
    ∷ ("action", get w "action")
    ∷ ("nextWakeAt", get w "nextWakeAt")
    ∷ [])

-- `Date.parse(value) <= current`.
abbrev is_due : Option ℕ → ℕ → Bool
is_due none now = false
is_due (some t) now = leb t now

-- The checks of `readPendingWake` on a schedule that waits.
unfoldable pub check_pending : Host → WakeStore → Result (Unit {0})
check_pending host s = do
  assert (is_text (get s.wake "wakeDigest") (digest_of host (unsigned_wake s.wake))) "WAKE_CORRUPT"
  assert (strict_equal (get s.schedule "wakeDigest") (get s.wake "wakeDigest")) "WAKE_CORRUPT"
  assert
      (strict_equal (get s.schedule "nextWakeAt") (get s.wake "nextWakeAt")
        && strict_equal (get s.schedule "action") (get s.wake "action"))
      "WAKE_CORRUPT"

abbrev is_status : Value → Bool
is_status v = is_text v "SCHEDULED" || is_text v "CONSUMED"

-- `readPendingWake({ now })`: whether the wake and its schedule are pending.
unfoldable pub read_schedule : Host → (now : ℕ) → WakeStore → Result Bool
read_schedule host now s = do
  assert
      (is_text (get s.schedule "format") "agent-harness.owner-wake-schedule.v1"
        && is_number (get s.schedule "version") 1)
      "WAKE_CORRUPT"
  assert (is_status (get s.schedule "status")) "WAKE_CORRUPT"
  (if is_text (get s.schedule "status") "SCHEDULED"
      then check_pending host s >> ok (is_due (date_of host (get s.schedule "nextWakeAt")) now)
      else ok false)

unfoldable pub read_pending_wake : Host → (now : ℕ) → WakeStore → Result Bool
read_pending_wake host now s =
    if is_truthy s.wake && is_truthy s.schedule then read_schedule host now s else ok false

-- `acknowledgeWake(wakeDigest)`; `at` is the current instant.
unfoldable pub check_acknowledge : Value → WakeStore → Result (Unit {0})
check_acknowledge digest s = do
  assert (strict_equal (get s.schedule "wakeDigest") digest) "WAKE_NOT_FOUND"
  check_present s.schedule
  assert (is_text (get s.schedule "status") "SCHEDULED") "WAKE_ALREADY_CONSUMED"

unfoldable pub consumed : Host → (at : ℕ) → Value → Value
consumed host at schedule = object_of (
    set_field "consumedAt" (str (host.iso_text at))
      (set_field "status" (str "CONSUMED") (fields_of schedule)))

unfoldable pub acknowledge_wake :
    Host → (at : ℕ) → Value → WakeStore → WakeStore × Result (Unit {0})
acknowledge_wake host at digest s = elim (check_acknowledge digest s) [
  | err code ↦ (s, err code)
  | ok _ ↦ (record s { schedule = consumed host at s.schedule }, ok tt)
]

pub data Poll : Type 0 where
  idle : Poll
  dispatched : (wake_digest decision : Value) → Poll

-- `dispatchDueWake(pending)` with the check of its outcome; the dispatcher may throw.
unfoldable pub run_dispatcher : (Value → Value → Result Value) → WakeStore → Result Value
run_dispatcher dispatch s = do
  outcome ← dispatch s.wake s.schedule
  assert ((is_object outcome || is_array outcome) && is_string (get outcome "decision"))
      "INVALID_WAKE_OUTCOME"
  ok (get outcome "decision")

abbrev pub after_acknowledge : Value → WakeStore × Result (Unit {0}) → WakeStore × Result Poll
after_acknowledge decision (s, r) = (s, r >> ok (dispatched (get s.wake "wakeDigest") decision))

unfoldable pub dispatch_wake :
    Host → (at : ℕ) → (Value → Value → Result Value) → WakeStore → WakeStore × Result Poll
dispatch_wake host at dispatch s = elim (run_dispatcher dispatch s) [
  | err code ↦ (s, err code)
  | ok decision ↦ after_acknowledge decision (acknowledge_wake host at (get s.wake "wakeDigest") s)
]

-- A call of the dispatcher, with the wake and its schedule.
pub record Dispatch : Type 0 where
  pub wake : Value
  pub schedule : Value

-- What a poll leaves behind: the store, the calls of the dispatcher that it made, and its outcome.
pub record Polled : Type 0 where
  pub store : WakeStore
  pub calls : List Dispatch
  pub outcome : Result Poll

abbrev pub resting : WakeStore → Result Poll → Polled
resting s r = record { store = s; calls = []; outcome = r }

abbrev pub calling : WakeStore → WakeStore × Result Poll → Polled
calling s (s', r) = record {
  store = s';
  calls = (record { wake = s.wake; schedule = s.schedule }) ∷ [];
  outcome = r;
}

-- `pollOwnerWake({ wakeStore, now, dispatchDueWake })` on this store, which the dispatcher leaves alone.
unfoldable pub poll_owner_wake :
    Host → (now at : ℕ) → (Value → Value → Result Value) → WakeStore → Polled
poll_owner_wake host now at dispatch s = elim (read_pending_wake host now s) [
  | err code ↦ resting s (err code)
  | ok false ↦ resting s (ok idle)
  | ok true ↦ calling s (dispatch_wake host at dispatch s)
]
