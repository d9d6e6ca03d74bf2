-- ===== src/Memory/Heartbeat.antt =====
-- src/heartbeat.mjs: the age of a heartbeat, the recording of heartbeats in the log of events, and their
-- summary. The checkpoint of a recovery is in Executor/Log. Instants are milliseconds; the events of a
-- log are objects, and a recorded cost is a natural number, as `recordHeartbeat` writes no other.
pub mod Laws
use Prim.Native.Char.{char}
use bounded_agent_harness.Prelude.{
  ℕ, ◌-◌, String, Bool, true, false, not, ◌&&◌, Option, none, some, List, [], ◌∷◌, leb, ltb,
  if◌then◌else◌, select, last, set_entry, values, Result, ok, err, assert, ◌>>=◌, ◌>>◌, map_each,
  str_eq,
}
use bounded_agent_harness.Json.{
  Value, num, nat, str, get, is_string, is_text, is_safe_positive, is_safe_natural, text_of, nat_of,
  object_of,
}
use bounded_agent_harness.Json.Text.{codes, starts_with, sort}
use bounded_agent_harness.Json.Canonical.{Host, one, ◌+++◌}
use bounded_agent_harness.Queue.Claim.{date_of}
use bounded_agent_harness.Queue.Validate.{string_of, strict_equal}
use bounded_agent_harness.Memory.Log.{MemoryStore, read_events, append_locked}

pub record HeartbeatStatus : Type 0 where
  pub is_alive : Bool
  pub age_ms : ℕ
  pub lease_ms : Value
  pub recovery_required : Bool

-- `heartbeatStatus({ lastReceiptAt, now, leaseMs })`, with NaN as `none`.
unfoldable pub heartbeat_status :
    (last_receipt_at : Option ℕ) (now : ℕ) (lease_ms : Value) → Result HeartbeatStatus
heartbeat_status none now lease_ms = err "INVALID_TIME"
heartbeat_status (some received) now lease_ms = do
  assert (is_safe_positive lease_ms) "INVALID_LEASE"
  ok (record {
    is_alive = leb (now - received) (nat_of lease_ms);
    age_ms = now - received;
    lease_ms = lease_ms;
    recovery_required = ltb (nat_of lease_ms) (now - received);
  })

abbrev is_filled_text : Value → Bool
is_filled_text v = is_string v && not (str_eq (text_of v) "")

unfoldable pub is_beat : Value → Bool
is_beat event = is_text (get event "type") "heartbeat.received"

unfoldable pub is_beat_of : (run_id worker_id : Value) → Value → Bool
is_beat_of run_id worker_id event =
    is_beat event
    && strict_equal (get event "runId") run_id
    && strict_equal (get event "workerId") worker_id

-- `Date.parse(value) <= at`.
unfoldable pub is_until : Option ℕ → ℕ → Bool
is_until none at = false
is_until (some t) at = leb t at

-- The checks against the last heartbeat of the worker in the run.
unfoldable pub check_prior :
    Host → (digest spent : Value) (at : ℕ) → Option Value → Result (Unit {0})
check_prior host digest spent at none = ok tt
check_prior host digest spent at (some prior) = do
  assert (strict_equal (get prior "workflowDigest") digest) "HEARTBEAT_WORKFLOW_MISMATCH"
  assert (is_until (date_of host (get prior "at")) at) "HEARTBEAT_TIME_REGRESSION"
  assert (leb (nat_of (get prior "spentCostUnits")) (nat_of spent)) "HEARTBEAT_COST_REGRESSION"

unfoldable pub new_beat : Host → (run_id worker_id digest spent : Value) (at : ℕ) → Value
new_beat host run_id worker_id digest spent at = object_of (
    ("type", str "heartbeat.received")
    ∷ ("runId", run_id)
    ∷ ("workerId", worker_id)
    ∷ ("workflowDigest", digest)
    ∷ ("spentCostUnits", spent)
    ∷ ("at", str (host.iso_text at))
    ∷ [])

unfoldable pub check_beat : (run_id worker_id digest spent : Value) → Result (Unit {0})
check_beat run_id worker_id digest spent = do
  assert (is_filled_text run_id) "INVALID_HEARTBEAT"
  assert (is_filled_text worker_id) "INVALID_HEARTBEAT"
  assert (is_string digest && starts_with (codes "sha256:") (codes (text_of digest)))
      "INVALID_HEARTBEAT"
  assert (is_safe_natural spent) "INVALID_HEARTBEAT"

-- What `recordHeartbeat` checks before it appends.
unfoldable pub admit_beat :
    Host → (run_id worker_id digest spent : Value) (at : ℕ) → MemoryStore → Result Value
admit_beat host run_id worker_id digest spent at s = do
  check_beat run_id worker_id digest spent
  events ← read_events host s
  check_prior host digest spent at (last (select (is_beat_of run_id worker_id) events))
  ok (new_beat host run_id worker_id digest spent at)

-- `recordHeartbeat(memory, { runId, workerId, workflowDigest, spentCostUnits, at })` on a log whose lock
-- is free.
unfoldable pub record_heartbeat :
    Host
    → (run_id worker_id digest spent : Value) (at : ℕ) → MemoryStore
    → MemoryStore × Result Value
record_heartbeat host run_id worker_id digest spent at s =
    elim (admit_beat host run_id worker_id digest spent at s) [
      | err code ↦ (s, err code)
      | ok event ↦ let (s', r) = append_locked host event s in (s', r >> ok event)
    ]

-- `${event.runId}\u0000${event.workerId}`.
unfoldable pub beat_key : Value → String
beat_key event =
    string_of (get event "runId") +++ one (char 0 tt) +++ string_of (get event "workerId")

-- The loop that fills `latest`.
unfoldable pub latest_beats : List (String × Value) → List Value → List (String × Value)
latest_beats latest [] = latest
latest_beats latest (event ∷ events) =
    latest_beats (if is_beat event then set_entry (beat_key event) event latest else latest) events

pub record HeartbeatSummary : Type 0 where
  pub event : Value
  pub status : HeartbeatStatus

unfoldable pub summary_of : Host → (now : ℕ) (lease_ms : Value) → Value → Result HeartbeatSummary
summary_of host now lease_ms event = do
  status ← heartbeat_status (date_of host (get event "at")) now lease_ms
  ok (record { event = event; status = status })

abbrev summary_le : Host → HeartbeatSummary → HeartbeatSummary → Bool
summary_le host a b = host.locale_le (name_of a.event) (name_of b.event)
  where
    name_of : Value → String
    name_of event = string_of (get event "runId") +++ "/" +++ string_of (get event "workerId")

-- `summarizeHeartbeats(events, { now, leaseMs })`; a summary holds the event whose run, worker, digest,
-- cost and time it repeats.
unfoldable pub summarize_heartbeats :
    Host → List Value → (now : ℕ) (lease_ms : Value) → Result (List HeartbeatSummary)
summarize_heartbeats host events now lease_ms = do
  summaries ← map_each (summary_of host now lease_ms) (values (latest_beats [] events))
  ok (sort (summary_le host) summaries)
