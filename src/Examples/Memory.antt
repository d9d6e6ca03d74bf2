-- ===== src/Examples/Memory.antt =====
-- The theorems on the log, heartbeats and shared records, at concrete values.
use bounded_agent_harness.Json
use bounded_agent_harness.Memory
use bounded_agent_harness.Prelude
use bounded_agent_harness.Queue
use bounded_agent_harness.Registry
use Prim.Native.Char.{char}
use bounded_agent_harness.Prelude.{
  ℕ, zero, suc, ◌+◌, ◌*◌, ◌≤◌, ◌≡◌, refl, ap, String, Bool, true, Option, none, some, List, [], ◌∷◌,
  ◌++◌, Result, ok, err, arith, select,
}
use bounded_agent_harness.Json.{Value, str, num, nat, null, get}
use bounded_agent_harness.Json.Canonical.{Host}
use bounded_agent_harness.Memory.Log.{MemoryStore, read_events}
use bounded_agent_harness.Memory.Lock.{
  Tries, LockPolicy, AppendCall, serialize_local_append, append_event,
}
use bounded_agent_harness.Memory.Lock.Laws.{append_event-ends, Advances, EndsWell}
use bounded_agent_harness.Memory.Lock.Serial.{Outcomes, serialize_local_append-reads}
use bounded_agent_harness.Memory.Heartbeat.{record_heartbeat, is_beat_of}
use bounded_agent_harness.Memory.Heartbeat.Laws.{record_heartbeat-Steady, Steady}
use bounded_agent_harness.Memory.Shared.{SharedStore, get_record, put_record}
use bounded_agent_harness.Memory.Shared.Laws.{put_record-once}
use bounded_agent_harness.Examples.Data.{object, number, value_of, some_hash, registry}

-- A platform that writes an instant as so many strokes.
abbrev strokes : ℕ → String
strokes zero = ""
strokes (suc n) = String.◌∷◌ (char 124 tt) (strokes n)

abbrev tally : String → ℕ
tally String.[] = 0
tally (String.◌∷◌ c s) = suc (tally s)

abbrev pub clock_host : Host
clock_host = record {
  hash = λ s. some_hash;
  parse_date = λ s. some (tally s);
  iso_text = strokes;
  locale_le = λ a b. true;
}

tally-strokes : (n : ℕ) → tally (strokes n) ≡ n
tally-strokes zero = refl
tally-strokes (suc n) = ap suc (tally-strokes n)

pub clock_host-ReadsBack : (n : ℕ) → clock_host.parse_date (clock_host.iso_text n) ≡ some n
clock_host-ReadsBack n = ap some (tally-strokes n)

abbrev empty_log : MemoryStore
empty_log = record { events_file = none; checkpoint_file = none }

abbrev first : Value
first = object (("type", str "first") ∷ [])

abbrev second : Value
second = object (("type", str "second") ∷ [])

abbrev policy : LockPolicy
policy = record { windows = true; timeout_ms = 20; retry_ms = 10 }

-- Another writer holds the lock at the first try.
abbrev held_once : ℕ → Option String
held_once zero = some "EEXIST"
held_once (suc n) = none

abbrev opening : Tries
opening = record { answer = held_once; started = 0; clock = λ n. n * 10 }

abbrev closing : Tries
closing = record { answer = λ n. none; started = 100; clock = λ n. 100 + n * 10 }

opening-Advances : Advances 10 opening
opening-Advances n = omega arith

closing-Advances : Advances 10 closing
closing-Advances n = omega arith

-- The first call waits for the lock; the event of the second is refused, and the third is behind it.
abbrev calls : List AppendCall
calls =
    (record { event = first; opening = opening; closing = closing })
    ∷ (record { event = null; opening = opening; closing = closing })
    ∷ (record { event = second; opening = closing; closing = closing })
    ∷ []

serialize_local_append-reads_example :
    (s : MemoryStore) × (results : List (Result Value)) × (added : List Value)
    × (serialize_local_append clock_host policy 3 calls empty_log ≡ some (s, results))
    × Outcomes policy 3 calls results added
    × (read_events clock_host s ≡ ok added)
unfolding Memory.Log.read_envelopes read_events
serialize_local_append-reads_example =
    serialize_local_append-reads clock_host policy 2 calls empty_log [] (omega arith)
      (
        (opening-Advances, closing-Advances),
        ((opening-Advances, closing-Advances), ((closing-Advances, closing-Advances), tt)),
      )
      refl

append_event-ends_example :
    EndsWell clock_host first empty_log []
      (append_event clock_host policy opening closing 3 first empty_log)
unfolding Memory.Log.read_envelopes read_events
append_event-ends_example =
    append_event-ends clock_host policy opening closing 2 first empty_log [] opening-Advances
      closing-Advances (omega arith) refl

abbrev digest : Value
digest = str "sha256:0123456789abcdef0123456789abcdef0123456789abcdef0123456789abcdef"

abbrev run : Value
run = str "run-1"

abbrev worker : Value
worker = str "worker-1"

abbrev beaten : MemoryStore × Result Value
beaten = record_heartbeat clock_host run worker digest (number 3) 2 empty_log

abbrev beat : Value
beat = value_of first beaten.1

record_heartbeat-Steady_example :
    (read_events clock_host beaten.0 ≡ ok (beat ∷ []))
    × Steady clock_host (select (is_beat_of run worker) (beat ∷ []))
unfolding Json.is_safe_natural Json.is_string Json.text_of Json.Text.starts_with
    Memory.Heartbeat.admit_beat Memory.Heartbeat.check_beat Memory.Heartbeat.check_prior
    record_heartbeat Memory.Log.append_locked Memory.Log.read_envelopes read_events
record_heartbeat-Steady_example =
    record_heartbeat-Steady clock_host run worker digest (number 3) 2 empty_log beaten.0 beat [] run
      worker clock_host-ReadsBack refl tt refl

abbrev empty_records : SharedStore
empty_records = record { records = []; events = empty_log }

abbrev stored : SharedStore × Result Value
stored =
    put_record clock_host registry (str "report") (str "in.v1") (number 7) (num (nat 0))
      empty_records

put_record-once_example :
    (get_record clock_host registry (str "report") stored.0 ≡ ok (value_of first stored.1))
    × (get (value_of first stored.1) "revision" ≡ num (nat 1))
    × (get (value_of first stored.1) "value" ≡ number 7)
    × (put_record clock_host registry
          (str "report")
          (str "out.v1")
          (number 8)
          (num (nat 0))
          stored.0
        ≡ (stored.0, err "REVISION_CONFLICT"))
unfolding Prelude.find_entry Json.is_safe_natural Json.is_string Json.is_truthy Json.is_undefined
    Json.text_of Json.Text.head_and_tail Json.Text.is_id_char Memory.Log.append_locked
    Memory.Log.expected_hash Memory.Log.read_envelopes Memory.Shared.actual_revision
    Memory.Shared.check_put get_record Memory.Shared.is_memory_key Memory.Shared.memory_path
    put_record Memory.Shared.write_record Queue.Validate.or_default Queue.Validate.strict_equal
    Registry.validate_contract
put_record-once_example =
    put_record-once clock_host registry (str "report") (str "in.v1") (number 7) (str "out.v1")
      (number 8) 0 empty_records stored.0 (value_of first stored.1) refl refl
