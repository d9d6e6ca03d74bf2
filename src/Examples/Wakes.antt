-- ===== src/Examples/Wakes.antt =====
-- The theorems on the wake of an absent owner, at concrete values.
use bounded_agent_harness.Json
use bounded_agent_harness.Queue
use bounded_agent_harness.Wake
use bounded_agent_harness.Prelude.{◌≡◌, ◌⊎◌, refl, String, false, [], ◌∷◌, Result, ok, err}
use bounded_agent_harness.Json.{Value, str, bool, get}
use bounded_agent_harness.Wake.Store.{
  WakeStore, Polled, Poll, idle, dispatched, poll_owner_wake, acknowledge_wake,
}
use bounded_agent_harness.Wake.Store.Laws.{poll_owner_wake-once}
use bounded_agent_harness.Wake.Store.Calls.{done, call, poll}
use bounded_agent_harness.Wake.Schedule.{Armed, arm_owner_timeout}
use bounded_agent_harness.Wake.Schedule.Laws.{empty_store, arm_owner_timeout-pending}
use bounded_agent_harness.Examples.Data.{object, value_of}
use bounded_agent_harness.Examples.Memory.{clock_host, clock_host-ReadsBack}

abbrev digest : Value
digest = str "sha256:0123456789abcdef0123456789abcdef0123456789abcdef0123456789abcdef"

abbrev decision : Value
decision = object (
    ("decision", str "WAIT_OWNER")
    ∷ ("workflowDigest", digest)
    ∷ ("parentRunId", str "run-1")
    ∷ ("checkpointDigest", digest)
    ∷ (
      "watchdog",
      object (
          ("terminal", bool false)
          ∷ ("state", str "ARMED")
          ∷ ("nextWakeAt", str (clock_host.iso_text 5))
          ∷ []),
    )
    ∷ [])

abbrev armed : WakeStore × Result Armed
armed = arm_owner_timeout clock_host decision 2 empty_store

abbrev no_report : Armed
no_report = record { action = digest; next_wake_at = digest; wake_digest = digest }

abbrev report : Armed
report = value_of no_report armed.1

abbrev dispatch : Value → Value → Result Value
dispatch wake schedule = ok (object (("decision", str "CONTINUE_FORK") ∷ []))

abbrev polled : Polled
polled = poll_owner_wake clock_host 6 6 dispatch armed.0

arm_owner_timeout-pending_example : polled.store.wake ≡ armed.0.wake
unfolding get Json.is_null Json.is_string Json.is_text Json.is_truthy Json.is_undefined
    Json.object_of Json.text_of Json.Canonical.digest_of Json.Text.is_digest Queue.Validate.seal
    Queue.Validate.strict_equal Queue.Validate.strings_of_items arm_owner_timeout
    Wake.Schedule.arm_record Wake.Schedule.build_owner_wake_record Wake.Schedule.check_decision
    Wake.Schedule.record_of_decision Wake.Schedule.valid_digest Wake.Schedule.valid_timestamp
    Wake.Schedule.wake_record Wake.Store.check_persist Wake.Store.check_same_wake
    Wake.Store.check_schedule Wake.Store.persist_wake Wake.Store.schedule_wake Wake.Store.write_wake
arm_owner_timeout-pending_example =
    (arm_owner_timeout-pending clock_host decision 2 9 armed.0 polled.store report
      clock_host-ReadsBack refl (call (poll 6 6 dispatch) done)).5

poll_owner_wake-once_example :
    ((poll_owner_wake clock_host 9 9 dispatch polled.store).calls ≡ [])
    × ((poll_owner_wake clock_host 9 9 dispatch polled.store).store ≡ polled.store)
    × (((poll_owner_wake clock_host 9 9 dispatch polled.store).outcome ≡ ok idle)
        ⊎ ((code : String) × ((poll_owner_wake clock_host 9 9 dispatch polled.store).outcome
              ≡ err code)))
unfolding get Json.is_null Json.is_number Json.is_object Json.is_string Json.is_text Json.is_truthy
    Json.is_undefined Json.object_of Json.text_of Json.Canonical.digest_of Json.Text.is_digest
    Queue.Validate.seal Queue.Validate.strict_equal Queue.Validate.strings_of_items
    arm_owner_timeout Wake.Schedule.arm_record Wake.Schedule.build_owner_wake_record
    Wake.Schedule.check_decision Wake.Schedule.record_of_decision Wake.Schedule.valid_digest
    Wake.Schedule.valid_timestamp Wake.Schedule.wake_record acknowledge_wake
    Wake.Store.check_acknowledge Wake.Store.check_pending Wake.Store.check_persist
    Wake.Store.check_same_wake Wake.Store.check_schedule Wake.Store.dispatch_wake
    Wake.Store.new_schedule Wake.Store.persist_wake poll_owner_wake Wake.Store.read_pending_wake
    Wake.Store.read_schedule Wake.Store.run_dispatcher Wake.Store.schedule_wake
    Wake.Store.write_schedule Wake.Store.write_wake
poll_owner_wake-once_example =
    poll_owner_wake-once clock_host 6 6 9 9 dispatch dispatch armed.0 polled.store
      (get armed.0.wake "wakeDigest") (str "CONTINUE_FORK") refl done
