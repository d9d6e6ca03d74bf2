-- ===== src/Examples/Reports.antt =====
-- The theorem on the summaries of runs, at concrete events.
use bounded_agent_harness.Json
use bounded_agent_harness.Prelude
use bounded_agent_harness.Queue
use bounded_agent_harness.Prelude.{
  ◌≡◌, refl, String, Option, none, some, List, [], ◌∷◌, find_entry, select,
}
use bounded_agent_harness.Json.{Value, str}
use bounded_agent_harness.Observe.{observe_all}
use bounded_agent_harness.Observe.Laws.{observe_all-own_events, view_after}
use bounded_agent_harness.Examples.Data.{object, number}

abbrev event : String → String → Value
event run kind = object (("runId", str run) ∷ ("type", str kind) ∷ ("costUnits", number 3) ∷ [])

abbrev events : List Value
events =
    event "run-1" "run.started"
    ∷ event "run-2" "run.started"
    ∷ event "run-1" "step.completed"
    ∷ event "run-2" "run.failed"
    ∷ []

observe_all-own_events_example :
    find_entry "run-1" (observe_all events [])
    ≡ view_after none (event "run-1" "run.started" ∷ event "run-1" "step.completed" ∷ [])
unfolding Prelude.find_entry Json.get Json.is_truthy Queue.Validate.strings_of_items
observe_all-own_events_example = observe_all-own_events "run-1" events []
