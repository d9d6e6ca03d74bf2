-- ===== src/Observe.antt =====
-- src/observability.mjs: the summary of the runs that a list of events tells. The events are objects, their
-- runs are told apart by the text of the id, and their costs are natural numbers, as the executor
-- writes them.
pub mod Laws
use bounded_agent_harness.Prelude.{
  ℕ, ◌+◌, String, Bool, true, false, not, ◌&&◌, ◌||◌, Option, none, some, List, [], ◌∷◌, ◌++◌, map,
  any, find_entry, set_entry, values, if◌then◌else◌, str_eq, Result, ok, assert, ◌>>=◌, ◌>>◌,
}
use bounded_agent_harness.Json.{
  Value, Number, undefined, null, num, str, get, is_array, is_text, is_truthy, is_null,
  is_undefined, elems, text_of, nat_of, object_of,
}
use bounded_agent_harness.Json.Text.{sort}
use bounded_agent_harness.Json.Canonical.{Host, ◌+++◌}
use bounded_agent_harness.Queue.Validate.{string_of, strict_equal}
use bounded_agent_harness.Tokens.Usage.{difference}

-- What is told of a run; no failed step is ever counted.
pub record RunView : Type 0 where
  pub run_id : Value
  pub status : String
  pub workflow_digest : Value
  pub started_at : Value
  pub last_event_at : Value
  pub completed_steps : ℕ
  pub spent : ℕ
  pub reserved : ℕ
  pub providers : List Value
  pub waiting_for : Value
  pub failure : Value

unfoldable pub unknown_run : Value → RunView
unknown_run run_id = record {
  run_id = run_id;
  status = "unknown";
  workflow_digest = null;
  started_at = null;
  last_event_at = null;
  completed_steps = 0;
  spent = 0;
  reserved = 0;
  providers = [];
  waiting_for = undefined;
  failure = undefined;
}

abbrev same_provider : Value → Value → Bool
same_provider a b =
    strict_equal (get a "name") (get b "name") && strict_equal (get a "version") (get b "version")

unfoldable pub add_provider : Value → List Value → List Value
add_provider provider providers =
    if not (is_truthy provider) || any (same_provider provider) providers
    then providers
    else providers ++ provider ∷ []

-- `event.reservedCostUnits ?? event.costUnits`.
unfoldable pub reserved_cost : Value → ℕ
reserved_cost event =
    if is_null (get event "reservedCostUnits") || is_undefined (get event "reservedCostUnits")
    then nat_of (get event "costUnits")
    else nat_of (get event "reservedCostUnits")

unfoldable pub complete_step : Value → RunView → RunView
complete_step event run = record run {
  completed_steps = run.completed_steps + 1;
  spent = run.spent + nat_of (get event "costUnits");
  reserved = run.reserved + reserved_cost event;
  providers = add_provider (get event "provider") run.providers;
}

abbrev gate_of : Value → Value
gate_of event = object_of (
    ("gateId", get event "gateId")
    ∷ ("stepId", get event "stepId")
    ∷ ("workflowDigest", get event "workflowDigest")
    ∷ [])

abbrev failure_of : Value → Value
failure_of event = object_of (("code", get event "code") ∷ ("message", get event "message") ∷ [])

-- The branches on the type of an event.
unfoldable pub apply_type : Value → RunView → RunView
apply_type event run =
    if is_text (get event "type") "run.started"
    then (record run {
      status = "running";
      workflow_digest = get event "workflowDigest";
      started_at = get event "at";
    })
    else if is_text (get event "type") "run.resumed"
    then (record run { status = "running"; waiting_for = null })
    else if is_text (get event "type") "run.awaiting-approval"
    then (record run { status = "awaiting_approval"; waiting_for = gate_of event })
    else if is_text (get event "type") "run.completed"
    then (record run { status = "completed"; waiting_for = null })
    else if is_text (get event "type") "run.failed"
    then (record run { status = "failed"; failure = failure_of event; waiting_for = null })
    else if is_text (get event "type") "step.completed"
    then complete_step event run
    else run

-- `event.at || run.lastEventAt`.
unfoldable pub seen_at : Value → RunView → RunView
seen_at event run = record run {
  last_event_at = if is_truthy (get event "at") then get event "at" else run.last_event_at;
}

unfoldable pub apply_event : Value → RunView → RunView
apply_event event run = apply_type event (seen_at event run)

abbrev pub view_or_unknown : Value → Option RunView → RunView
view_or_unknown run_id none = unknown_run run_id
view_or_unknown run_id (some run) = run

abbrev pub run_key : Value → String
run_key event = string_of (get event "runId")

-- One round of the loop over the events.
unfoldable pub observe : Value → List (String × RunView) → List (String × RunView)
observe event runs =
    if is_truthy (get event "runId")
    then set_entry (run_key event)
        (apply_event event (view_or_unknown (get event "runId") (find_entry (run_key event) runs)))
        runs
    else runs

unfoldable pub observe_all : List Value → List (String × RunView) → List (String × RunView)
observe_all [] runs = runs
observe_all (event ∷ events) runs = observe_all events (observe event runs)

pub record RunSummary : Type 0 where
  pub run : RunView
  pub saved : Number
  pub waiting_for : Value
  pub providers : List Value

abbrev provider_le : Host → Value → Value → Bool
provider_le host a b = host.locale_le (name_of a) (name_of b)
  where
    name_of : Value → String
    name_of p = string_of (get p "name") +++ "@" +++ string_of (get p "version")

unfoldable pub run_summary : Host → RunView → RunSummary
run_summary host run = record {
  run = run;
  saved = difference run.reserved run.spent;
  waiting_for = if is_truthy run.waiting_for then run.waiting_for else null;
  providers = sort (provider_le host) run.providers;
}

abbrev run_le : Host → RunView → RunView → Bool
run_le host a b = host.locale_le (text_of a.run_id) (text_of b.run_id)

-- `summarizeEvents(events)`.
unfoldable pub summarize_events : Host → Value → Result (List RunSummary)
summarize_events host events = do
  assert (is_array events) "INVALID_EVENTS"
  ok (map (run_summary host) (sort (run_le host) (values (observe_all (elems events) []))))
