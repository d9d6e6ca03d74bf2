-- ===== src/Examples/Decisions.antt =====
-- The theorems on the decision modules, the step machine and the capacity gate, at concrete values.
use bounded_agent_harness.Capacity
use bounded_agent_harness.TokenEstimate
use bounded_agent_harness.Json
use bounded_agent_harness.Queue
use bounded_agent_harness.Prelude.{
  ℕ, ◌+◌, ◌≤◌, ◌<◌, String, ◌≡◌, ◌↔◌, refl, Bool, true, false, none, some, List, [], ◌∷◌, ok,
}
use bounded_agent_harness.Json.{Value, undefined, null, bool, str, get, nat_of}
use bounded_agent_harness.Policy.Model.{ModelDecision, escalate, select_model_tier}
use bounded_agent_harness.Policy.Recovery.{decide_recovery}
use bounded_agent_harness.Policy.WorkLoop.{WorkDecision, continue_current_run, decide_work_loop}
use bounded_agent_harness.Policy.Laws.{
  select_model_tier-within_budget, decide_recovery-retry, decide_work_loop-terminal,
}
use bounded_agent_harness.Step.{
  failed_retryable, completed, StepEvent, authorize, acquire_lease, start_invocation,
  fail_retryable, succeed, complete, reduce_step_events, is_terminal_step_state,
  allowed_step_events, transition_step_state, leased, classify_execution_plane,
}
use bounded_agent_harness.Step.Laws.{
  reduce_step_events-invocations, transition_step_state-terminal, control_alone, sum_events,
  is_start, is_retryable, has_succeeded,
}
use bounded_agent_harness.Capacity.{
  Observed, Decision, read_capacity, reserve_capacity, invoke_adapter, decide_capacity,
  evaluate_token_capacity, GateHost, gated_invoke, is_reservation,
}
use bounded_agent_harness.TokenEstimate.{default_policy, Estimate}
use bounded_agent_harness.Capacity.Laws.{decide_capacity-continues, gated_invoke-invokes}
use bounded_agent_harness.Examples.Data.{object, number, value_of, morning, evening, host}

abbrev refused : ModelDecision
refused = record {
  decision = escalate;
  selected_tier = none;
  reason = "";
  risk_class = "A";
  fork = false;
  estimated_cost_units = 0;
  max_cost_units = 8;
}

abbrev chosen : ModelDecision
chosen = value_of refused (select_model_tier (str "A") (str "frontier") false (number 8))

select_model_tier-within_budget_example : chosen.estimated_cost_units ≤ nat_of (number 8)
unfolding Json.is_safe_positive Json.is_string nat_of Json.text_of select_model_tier
select_model_tier-within_budget_example =
    (select_model_tier-within_budget (str "A") (str "frontier") false (number 8) chosen refl).0

decide_recovery-retry_example : 0 < 2
unfolding get Json.is_object Json.is_safe_positive Json.is_string Json.is_text nat_of Json.text_of
    decide_recovery
decide_recovery-retry_example =
    (decide_recovery-retry (object (("effect", str "read") ∷ [])) (number 1) (number 3)
      (str "TIMEOUT") "no-external-side-effect" 2 2 refl).2

abbrev snapshot : Bool → Value
snapshot reported = object (
    ("executionMode", str "CONTINUOUS_RUN")
    ∷ ("objectiveState", str "ACTIVE")
    ∷ ("safeWorkAvailable", bool true)
    ∷ ("alternateSafeWorkAvailable", bool false)
    ∷ ("validationState", str "PASS")
    ∷ ("gitState", str "SAFE")
    ∷ ("ownerBoundary", str "NONE")
    ∷ ("executionWindow", str "OPEN")
    ∷ ("checkpointRecorded", bool true)
    ∷ ("progressReported", bool reported)
    ∷ [])

abbrev going : String → WorkDecision
going reason = record {
  action = continue_current_run;
  continue_now = true;
  terminal = false;
  reason = reason;
}

decide_work_loop-terminal_example : ((going "SAFE_WORK_REMAINS").terminal ≡ true) ↔ (false ≡ true)
unfolding get Json.is_boolean Json.is_object Json.is_string Json.is_text Json.is_true Json.keys
    Json.text_of Json.Text.sort_texts decide_work_loop
decide_work_loop-terminal_example =
    (decide_work_loop-terminal (snapshot false) (going "SAFE_WORK_REMAINS") refl).0

abbrev history : List StepEvent
history =
    authorize ∷ acquire_lease ∷ start_invocation ∷ fail_retryable ∷ acquire_lease ∷ start_invocation
    ∷ succeed ∷ complete ∷ []

reduce_step_events-invocations_example :
    sum_events is_start history ≤ 1 + sum_events is_retryable history
unfolding reduce_step_events transition_step_state
reduce_step_events-invocations_example = (reduce_step_events-invocations history completed refl).0

transition_step_state-terminal_example :
    (is_terminal_step_state failed_retryable ≡ true) ↔ (allowed_step_events failed_retryable ≡ [])
transition_step_state-terminal_example = (transition_step_state-terminal failed_retryable).0

control_alone_example : has_succeeded leased ≡ 0
unfolding classify_execution_plane reduce_step_events transition_step_state
control_alone_example =
    (control_alone (authorize ∷ acquire_lease ∷ []) leased (refl, (refl, tt)) refl).1

abbrev availability : Value
availability = object (
    ("provider", str "provider")
    ∷ ("windowId", str "window")
    ∷ ("remainingTokens", number 10000)
    ∷ ("observedAt", str morning)
    ∷ ("resetsAt", str evening)
    ∷ [])

abbrev token_request : Value
token_request = object (("promptTokens", number 1000) ∷ ("maxOutputTokens", number 500) ∷ [])

abbrev observed : Observed
observed = record {
  provider = str "provider";
  window = str "window";
  remaining = some 10000;
  window_tokens = none;
  red_zone_tokens = none;
  observed_at = 1000;
  resets_at = 2000;
}

abbrev estimate : Estimate
estimate = record {
  prompt = 1000;
  response = 500;
  reserve = 0;
  required = 1500;
  from_provider = true;
}

decide_capacity-continues_example :
    ((decide_capacity default_policy observed estimate 1500).continues ≡ true) ↔ (
      (1500 ≤ 1000 + 120000) × (1500 < 2000) × ((n : ℕ) × (some 10000 ≡ some n) × (1500 + 256 ≤ n)))
decide_capacity-continues_example = decide_capacity-continues default_policy observed estimate 1500

abbrev gate : GateHost
gate = record {
  reader = λ request. ok availability;
  build_request = λ request. ok token_request;
  reservation = λ a t d. ok (object (("reservationId", str "reservation-1") ∷ []));
  adapter = λ request d r. ok (str "done");
}

gated_invoke-invokes_example :
    (a t : Value) × (d : Decision) × (r : Value) × (gate.reader (object []) ≡ ok a)
    × (gate.build_request (object []) ≡ ok t)
    × (evaluate_token_capacity host a t default_policy 1500 ≡ ok d)
    × (d.continues ≡ true)
    × (gate.reservation a t d ≡ ok r)
    × (is_reservation r ≡ true)
    × ((gated_invoke host gate default_policy 1500 (object [])).calls
        ≡ read_capacity (object []) ∷ reserve_capacity d ∷ invoke_adapter (object []) d r ∷ [])
unfolding TokenEstimate.check_policy decide_capacity Capacity.decide_remaining
    TokenEstimate.estimate_token_request evaluate_token_capacity gated_invoke
    TokenEstimate.is_integer Capacity.is_stale Capacity.validate_availability get Json.is_null
    Json.is_object Json.is_safe_natural Json.is_string Json.is_truthy Json.is_undefined nat_of
    Queue.Validate.strings_of_items
gated_invoke-invokes_example = gated_invoke-invokes host gate default_policy 1500 (object []) refl
