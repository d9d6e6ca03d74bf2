-- ===== src/Step.antt =====
-- src/step-state-machine.mjs: the states of one workflow step, the transition table and the
-- reduction of a list of events. A state or an event is one of the enumerated names, so the
-- tests for an unknown name do not arise; `Object.keys` follows the order of the literal.
pub mod Laws
use bounded_agent_harness.Prelude.{
  ite, map, Bool, true, false, Option, none, some, List, [], ◌∷◌, Result, ok, err, ◌>>=◌,
}

pub data StepState : Type 0 where
  pending waiting_for_approval authorized leased invoking succeeded : StepState
  failed_retryable failed_final reconciliation_required parked reconciling completed : StepState

pub data StepEvent : Type 0 where
  authorize wait_for_approval acquire_lease start_invocation succeed fail_retryable : StepEvent
  fail_final ambiguous_effect park start_reconciliation reconcile_succeeded : StepEvent
  reconcile_failed complete : StepEvent

-- A row of the table: an event, and the state that it leads to, in the order of the source.
unfoldable pub transitions : StepState → List (StepEvent × StepState)
transitions pending =
    (wait_for_approval, waiting_for_approval) ∷ (authorize, authorized) ∷ (park, parked) ∷ []
transitions waiting_for_approval = (authorize, authorized) ∷ (park, parked) ∷ []
transitions authorized = (acquire_lease, leased) ∷ (park, parked) ∷ []
transitions leased = (start_invocation, invoking) ∷ (park, parked) ∷ []
transitions invoking =
    (succeed, succeeded)
    ∷ (fail_retryable, failed_retryable)
    ∷ (fail_final, failed_final)
    ∷ (ambiguous_effect, reconciliation_required)
    ∷ []
transitions succeeded = (complete, completed) ∷ []
transitions failed_retryable = (acquire_lease, leased) ∷ (park, parked) ∷ []
transitions failed_final = (park, parked) ∷ []
transitions reconciliation_required = (start_reconciliation, reconciling) ∷ (park, parked) ∷ []
transitions reconciling =
    (reconcile_succeeded, succeeded) ∷ (reconcile_failed, failed_final) ∷ (park, parked) ∷ []
transitions parked = []
transitions completed = []

-- The keys of a row are names of events, which differ where the events do.
pub StepEvent-discrete : Discrete StepEvent
StepEvent-discrete = hlevel

-- `TRANSITIONS[state][event]`, undefined as `none`.
unfoldable pub lookup_event : StepEvent → List (StepEvent × StepState) → Option StepState
unfolding StepEvent-discrete
lookup_event e [] = none
lookup_event e ((d, s) ∷ row) = ite (StepEvent-discrete d e) (some s) (lookup_event e row)

unfoldable pub is_terminal_step_state : StepState → Bool
is_terminal_step_state completed = true
is_terminal_step_state parked = true
is_terminal_step_state _ = false

unfoldable pub allowed_step_events : StepState → List StepEvent
unfolding transitions
allowed_step_events s = map (λ row. row.0) (transitions s)

abbrev or_refused : Option StepState → Result StepState
or_refused none = err "INVALID_STEP_TRANSITION"
or_refused (some next) = ok next

unfoldable pub transition_step_state : StepState → StepEvent → Result StepState
unfolding lookup_event transitions
transition_step_state s e = or_refused (lookup_event e (transitions s))

-- `events.reduce((state, event) => transitionStepState(state, event), initialState)`.
unfoldable pub reduce_step_events : List StepEvent → StepState → Result StepState
reduce_step_events [] s = ok s
reduce_step_events (e ∷ es) s = do next ← transition_step_state s e; reduce_step_events es next

pub data Plane : Type 0 where
  control execution reconciliation : Plane

unfoldable pub classify_execution_plane : StepEvent → Plane
classify_execution_plane authorize = control
classify_execution_plane wait_for_approval = control
classify_execution_plane acquire_lease = control
classify_execution_plane park = control
classify_execution_plane start_invocation = execution
classify_execution_plane succeed = execution
classify_execution_plane fail_retryable = execution
classify_execution_plane fail_final = execution
classify_execution_plane ambiguous_effect = execution
classify_execution_plane start_reconciliation = reconciliation
classify_execution_plane reconcile_succeeded = reconciliation
classify_execution_plane reconcile_failed = reconciliation
classify_execution_plane complete = reconciliation
