-- ===== src/Step/Laws.antt =====
-- What a history of step events accepted by the state machine has in it.
use bounded_agent_harness.Prelude.{
  ℕ, ◌+◌, ◌≤◌, length, All, ◌≡◌, refl, ◌↔◌, true, List, [], ◌∷◌, ok, err, >>=-eq-ok, arith,
}
use bounded_agent_harness.Step.{
  StepState, pending, waiting_for_approval, authorized, leased, invoking, succeeded,
  failed_retryable, parked, completed, StepEvent, start_invocation, succeed, fail_retryable, park,
  reconcile_succeeded, complete, is_terminal_step_state, allowed_step_events, transition_step_state,
  reduce_step_events, control, classify_execution_plane,
}

-- How often the events of a kind occur.
abbrev pub sum_events : (StepEvent → ℕ) → List StepEvent → ℕ
sum_events w [] = 0
sum_events w (e ∷ es) = w e + sum_events w es

abbrev pub is_start : StepEvent → ℕ
is_start start_invocation = 1
is_start _ = 0

abbrev pub is_retryable : StepEvent → ℕ
is_retryable fail_retryable = 1
is_retryable _ = 0

abbrev pub is_success : StepEvent → ℕ
is_success succeed = 1
is_success reconcile_succeeded = 1
is_success _ = 0

-- Whether one more invocation may start with no failure in between.
abbrev credit : StepState → ℕ
credit pending = 1
credit waiting_for_approval = 1
credit authorized = 1
credit leased = 1
credit failed_retryable = 1
credit _ = 0

abbrev pub has_succeeded : StepState → ℕ
has_succeeded succeeded = 1
has_succeeded completed = 1
has_succeeded _ = 0

step_credit :
    (s : StepState) (e : StepEvent) (t : StepState)
    → transition_step_state s e ≡ ok t
    → is_start e + credit t ≤ credit s + is_retryable e
unfolding transition_step_state
step_credit pending e t h = ground arith
step_credit _ e t h = ground arith

step_success :
    (s : StepState) (e : StepEvent) (t : StepState)
    → transition_step_state s e ≡ ok t
    → has_succeeded s + is_success e ≡ has_succeeded t
unfolding transition_step_state
step_success pending e t h = ground arith
step_success _ e t h = ground arith

credit_bounds :
    (es : List StepEvent) (s t : StepState)
    → reduce_step_events es s ≡ ok t
    → sum_events is_start es + credit t ≤ credit s + sum_events is_retryable es
unfolding reduce_step_events
credit_bounds [] s t h = ground arith
credit_bounds (e ∷ es) s t h =
    let (next, first, rest) = >>=-eq-ok (transition_step_state s e) _ h in
    omega (arith, step_credit s e next first, credit_bounds es next t rest)

success_counted :
    (es : List StepEvent) (s t : StepState)
    → reduce_step_events es s ≡ ok t
    → has_succeeded s + sum_events is_success es ≡ has_succeeded t
unfolding reduce_step_events
success_counted [] s t h = ground arith
success_counted (e ∷ es) s t h =
    let (next, first, rest) = >>=-eq-ok (transition_step_state s e) _ h in
    omega (arith, step_success s e next first, success_counted es next t rest)

-- In an accepted history of a new step every invocation after the first one stands behind a
-- retryable failure of its own, so an ambiguous effect or a final failure is never invoked again;
-- and the history has one success, direct or by reconciliation, if it ends in SUCCEEDED or
-- COMPLETED, and none otherwise.
pub reduce_step_events-invocations :
    (es : List StepEvent) (t : StepState)
    → reduce_step_events es pending ≡ ok t
    → (sum_events is_start es ≤ 1 + sum_events is_retryable es)
      × (sum_events is_success es ≡ has_succeeded t)
reduce_step_events-invocations es t h =
    (omega (arith, credit_bounds es pending t h), omega (arith, success_counted es pending t h))

terminal_refuses :
    (s : StepState) (e : StepEvent)
    → is_terminal_step_state s ≡ true
    → transition_step_state s e ≡ err "INVALID_STEP_TRANSITION"
unfolding is_terminal_step_state transition_step_state
terminal_refuses completed e h = refl
terminal_refuses parked e h = refl
terminal_refuses _ e h = cc

-- The events that end a step from a state.
abbrev way_out : StepState → List StepEvent
way_out invoking = succeed ∷ complete ∷ []
way_out succeeded = complete ∷ []
way_out completed = []
way_out parked = []
way_out _ = park ∷ []

abbrev outcome : StepState → StepState
outcome invoking = completed
outcome succeeded = completed
outcome completed = completed
outcome _ = parked

way_out_ends : (s : StepState) → reduce_step_events (way_out s) s ≡ ok (outcome s)
unfolding reduce_step_events transition_step_state
way_out_ends pending = refl
way_out_ends _ = refl

outcome_terminal : (s : StepState) → is_terminal_step_state (outcome s) ≡ true
unfolding is_terminal_step_state
outcome_terminal pending = refl
outcome_terminal _ = refl

terminal_iff_no_events :
    (s : StepState) → (is_terminal_step_state s ≡ true) ↔ (allowed_step_events s ≡ [])
unfolding is_terminal_step_state allowed_step_events
terminal_iff_no_events pending = ground arith
terminal_iff_no_events _ = ground arith

way_out_short : (s : StepState) → length (way_out s) ≤ 2
way_out_short pending = omega arith
way_out_short _ = omega arith

-- A state is terminal exactly when no event is allowed from it, every event is then refused, and
-- every state has a history of at most two events that is accepted and ends in a terminal state.
pub transition_step_state-terminal :
    (s : StepState)
    → ((is_terminal_step_state s ≡ true) ↔ (allowed_step_events s ≡ []))
      × ((e : StepEvent)
          → is_terminal_step_state s ≡ true
          → transition_step_state s e ≡ err "INVALID_STEP_TRANSITION")
      × ((es : List StepEvent) × (t : StepState) × (length es ≤ 2)
          × (reduce_step_events es s ≡ ok t)
          × (is_terminal_step_state t ≡ true))
transition_step_state-terminal s = (
  terminal_iff_no_events s,
  terminal_refuses s,
  (way_out s, outcome s, way_out_short s, way_out_ends s, outcome_terminal s),
)

control_starts :
    (es : List StepEvent)
    → All (λ e. classify_execution_plane e ≡ control) es
    → sum_events is_start es ≡ 0
unfolding classify_execution_plane
control_starts [] c = refl
control_starts (start_invocation ∷ es) (p, c) = cc
control_starts (_ ∷ es) (p, c) = omega (arith, control_starts es c)

control_successes :
    (es : List StepEvent)
    → All (λ e. classify_execution_plane e ≡ control) es
    → sum_events is_success es ≡ 0
unfolding classify_execution_plane
control_successes [] c = refl
control_successes (succeed ∷ es) (p, c) = cc
control_successes (reconcile_succeeded ∷ es) (p, c) = cc
control_successes (_ ∷ es) (p, c) = omega (arith, control_successes es c)

-- Control events never run code of a provider: a step that control events alone have moved has
-- started no invocation and has not succeeded.
pub control_alone :
    (es : List StepEvent) (t : StepState)
    → All (λ e. classify_execution_plane e ≡ control) es
    → reduce_step_events es pending ≡ ok t
    → (sum_events is_start es ≡ 0) × (has_succeeded t ≡ 0)
control_alone es t c h =
    (control_starts es c, omega (arith, success_counted es pending t h, control_successes es c))
