-- ===== src/Executor/Run.antt =====
-- `executeWorkflow` of src/executor.mjs: the loop over the steps, the events around it and its end.
use bounded_agent_harness.Prelude.{
  String, Bool, false, not, ◌&&◌, ◌||◌, Option, none, some, List, [], ◌∷◌, if◌then◌else◌, str_eq,
  includes, Result, ok, ◌>>=◌, ◌>>◌, assert,
}
use bounded_agent_harness.Json.{Value, get, is_text, is_truthy, is_undefined, is_array, text_of}
use bounded_agent_harness.Json.Canonical.{json_text}
use bounded_agent_harness.Contracts.{step_id, step_ids}
use bounded_agent_harness.Registry.{describe}
use bounded_agent_harness.Governance.{governance_digest}
use bounded_agent_harness.Floor.{floor_digest}
use bounded_agent_harness.Workflow.Compile.{check_bound, verify_workflow_artifact}
use bounded_agent_harness.Executor.Log.{
  Kind, run_started, run_resumed, governance_verified, run_awaiting_approval,
  step_approval_verified, run_completed, run_failed, Event, Run, recovering, awaiting_approval,
  finished, Store, append, save, recovery_checkpoint, Prior, reconstruct, workflow_steps,
}
use bounded_agent_harness.Executor.Steps.{
  Env, StepEnd, unexpected, is_resumed, advanced, waiting, failed, digest, is_approved, check_start,
  start_step,
}

module _ (env : Env) where
  abbrev pub gate_of : Value → String
  gate_of step = text_of (get (get step "approval") "gateId")

  abbrev pub needs_approval : Value → Bool
  needs_approval step = is_truthy (get (get step "approval") "required")

  -- The body of `for (const step of workflow.steps)`.
  unfoldable pub run_step : Option Prior → Run → Store → Value → StepEnd
  unfolding is_approved check_start start_step append save recovery_checkpoint
  run_step prior run s step =
      if includes (step_id step) run.completed
      then advanced run s
      else if env.aborted s.log
      then failed run s "RUN_ABORTED"
      else if needs_approval step && not (is_approved env step)
      then (let s' =
            append env.run_id (run_awaiting_approval (step_id step) (gate_of step) (digest env))
              s in
          waiting run
            (save
              (recovery_checkpoint env.run_id (digest env) run "APPROVAL_REQUIRED"
                (awaiting_approval (gate_of step) (step_id step)))
              s')
            (gate_of step) (step_id step))
      else (let s' =
            if needs_approval step
            then append env.run_id
                (step_approval_verified (step_id step) (gate_of step) (digest env)) s
            else s in
          start_step env prior run s' step (check_start env prior run step))

  unfoldable pub run_steps : Option Prior → List Value → Run → Store → StepEnd
  unfolding run_step
  run_steps prior [] run s = advanced run s
  run_steps prior (step ∷ steps) run s = elim (run_step prior run s step) [
    | advanced run' s' ↦ run_steps prior steps run' s'
    | waiting run' s' gate id ↦ waiting run' s' gate id
    | failed run' s' code ↦ failed run' s' code
  ]

  -- `error.code || "execution-failed"`: an error with no code is reported as unexpected.
  abbrev reason_of : String → String
  reason_of code = if str_eq code unexpected then "execution-failed" else code

  -- The end of the run: its last event and checkpoint, in the `try` or in the `catch`.
  unfoldable pub close_run : StepEnd → StepEnd
  unfolding append save recovery_checkpoint
  close_run (advanced run s) =
      let s' = append env.run_id (run_completed run.spent) s in
      advanced run (save (recovery_checkpoint env.run_id (digest env) run "completed" finished) s')
  close_run (waiting run s gate step) = waiting run s gate step
  close_run (failed run s code) =
      let s' = append env.run_id (run_failed code) s in
      failed run
        (save (recovery_checkpoint env.run_id (digest env) run (reason_of code) recovering) s') code

  abbrev pub fresh_run : Run
  fresh_run = record {
    completed = [];
    pending = step_ids (workflow_steps env.workflow);
    spent = 0;
    outputs = [];
  }

  abbrev pub prior_run : Option Prior → Run
  prior_run none = fresh_run
  prior_run (some p) = p.run

  abbrev pub first_event : Option Prior → Kind
  first_event none = run_started (digest env)
  first_event (some p) = run_resumed p.run.completed

  -- The events before the `try`.
  unfoldable pub open_run : Option Prior → Store → Store
  unfolding append
  open_run prior s =
      let s' = append env.run_id (first_event prior) s in
      let governance = get env.workflow "governance" in
      if is_truthy governance
      then append env.run_id
          (governance_verified (get governance "digest") (get governance "authorityMode")) s'
      else s'

  -- The checks of the artifact against its digests and against the runtime registry.
  unfoldable pub check_workflow : Result (Unit {0})
  check_workflow = do
    (if not (is_undefined (get env.workflow "canonical"))
          || not (is_undefined (get env.workflow "contracts"))
        then verify_workflow_artifact env.host env.workflow
        else assert (is_text (get env.workflow "format") "agent-harness.workflow.v1")
            "INVALID_WORKFLOW")
    assert
        (not (is_array (get env.workflow "contracts"))
          || str_eq (json_text (get env.workflow "contracts")) (json_text (describe env.contracts)))
        "CONTRACT_REGISTRY_MISMATCH"
    check_bound (get env.workflow "governance") (governance_digest env.host) "GOVERNANCE_TAMPERED"
    check_bound (get env.workflow "floor") (floor_digest env.host) "FLOOR_TAMPERED"

  abbrev is_done : Option Prior → Bool
  is_done none = false
  is_done (some p) = p.run_completed

  -- What is resumed. Without `resume` a run that has events is refused.
  unfoldable pub find_prior : List Event → Result (Option Prior)
  find_prior log = do
    found ← reconstruct log env.workflow env.run_id
    assert (env.resume || not (is_resumed found)) "RUN_ALREADY_EXISTS"
    assert (not (is_done found)) "RUN_ALREADY_COMPLETED"
    ok found

  -- `executeWorkflow(…)`. An error before the `try` leaves the store as it is.
  unfoldable pub execute_workflow : Store → Result StepEnd
  unfolding find_prior check_workflow open_run run_steps close_run
  execute_workflow s = do
    check_workflow
    prior ← find_prior s.log
    ok (
        close_run
          (run_steps prior (workflow_steps env.workflow) (prior_run prior) (open_run prior s)))
