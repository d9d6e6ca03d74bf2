-- ===== src/Executor/Log.antt =====
-- The events that `executeWorkflow` appends, the checkpoints that it writes, and `reconstruct`
-- (src/executor.mjs, and `recoveryCheckpoint` of src/heartbeat.mjs). The time stamps of events and
-- checkpoints are left out, and the store takes every append.
use bounded_agent_harness.Prelude.{
  ℕ, ◌+◌, String, Bool, true, false, not, Option, none, some, List, [], ◌∷◌, ◌++◌, if◌then◌else◌,
  str_eq, includes, select, any, Result, ok, ◌>>◌, assert,
}
use bounded_agent_harness.Json.{Value, undefined, get, elems, text_of}
use bounded_agent_harness.Contracts.{step_ids}

pub data Kind : Type 0 where
  run_started : (workflow : String) → Kind
  run_resumed : (completed : List String) → Kind
  governance_verified : (digest mode : Value) → Kind
  run_awaiting_approval : (step gate workflow : String) → Kind
  step_approval_verified : (step gate workflow : String) → Kind
  step_started : (step specialist adapter : String) → Kind
  step_completed : (step : String) (cost reserved : ℕ) (source provider output : Value) → Kind
  run_completed : (spent : ℕ) → Kind
  run_failed : (code : String) → Kind
  -- Events that other parts append to the same log.
  unrelated : (name : String) → Kind

pub record Event : Type 0 where
  pub run : String
  pub kind : Kind

-- `run`, the state of the loop, with `outputs`; a later output of a step stands behind an earlier one.
pub record Run : Type 0 where
  pub completed : List String
  pub pending : List String
  pub spent : ℕ
  pub outputs : List (String × Value)

pub data Status : Type 0 where
  recovering : Status
  awaiting_approval : (gate step : String) → Status
  finished : Status

-- What is checkpointed: the parts of the run, with the reason.
pub record Checkpoint : Type 0 where
  pub id : String
  pub workflow : String
  pub completed : List String
  pub pending : List String
  pub spent : ℕ
  pub reason : String
  pub status : Status

pub record Store : Type 0 where
  pub log : List Event
  pub checkpoint : Option Checkpoint

-- `memory.append(event)` and `memory.checkpoint(value)`.
unfoldable pub append : String → Kind → Store → Store
append id kind s = record s { log = s.log ++ record { run = id; kind = kind } ∷ [] }

unfoldable pub save : Checkpoint → Store → Store
save c s = record s { checkpoint = some c }

unfoldable pub recovery_checkpoint : String → String → Run → String → Status → Checkpoint
recovery_checkpoint id workflow run reason status = record {
  id = id;
  workflow = workflow;
  completed = run.completed;
  pending = run.pending;
  spent = run.spent;
  reason = reason;
  status = status;
}

abbrev pub of_run : String → List Event → List Event
of_run id log = select (λ e. str_eq e.run id) log

-- What `reconstruct` reads of one event: the completed step with its cost and output, or nothing.
unfoldable pub completed_of : Kind → List String
completed_of (step_completed step cost reserved source provider output) = step ∷ []
completed_of _ = []

unfoldable pub cost_of : Kind → ℕ
cost_of (step_completed step cost reserved source provider output) = cost
cost_of _ = 0

unfoldable pub outputs_of : Kind → List (String × Value)
outputs_of (step_completed step cost reserved source provider output) = (step, output) ∷ []
outputs_of _ = []

unfoldable pub started_of : Kind → List String
started_of (step_started step specialist adapter) = step ∷ []
started_of _ = []

unfoldable pub is_run_completed : Kind → Bool
is_run_completed (run_completed spent) = true
is_run_completed _ = false

-- `event.workflowDigest` of a run.started event.
unfoldable pub start_of : Kind → Option String
start_of (run_started workflow) = some workflow
start_of _ = none

unfoldable pub completed_ids : List Event → List String
unfolding completed_of
completed_ids [] = []
completed_ids (e ∷ es) = completed_of e.kind ++ completed_ids es

unfoldable pub total_spent : List Event → ℕ
unfolding cost_of
total_spent [] = 0
total_spent (e ∷ es) = cost_of e.kind + total_spent es

unfoldable pub all_outputs : List Event → List (String × Value)
unfolding outputs_of
all_outputs [] = []
all_outputs (e ∷ es) = outputs_of e.kind ++ all_outputs es

unfoldable pub started_ids : List Event → List String
unfolding started_of
started_ids [] = []
started_ids (e ∷ es) = started_of e.kind ++ started_ids es

abbrev or_first : Option String → Option String → Option String
or_first none later = later
or_first (some d) later = some d

-- `events.find((event) => event.type === "run.started")?.workflowDigest`.
unfoldable pub first_start : List Event → Option String
unfolding start_of
first_start [] = none
first_start (e ∷ es) = or_first (start_of e.kind) (first_start es)

abbrev pub is_start_of : Option String → String → Bool
is_start_of none workflow = false
is_start_of (some d) workflow = str_eq d workflow

abbrev pub workflow_digest : Value → String
workflow_digest workflow = text_of (get workflow "digest")

abbrev pub workflow_steps : Value → List Value
workflow_steps workflow = elems (get workflow "steps")

pub record Prior : Type 0 where
  pub run : Run
  pub ambiguous : List String
  pub run_completed : Bool

unfoldable pub prior_of : Value → List Event → Prior
unfolding completed_ids total_spent all_outputs started_ids is_run_completed
prior_of workflow events =
    let completed = completed_ids events in
    record {
      run = record {
        completed = completed;
        pending = select (λ id. not (includes id completed)) (step_ids (workflow_steps workflow));
        spent = total_spent events;
        outputs = all_outputs events;
      };
      ambiguous = select (λ id. not (includes id completed)) (started_ids events);
      run_completed = any (λ e. is_run_completed e.kind) events;
    }

abbrev pub reconstruct_from : Value → List Event → Result (Option Prior)
reconstruct_from workflow [] = ok none
reconstruct_from workflow (e ∷ es) = do
  assert (is_start_of (first_start (e ∷ es)) (workflow_digest workflow)) "RESUME_DIGEST_MISMATCH"
  ok (some (prior_of workflow (e ∷ es)))

unfoldable pub reconstruct : List Event → Value → String → Result (Option Prior)
unfolding prior_of first_start
reconstruct log workflow id = reconstruct_from workflow (of_run id log)

-- `outputs[id]`: the output recorded last.
unfoldable pub output_of : List (String × Value) → String → Value
output_of outputs id = latest undefined outputs
  where
    latest : Value → List (String × Value) → Value
    latest v [] = v
    latest v ((k, w) ∷ rest) = latest (if str_eq k id then w else v) rest
