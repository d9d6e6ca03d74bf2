-- ===== src/Examples/Runs.antt =====
-- The theorem on runs of `executeWorkflow`, at a workflow of two steps of which the second waits for an approval.
use bounded_agent_harness.Executor
use bounded_agent_harness.Json
use bounded_agent_harness.Prelude.{String, refl, true, false, none, List, [], ◌∷◌, ok, arith}
use bounded_agent_harness.Json.{Value, undefined, bool, str}
use bounded_agent_harness.Executor.Log.{Event, Store, total_spent}
use bounded_agent_harness.Executor.Steps.{Env, StepEnd, failed}
use bounded_agent_harness.Executor.Run.{fresh_run, execute_workflow}
use bounded_agent_harness.Executor.Reconstruct.{EndAgrees}
use bounded_agent_harness.Executor.Resume.{execute_workflow_reconstructs}
use bounded_agent_harness.Examples.Data.{object, array, texts, number, value_of, host, registry}

abbrev step : String → List (String × Value) → Value
step id more = object (
    ("id", str id)
    ∷ ("specialist", str "analyst")
    ∷ ("capability", str "analyze")
    ∷ ("authority", str "read")
    ∷ ("adapter", str "local-adapter")
    ∷ ("dependsOn", texts [])
    ∷ ("contextProjection", object [])
    ∷ ("input", object [])
    ∷ ("inputContract", str "in.v1")
    ∷ ("outputContract", str "out.v1")
    ∷ ("costUnits", number 3)
    ∷ ("effect", str "local")
    ∷ more)

abbrev workflow : Value
workflow = object (
    ("format", str "agent-harness.workflow.v1")
    ∷ ("digest", str "digest-1")
    ∷ ("budget", object (("maxCostUnits", number 10) ∷ []))
    ∷ (
      "steps",
      array (
          step "collect" []
          ∷ step "publish"
              (("approval", object (("required", bool true) ∷ ("gateId", str "gate-1") ∷ [])) ∷ [])
          ∷ []),
    )
    ∷ [])

abbrev env : Env
env = record {
  host = host;
  workflow = workflow;
  contracts = registry;
  run_id = "run-1";
  resume = false;
  approvals = [];
  adapter_known = λ id. true;
  invoke = λ id log request. ok (str "done");
  aborted = λ log. false;
  now = λ log. 1000;
}

abbrev start : Store
start = record { log = []; checkpoint = none }

abbrev end : StepEnd
end = value_of (failed (fresh_run env) start "") (execute_workflow env start)

execute_workflow_reconstructs_example : EndAgrees env end
unfolding Executor.Log.reconstruct execute_workflow Json.get Json.is_string_array Json.is_text
    Json.is_undefined
execute_workflow_reconstructs_example =
    execute_workflow_reconstructs env start end (omega arith) refl
