-- ===== src/Executor/Steps.antt =====
-- The parts of a step of `executeWorkflow` in src/executor.mjs. Adapters, the abort signal and the clock
-- belong to the host: an adapter answers as it likes, by the log so far and the request, and may throw.
use bounded_agent_harness.Prelude.{
  ℕ, suc, ◌+◌, String, Bool, true, false, not, ◌&&◌, ◌||◌, Option, none, some, List, [], ◌∷◌, ◌++◌,
  map, leb, ltb, length, if◌then◌else◌, includes, any, Result, ok, err, ◌>>=◌, ◌>>◌, assert,
  for_each, map_each, all,
}
use bounded_agent_harness.Json.{
  Value, null, bool, num, nat, str, arr, obj, get, items, entries, to_fields, lookup_field, is_null,
  is_undefined, is_text, is_truthy, is_safe_natural, strings_of, text_of, nat_of, object_of,
}
use Prim.Native.Char.{code}
use bounded_agent_harness.Json.Canonical.{Host, number_text}
use bounded_agent_harness.Contracts.{step_id}
use bounded_agent_harness.Registry.{Registry, validate_contract}
use bounded_agent_harness.Envelope.{build_capability_envelope}
use bounded_agent_harness.Executor.Log.{
  step_started, step_completed, Event, Run, recovering, Store, append, save, recovery_checkpoint,
  Prior, output_of, workflow_digest,
}

-- The arguments of the call, and what the host supplies.
pub record Env : Type 0 where
  pub host : Host
  pub workflow : Value
  pub contracts : Registry
  pub run_id : String
  pub resume : Bool
  pub approvals : List Value
  pub adapter_known : String → Bool
  pub invoke : String → List Event → Value → Result Value
  pub aborted : List Event → Bool
  pub now : List Event → ℕ

-- How a step, or the run, ends.
pub data StepEnd : Type 0 where
  advanced : Run → Store → StepEnd
  waiting : Run → Store → (gate step : String) → StepEnd
  failed : Run → Store → (code : String) → StepEnd

abbrev pub unexpected : String
unexpected = "UNEXPECTED_ERROR"

-- `prior?.ambiguous.includes(step.id)`.
abbrev pub is_ambiguous : Option Prior → String → Bool
is_ambiguous none id = false
is_ambiguous (some p) id = includes id p.ambiguous

-- `Boolean(prior)`.
abbrev pub is_resumed : Option Prior → Bool
is_resumed none = false
is_resumed (some p) = true

-- What an adapter returned: the output, its cost and where that comes from.
pub record Answer : Type 0 where
  pub output : Value
  pub cost : ℕ
  pub source : Value
  pub provider : Value

-- Either half of a character above the basic plane is given as the whole character.
abbrev characters : String → List Value
characters String.[] = []
characters (String.◌∷◌ c s) =
    let rest = characters s in
    let one = str (String.◌∷◌ c String.[]) in
    if ltb (code c) 65536 then one ∷ rest else one ∷ one ∷ rest

abbrev indexed : ℕ → List Value → List (String × Value)
indexed n [] = []
indexed n (v ∷ vs) = (number_text (nat n), v) ∷ indexed (suc n) vs

abbrev with_length : List Value → List (String × Value)
with_length vs = indexed 0 vs ++ ("length", num (nat (length vs))) ∷ []

-- The fields of a value for which `Object.hasOwn(value, field)` holds, with what they hold.
unfoldable pub own_fields : Value → List (String × Value)
own_fields (arr vs) = with_length (items vs)
own_fields (str s) = with_length (characters s)
own_fields (obj fs) = entries fs
own_fields v = []

module _ (env : Env) where
  abbrev pub digest : String
  digest = workflow_digest env.workflow

  abbrev pub budget : ℕ
  budget = nat_of (get (get env.workflow "budget") "maxCostUnits")

  -- `approvals.find(…)` for a step.
  unfoldable pub is_approved : Value → Bool
  is_approved step =
      any
        (λ item.
          is_text (get item "gateId") (text_of (get (get step "approval") "gateId"))
          && is_text (get item "stepId") (step_id step)
          && is_text (get item "workflowDigest") digest
          && is_text (get item "decision") "approved")
        env.approvals

  -- One entry of the context of a step. Reading a field of a missing output throws a TypeError.
  unfoldable pub context_entry : Value → List (String × Value) → String → Result (String × Value)
  context_entry step outputs id =
      let fields = get (get step "contextProjection") id in
      let output = output_of outputs id in
      if not (is_truthy fields) then ok (id, output) else do
        assert (not (is_null output || is_undefined output) || all (λ f. false) (strings_of fields))
            unexpected
        for_each
            (λ f. assert (includes f (map (λ p. p.0) (own_fields output))) "CONTEXT_FIELD_MISSING")
            (strings_of fields)
        ok (
          id,
          object_of
              (map (λ f. (f, lookup_field f (to_fields (own_fields output)))) (strings_of fields)),
        )

  -- What is checked of a step before it is started.
  unfoldable pub check_start : Option Prior → Run → Value → Result Value
  check_start prior run step = do
    assert
        (not (is_ambiguous prior (step_id step) && is_text (get step "effect") "external")
          || is_truthy (get step "idempotencyKey"))
        "AMBIGUOUS_EXTERNAL_EFFECT"
    assert (leb (run.spent + nat_of (get step "costUnits")) budget) "BUDGET_EXCEEDED"
    entries ← map_each (context_entry step run.outputs) (strings_of (get step "dependsOn"))
    (if is_truthy (get step "inputContract")
        then validate_contract env.contracts (text_of (get step "inputContract")) (get step "input")
        else ok tt)
    ok (object_of entries)

  unfoldable pub handoff_of : Value → Value
  handoff_of step = object_of (
      ("format", str "agent-harness.handoff.v1")
      ∷ ("runId", str env.run_id)
      ∷ ("workflowDigest", str digest)
      ∷ ("stepId", get step "id")
      ∷ ("sequence", get step "sequence")
      ∷ ("specialist", get step "specialist")
      ∷ ("adapter", get step "adapter")
      ∷ ("capability", get step "capability")
      ∷ ("authority", get step "authority")
      ∷ ("inputContract", get step "inputContract")
      ∷ ("outputContract", get step "outputContract")
      ∷ [])

  -- The request of the adapter; the abort signal is not a value of it.
  unfoldable pub request_of : Value → (context : Value) → Bool → List Event → Result Value
  unfolding handoff_of
  request_of step context resumed log = do
    envelope ←
        build_capability_envelope (str env.run_id) (str digest) step (num (nat 1))
          (str (env.host.iso_text (env.now log + 60000)))
    ok (
        object_of (
          ("handoff", handoff_of step)
          ∷ ("invocation", envelope)
          ∷ ("input", get step "input")
          ∷ ("context", context)
          ∷ ("idempotencyKey", get step "idempotencyKey")
          ∷ ("resumed", bool resumed)
          ∷ ("tokenBudget", get step "tokenBudget")
          ∷ ("reservedCostUnits", get step "costUnits")
          ∷ []))

  abbrev is_wrapped : Value → Bool
  is_wrapped v = is_text (get v "format") "agent-harness.adapter-result.v1"

  -- The answer of the adapter, checked against the reservation and the output contract.
  unfoldable pub accept_answer : Value → Value → Result Answer
  accept_answer step value = do
    let usage = get value "usage"
    let cost = if is_wrapped value then get usage "costUnits" else get step "costUnits"
    let output = if is_wrapped value then get value "output" else value
    assert (is_safe_natural cost) "INVALID_ADAPTER_USAGE"
    assert (leb (nat_of cost) (nat_of (get step "costUnits"))) "STEP_COST_EXCEEDED"
    validate_contract env.contracts (text_of (get step "outputContract")) output
    ok (record {
      output = output;
      cost = nat_of cost;
      source = if is_wrapped value then get usage "source" else str "reserved-ceiling";
      provider = if is_wrapped value then get value "provider" else null;
    })

  -- `adapters.get(step.adapter).invoke(…)` and what follows up to the contract of the output.
  unfoldable pub invoke_step : Value → (context : Value) → Bool → List Event → Result Answer
  unfolding request_of accept_answer
  invoke_step step context resumed log = do
    assert (env.adapter_known (text_of (get step "adapter"))) "UNKNOWN_ADAPTER"
    request ← request_of step context resumed log
    value ← env.invoke (text_of (get step "adapter")) log request
    accept_answer step value

  abbrev shift : List String → List String
  shift [] = []
  shift (x ∷ xs) = xs

  unfoldable pub advance : Run → Value → Answer → Run
  advance run step a = record {
    completed = run.completed ++ step_id step ∷ [];
    pending = shift run.pending;
    spent = run.spent + a.cost;
    outputs = run.outputs ++ (step_id step, a.output) ∷ [];
  }

  -- The step has answered: its events, and the checkpoint behind it.
  unfoldable pub finish_step : Run → Store → Value → Result Answer → StepEnd
  unfolding advance append save recovery_checkpoint
  finish_step run s step (err code) = failed run s code
  finish_step run s step (ok a) =
      let run' = advance run step a in
      let s' =
        append env.run_id
          (step_completed (step_id step) a.cost (nat_of (get step "costUnits")) a.source a.provider
            a.output)
          s in
      advanced run'
        (save (recovery_checkpoint env.run_id digest run' "step-completed" recovering) s')

  -- The step behind its approval.
  unfoldable pub start_step : Option Prior → Run → Store → Value → Result Value → StepEnd
  unfolding finish_step append
  start_step prior run s step (err code) = failed run s code
  start_step prior run s step (ok context) =
      let s' =
        append env.run_id
          (step_started (step_id step) (text_of (get step "specialist"))
            (text_of (get step "adapter")))
          s in
      finish_step run s' step (invoke_step step context (is_resumed prior) s'.log)
