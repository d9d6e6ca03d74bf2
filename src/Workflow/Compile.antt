-- ===== src/Workflow/Compile.antt =====
-- `compileWorkflow` and `verifyWorkflowArtifact` of src/workflow-compiler.mjs. The artifact is a
-- JSON value; sums of costs are exact.
pub mod Keys
pub mod Laws
pub mod Seal
use bounded_agent_harness.Prelude.{
  ℕ, zero, suc, ◌+◌, String, Bool, true, false, not, ◌&&◌, Option, none, some, List, [], ◌∷◌, ◌++◌,
  map, leb, if◌then◌else◌, str_eq, includes, distinct, Result, ok, err, ◌>>=◌, ◌>>◌, assert,
  for_each,
}
use bounded_agent_harness.Json.{
  Value, undefined, num, nat, str, arr, obj, to_items, get, is_text, is_object, is_undefined,
  strings_of, elems, text_of, nat_of, fields_of, object_of, omit,
}
use bounded_agent_harness.Json.Text.{sort_texts}
use bounded_agent_harness.Json.Canonical.{Host, canonical_text, digest_of}
use bounded_agent_harness.Contracts.{validate_plan, validate_specialist, step_id, step_ids}
use bounded_agent_harness.Registry.{Registry, has_contract, validate_contract, describe}
use bounded_agent_harness.Governance.{validate_governance_bundle, governance_digest}
use bounded_agent_harness.Floor.{validate_floor_manifest, assert_plan_within_floor, floor_digest}
use bounded_agent_harness.Workflow.Order.{order_steps}

-- `map.get(id)` of the maps from an id to its step or profile.
unfoldable pub find_by_id : String → List Value → Value
find_by_id id [] = undefined
find_by_id id (v ∷ vs) = if str_eq (step_id v) id then v else find_by_id id vs

unfoldable pub total_cost : List Value → ℕ
total_cost [] = 0
total_cost (step ∷ steps) = nat_of (get step "costUnits") + total_cost steps

abbrev pub depends_on : List Value → String → List String
depends_on steps id = strings_of (get (find_by_id id steps) "dependsOn")

-- The body of the loop that checks a step against its specialist and contracts.
unfoldable pub check_step : List Value → List Value → Registry → Value → Result (Unit {0})
check_step specialists steps registry step = do
  let specialist = find_by_id (text_of (get step "specialist")) specialists
  assert (is_object specialist) "UNKNOWN_SPECIALIST"
  assert (includes (text_of (get step "capability")) (strings_of (get specialist "capabilities")))
      "CAPABILITY_MISMATCH"
  assert (includes (text_of (get step "authority")) (strings_of (get specialist "authority")))
      "AUTHORITY_ESCALATION"
  assert (has_contract (text_of (get step "outputContract")) registry) "UNKNOWN_CONTRACT"
  assert (has_contract (text_of (get step "inputContract")) registry) "UNKNOWN_CONTRACT"
  validate_contract registry (text_of (get step "inputContract")) (get step "input")
  for_each (λ d. assert (includes d (step_ids steps)) "UNKNOWN_DEPENDENCY")
      (strings_of (get step "dependsOn"))

unfoldable pub specialist_names : List Value → List String
specialist_names [] = []
specialist_names (step ∷ steps) = text_of (get step "specialist") ∷ specialist_names steps

-- `[...new Set(texts)]`, the last of equal texts kept; the result is sorted before it is used.
unfoldable pub unique : List String → List String
unique [] = []
unique (t ∷ ts) = let rest = unique ts in if includes t ts then rest else t ∷ rest

unfoldable pub specialist_entry : Host → List Value → String → Value
specialist_entry host specialists id =
    let profile = find_by_id id specialists in
    object_of (
      ("id", str id)
      ∷ ("adapter", get profile "adapter")
      ∷ ("profileDigest", str (digest_of host profile))
      ∷ [])

-- `ordered.map((stepId, sequence) => ({ sequence, ...step, adapter }))`; a validated step has neither
-- a sequence nor an adapter of its own.
unfoldable pub compiled_steps : List Value → List Value → ℕ → List String → List Value
compiled_steps specialists steps n [] = []
compiled_steps specialists steps n (id ∷ ids) =
    let step = find_by_id id steps in
    let adapter = get (find_by_id (text_of (get step "specialist")) specialists) "adapter" in
    object_of (("sequence", num (nat n)) ∷ (fields_of step ++ ("adapter", adapter) ∷ []))
    ∷ compiled_steps specialists steps (suc n) ids

unfoldable pub artifact_of :
    Host → Value → List Value → Registry → List String → List (String × Value)
unfolding specialist_entry compiled_steps specialist_names unique
artifact_of host plan specialists registry ordered =
    let steps = elems (get plan "steps") in
    ("format", str "agent-harness.workflow.v1")
    ∷ ("planId", get plan "id")
    ∷ ("objective", get plan "objective")
    ∷ (
      "budget",
      object_of (
          ("maxCostUnits", get (get plan "budget") "maxCostUnits")
          ∷ ("compiledCostUnits", num (nat (total_cost steps)))
          ∷ []),
    )
    ∷ ("contracts", describe registry)
    ∷ (
      "specialists",
      arr (
          to_items (
            map (specialist_entry host specialists)
              (sort_texts (unique (specialist_names steps))))),
    )
    ∷ ("steps", arr (to_items (compiled_steps specialists steps 0 ordered)))
    ∷ []

-- `if (bundle !== undefined) artifact.key = { ...bundle, digest }`.
abbrev pub bound_field : String → Value → Result String → Result (List (String × Value))
bound_field key v digest =
    if is_undefined v
    then ok []
    else (digest >>= λ d. ok ((key, object_of (fields_of v ++ ("digest", str d) ∷ [])) ∷ []))

-- `{ ...artifact, digest, canonical }`.
unfoldable pub sealed : Host → List (String × Value) → Value
sealed host fs = object_of (
    fs
    ++ ("digest", str (digest_of host (object_of fs)))
      ∷ ("canonical", str (canonical_text (object_of fs)))
      ∷ [])

unfoldable pub check_plan :
    (plan : Value) → List Value → Registry → (governance floor : Value) → Result (Unit {0})
check_plan plan specialists registry governance floor = do
  validate_plan plan
  (if is_undefined governance then ok tt else validate_governance_bundle governance)
  (if is_undefined floor
      then ok tt
      else (validate_floor_manifest floor >> assert_plan_within_floor plan floor))
  for_each validate_specialist specialists
  assert (distinct (step_ids specialists)) "DUPLICATE_SPECIALIST"
  assert
      (leb (total_cost (elems (get plan "steps")))
        (nat_of (get (get plan "budget") "maxCostUnits")))
      "BUDGET_EXCEEDED"
  for_each (check_step specialists (elems (get plan "steps")) registry) (elems (get plan "steps"))

unfoldable pub compile_workflow :
    Host → (plan : Value) → List Value → Registry → (governance floor : Value) → Result Value
unfolding check_plan artifact_of sealed
compile_workflow host plan specialists registry governance floor = do
  check_plan plan specialists registry governance floor
  ordered ←
      order_steps (depends_on (elems (get plan "steps"))) (step_ids (elems (get plan "steps")))
  governed ← bound_field "governance" governance (governance_digest host governance)
  floored ← bound_field "floor" floor (floor_digest host floor)
  ok (sealed host (artifact_of host plan specialists registry ordered ++ (governed ++ floored)))

-- One of the two optional bundles of an artifact against its digest.
abbrev pub check_bound : Value → (Value → Result String) → String → Result (Unit {0})
check_bound v digest code =
    if is_undefined v
    then ok tt
    else (digest (omit ("digest" ∷ []) v) >>= λ d. assert (is_text (get v "digest") d) code)

unfoldable pub verify_workflow_artifact : Host → Value → Result (Unit {0})
verify_workflow_artifact host workflow = do
  assert (is_text (get workflow "format") "agent-harness.workflow.v1") "INVALID_WORKFLOW"
  check_bound (get workflow "governance") (governance_digest host) "GOVERNANCE_TAMPERED"
  check_bound (get workflow "floor") (floor_digest host) "FLOOR_TAMPERED"
  let artifact = omit ("digest" ∷ "canonical" ∷ []) workflow
  assert (is_text (get workflow "canonical") (canonical_text artifact)) "WORKFLOW_ARTIFACT_TAMPERED"
  assert (is_text (get workflow "digest") (digest_of host artifact)) "WORKFLOW_ARTIFACT_TAMPERED"
