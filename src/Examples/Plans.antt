-- ===== src/Examples/Plans.antt =====
-- The theorems on plans, floors, bundles, compiled workflows, contracts and envelopes, at concrete values.
use bounded_agent_harness.Contracts
use bounded_agent_harness.Envelope
use bounded_agent_harness.Floor
use bounded_agent_harness.Governance
use bounded_agent_harness.Json
use bounded_agent_harness.Prelude
use bounded_agent_harness.Registry
use bounded_agent_harness.Workflow
use bounded_agent_harness.Prelude.{
  ℕ, ◌+◌, ◌≤◌, ◌<◌, String, ◌≡◌, ◌≢◌, refl, inl, inr, Bool, true, false, Option, none, some, List,
  [], ◌∷◌, Result, ok, err, All, distinct, includes, if◌then◌else◌, str_eq, ◌⊎◌,
}
use bounded_agent_harness.Json.{
  Value, undefined, get, elems, nat_of, num, nat, str, is_true, strings_of,
}
use bounded_agent_harness.Contracts.{validate_plan, step_ids}
use bounded_agent_harness.Contracts.Laws.{validate_plan-IsSound}
use bounded_agent_harness.Floor.{assert_plan_within_floor}
use bounded_agent_harness.Floor.Laws.{assert_plan_within_floor_sound}
use bounded_agent_harness.Governance.{standing_of, validate_governance_bundle}
use bounded_agent_harness.Governance.Promotion.{Thresholds, Promotion, assess_promotion}
use bounded_agent_harness.Governance.Laws.{
  IsBound, validate_governance_bundle-IsBound, standing_of-clean, assess_promotion-eligible,
}
use bounded_agent_harness.Registry.{
  Registry, register, validate_contract, validate_contract-register,
}
use bounded_agent_harness.Workflow.Order.{order_steps}
use bounded_agent_harness.Workflow.Order.Laws.{
  order_steps_sound, order_steps_total, IsStuck, InOrder,
}
use bounded_agent_harness.Workflow.Compile.{compile_workflow, verify_workflow_artifact, total_cost}
use bounded_agent_harness.Workflow.Compile.Laws.{compile_workflow_gated}
use bounded_agent_harness.Workflow.Compile.Seal.{verify-compile}
use bounded_agent_harness.Envelope.{build_capability_envelope, validate_capability_envelope}
use bounded_agent_harness.Envelope.Laws.{validate_capability_envelope_sound}
use bounded_agent_harness.Examples.Data.{
  object, number, value_of, evening, host, registry, plan, specialists, floor, bundle, evidence,
}

validate_plan-IsSound_example : distinct (step_ids (elems (get plan "steps"))) ≡ true
unfolding Contracts.check_idempotency Contracts.is_nonempty_array Contracts.is_nonempty_text
    Contracts.unless_undefined validate_plan Json.closed_object get Json.is_number
    Json.is_safe_natural Json.is_string_array Json.is_text Json.is_undefined strings_of
    Json.Text.is_stable_id
validate_plan-IsSound_example = (validate_plan-IsSound plan refl).2

assert_plan_within_floor_sound_example :
    nat_of (get (get plan "budget") "maxCostUnits") ≤ nat_of (get floor "maxCostUnits")
unfolding assert_plan_within_floor Floor.validate_floor_manifest Json.closed_object get
    Json.is_boolean Json.is_number Json.is_safe_integer Json.is_safe_positive Json.is_string_array
    Json.is_text is_true nat_of strings_of Json.Text.is_not_blank Json.Text.is_stable_id
assert_plan_within_floor_sound_example = (assert_plan_within_floor_sound plan floor refl).0

validate_governance_bundle-IsBound_example :
    All (IsBound (elems (get bundle "atoms"))) (strings_of (get bundle "requiredAtomIds"))
unfolding Floor.stable_id Floor.unique_strings Governance.level_name validate_governance_bundle
    Governance.validate_governed_atom Json.closed_object get Json.is_boolean Json.is_number
    Json.is_string_array Json.is_text is_true Json.is_undefined strings_of Json.Text.is_not_blank
    Json.Text.is_stable_id
validate_governance_bundle-IsBound_example = validate_governance_bundle-IsBound bundle refl

standing_of-clean_example : (standing_of (elems (get bundle "atoms")) evidence).clean ≡ true
unfolding standing_of get Json.is_text is_true strings_of
standing_of-clean_example = standing_of-clean evidence (elems (get bundle "atoms"))

abbrev outcomes : Value
outcomes = object (
    ("completedRuns", number 5)
    ∷ ("acceptedOutputs", number 5)
    ∷ ("rejectedOutputs", number 0)
    ∷ ("contractViolations", number 0)
    ∷ ("identityMismatches", number 0)
    ∷ ("costOverruns", number 0)
    ∷ [])

abbrev thresholds : Thresholds
thresholds = record { min_completed_runs = number 5; rate = 9; scale = 10 }

abbrev promotion : Promotion
promotion = record {
  target_name = "EXECUTION";
  eligible = true;
  human_floor_required = true;
  authority_change = "FLOOR_APPROVAL_REQUIRED";
  standing = standing_of (elems (get bundle "atoms")) evidence;
}

assess_promotion-eligible_example : promotion.authority_change ≡ "FLOOR_APPROVAL_REQUIRED"
unfolding Floor.stable_id Floor.unique_strings assess_promotion Governance.Promotion.check_outcomes
    Governance.level_name Governance.standing_governance_queries validate_governance_bundle
    Governance.validate_governance_evidence Governance.validate_governed_atom Json.closed_object get
    Json.is_boolean Json.is_number Json.is_safe_natural Json.is_safe_positive Json.is_string_array
    Json.is_text is_true Json.is_undefined nat_of strings_of Json.Text.is_digest
    Json.Text.is_not_blank Json.Text.is_stable_id
assess_promotion-eligible_example =
    (assess_promotion-eligible (str "analyst") (number 1) (number 5) outcomes bundle evidence
      thresholds promotion refl).0

validate_contract-register_example : validate_contract (registry) "out.v1" (str "x") ≡ ok tt
unfolding Json.is_string Json.text_of register validate_contract
validate_contract-register_example =
    validate_contract-register host (str "new.v1") (λ v. ok true) undefined (str "v => true")
      registry
      (value_of []
        (register host (str "new.v1") (λ v. ok true) undefined (str "v => true") registry))
      refl "out.v1" (str "x")

abbrev depends : String → List String
depends id = if str_eq id "publish" then "collect" ∷ [] else []

order_steps_sound_example : InOrder depends [] ("collect" ∷ "publish" ∷ [])
unfolding Json.Text.sort_texts order_steps
order_steps_sound_example =
    (order_steps_sound depends ("publish" ∷ "collect" ∷ []) ("collect" ∷ "publish" ∷ []) refl).0

abbrev workflow : Value
workflow = value_of undefined (compile_workflow host plan specialists registry bundle floor)

compile_workflow_gated_example : assert_plan_within_floor plan floor ≡ ok tt
unfolding Contracts.check_idempotency Contracts.is_nonempty_array Contracts.is_nonempty_text
    Contracts.unless_undefined validate_plan Contracts.validate_specialist assert_plan_within_floor
    Floor.floor_digest Floor.validate_floor_manifest Governance.governance_digest
    Governance.level_name validate_governance_bundle Governance.validate_governed_atom
    Json.closed_object get Json.is_boolean Json.is_number Json.is_safe_integer Json.is_safe_natural
    Json.is_safe_positive Json.is_string_array Json.is_text is_true Json.is_undefined nat_of
    strings_of Json.Text.is_not_blank Json.Text.is_stable_id Json.Text.sort_texts
    Registry.has_contract validate_contract Workflow.Compile.check_step compile_workflow
    Workflow.Compile.find_by_id total_cost order_steps
compile_workflow_gated_example =
    (compile_workflow_gated plan specialists registry bundle floor host workflow refl).1 refl

verify-compile_example : verify_workflow_artifact host workflow ≡ ok tt
unfolding Contracts.check_idempotency Contracts.is_nonempty_array Contracts.is_nonempty_text
    Contracts.unless_undefined validate_plan Contracts.validate_specialist assert_plan_within_floor
    Floor.floor_digest Floor.validate_floor_manifest Governance.governance_digest
    Governance.level_name validate_governance_bundle Governance.validate_governed_atom
    Json.closed_object get Json.is_boolean Json.is_number Json.is_safe_integer Json.is_safe_natural
    Json.is_safe_positive Json.is_string_array Json.is_text is_true Json.is_undefined nat_of
    strings_of Json.Text.is_not_blank Json.Text.is_stable_id Json.Text.sort_texts
    Registry.has_contract validate_contract Workflow.Compile.check_step compile_workflow
    Workflow.Compile.find_by_id total_cost order_steps
verify-compile_example = verify-compile host plan specialists registry bundle floor workflow refl

abbrev circular : String → List String
circular id = if str_eq id "first" then "second" ∷ [] else "first" ∷ []

order_steps_total_example :
    ((out : List String) × (order_steps circular ("first" ∷ "second" ∷ []) ≡ ok out))
    ⊎ ((order_steps circular ("first" ∷ "second" ∷ []) ≡ err "DEPENDENCY_CYCLE")
        × ((stuck : List String) × (stuck ≢ [])
            × IsStuck circular stuck
            × All (λ x. includes x ("first" ∷ "second" ∷ []) ≡ true) stuck))
order_steps_total_example = order_steps_total circular ("first" ∷ "second" ∷ []) (refl, (refl, tt))

abbrev step : Value
step = object (
    ("id", str "publish")
    ∷ ("capability", str "analyze")
    ∷ ("authority", str "read")
    ∷ ("adapter", str "local-adapter")
    ∷ ("effect", str "external")
    ∷ ("idempotencyKey", str "publish-1")
    ∷ [])

abbrev envelope : Value
envelope =
    value_of undefined
      (build_capability_envelope (str "run-1") (str "digest") step (number 1) (str evening))

abbrev handoff : Value
handoff = object (
    ("runId", str "run-1")
    ∷ ("stepId", str "publish")
    ∷ ("workflowDigest", str "digest")
    ∷ ("capability", str "analyze")
    ∷ ("authority", str "read")
    ∷ [])

validate_capability_envelope_sound_example :
    nat_of (get (get envelope "authorization") "maxEffects") ≤ 1
unfolding Contracts.is_key Contracts.is_nonempty_text build_capability_envelope
    Envelope.check_envelope Envelope.check_handoff Envelope.check_text Envelope.is_after
    Envelope.is_iso_instant Envelope.same_text validate_capability_envelope get Json.is_object
    Json.is_safe_natural Json.is_safe_positive Json.is_string Json.is_text Json.is_truthy Json.keys
    nat_of Json.object_of Json.text_of Json.Text.utf16_length Prelude.for_each
validate_capability_envelope_sound_example =
    (validate_capability_envelope_sound host 1500 envelope handoff (str "local-adapter") envelope
      refl).1
