-- ===== src/Contracts.antt =====
-- src/contracts.mjs: the closed shape of a specialist profile and of a plan.
pub mod Laws
use bounded_agent_harness.Prelude.{
  ℕ, ◌+◌, String, Bool, true, false, not, ◌&&◌, ◌||◌, List, [], ◌∷◌, ltb, leb, if◌then◌else◌,
  includes, distinct, all, any, Result, ok, err, ◌>>=◌, ◌>>◌, assert, for_each, str_eq,
}
use bounded_agent_harness.Json.{
  Value, Fields, end, field, obj, get, keys, is_object, is_array, is_string, is_text, is_number,
  is_undefined, is_true, is_safe_natural, is_safe_positive, is_string_array, strings_of, elems,
  text_of, nat_of, closed_object,
}
use bounded_agent_harness.Json.Text.{is_stable_id, utf16_length}

-- `id(value, label)`.
unfoldable pub check_id : Value → Result (Unit {0})
check_id v = assert (is_string v && is_stable_id (text_of v)) "INVALID_ID"

-- `strings(value, label)`.
unfoldable pub check_strings : Value → Result (Unit {0})
check_strings v = assert (is_string_array v) "INVALID_TYPE"

-- `typeof value === "string" && value.length > 0`.
unfoldable pub is_nonempty_text : Value → Bool
is_nonempty_text v = is_string v && not (str_eq (text_of v) "")

unfoldable pub validate_specialist : Value → Result (Unit {0})
unfolding check_id check_strings for_each
validate_specialist profile = do
  closed_object profile (
      "id" ∷ "version" ∷ "description" ∷ "strengths" ∷ "limitations" ∷ "capabilities" ∷ "authority"
      ∷ "adapter" ∷ "evidence" ∷ [])
  check_id (get profile "id")
  assert (is_number (get profile "version") 1) "UNSUPPORTED_VERSION"
  assert (is_nonempty_text (get profile "description")) "INVALID_TYPE"
  check_strings (get profile "strengths")
  check_strings (get profile "limitations")
  check_strings (get profile "capabilities")
  check_strings (get profile "authority")
  check_id (get profile "adapter")
  let evidence = get profile "evidence"
  closed_object evidence ("completedRuns" ∷ "acceptedOutputs" ∷ "rejectedOutputs" ∷ [])
  for_each (λ key. assert (is_safe_natural (get evidence key)) "INVALID_EVIDENCE")
      ("completedRuns" ∷ "acceptedOutputs" ∷ "rejectedOutputs" ∷ [])
  assert
      (leb (nat_of (get evidence "acceptedOutputs") + nat_of (get evidence "rejectedOutputs"))
        (nat_of (get evidence "completedRuns")))
      "INVALID_EVIDENCE"

-- One projected dependency of a step, `for (const [dependency, fields] of …)`.
unfoldable pub check_projection : Value → String → Result (Unit {0})
unfolding check_strings
check_projection step dependency = do
  let projected = get (get step "contextProjection") dependency
  assert (includes dependency (strings_of (get step "dependsOn"))) "INVALID_CONTEXT_PROJECTION"
  check_strings projected
  assert (distinct (strings_of projected)) "INVALID_CONTEXT_PROJECTION"

-- The token budget of a step, where one is declared.
unfoldable pub check_token_budget : Value → Result (Unit {0})
check_token_budget budget = do
  closed_object budget ("maxOutputTokens" ∷ "reserveTokens" ∷ [])
  assert (is_safe_natural (get budget "maxOutputTokens")) "INVALID_TYPE"
  assert (ltb 0 (nat_of (get budget "maxOutputTokens"))) "TOKEN_RESPONSE_BUDGET_REQUIRED"
  assert (is_undefined (get budget "reserveTokens") || is_safe_natural (get budget "reserveTokens"))
      "INVALID_TYPE"

-- The approval gate of a step, where one is declared.
unfoldable pub check_approval : Value → Result (Unit {0})
unfolding check_id
check_approval approval = do
  closed_object approval ("required" ∷ "gateId" ∷ [])
  assert (is_true (get approval "required")) "INVALID_APPROVAL_GATE"
  check_id (get approval "gateId")

-- `if (value !== undefined) check(value);`
unfoldable pub unless_undefined : Value → (Value → Result (Unit {0})) → Result (Unit {0})
unless_undefined v check = if is_undefined v then ok tt else check v

-- `typeof value === "string" && value.length >= 8`.
unfoldable pub is_key : Value → Bool
is_key v = is_string v && leb 8 (utf16_length (text_of v))

unfoldable pub check_idempotency : Value → Result (Unit {0})
unfolding is_key
check_idempotency step =
    if is_text (get step "effect") "external"
    then assert (is_key (get step "idempotencyKey")) "IDEMPOTENCY_REQUIRED"
    else assert (is_undefined (get step "idempotencyKey")) "UNEXPECTED_IDEMPOTENCY_KEY"

-- `step.id`, and the ids of the steps of a plan.
abbrev pub step_id : Value → String
step_id step = text_of (get step "id")

abbrev pub step_ids : List Value → List String
step_ids [] = []
step_ids (step ∷ steps) = step_id step ∷ step_ids steps

abbrev step_keys : List String
step_keys =
    "id" ∷ "specialist" ∷ "capability" ∷ "authority" ∷ "dependsOn" ∷ "contextProjection" ∷ "input"
    ∷ "inputContract" ∷ "outputContract" ∷ "costUnits" ∷ "effect" ∷ "idempotencyKey" ∷ "approval"
    ∷ "tokenBudget" ∷ []

-- The body of the loop over the steps, the test for a duplicate aside.
unfoldable pub check_step_fields : Value → Result (Unit {0})
unfolding check_id check_strings for_each check_projection check_token_budget check_approval
check_step_fields step = do
  check_id (get step "specialist")
  check_id (get step "capability")
  check_id (get step "authority")
  check_strings (get step "dependsOn")
  assert (is_object (get step "contextProjection")) "INVALID_CONTEXT_PROJECTION"
  for_each (check_projection step) (keys (get step "contextProjection"))
  assert
      (all (λ dependency. includes dependency (keys (get step "contextProjection")))
        (strings_of (get step "dependsOn")))
      "INVALID_CONTEXT_PROJECTION"
  check_id (get step "outputContract")
  check_id (get step "inputContract")
  assert (is_safe_natural (get step "costUnits")) "INVALID_COST"
  assert (is_object (get step "input")) "INVALID_INPUT"
  assert
      (is_string (get step "effect")
        && includes (text_of (get step "effect")) ("read" ∷ "local" ∷ "external" ∷ []))
      "INVALID_EFFECT"
  unless_undefined (get step "tokenBudget") check_token_budget
  check_idempotency step
  unless_undefined (get step "approval") check_approval

-- The loop over the steps; `seen` holds the ids met so far.
unfoldable pub check_steps : List String → List Value → Result (Unit {0})
unfolding check_step_fields check_id
check_steps seen [] = ok tt
check_steps seen (step ∷ steps) = do
  closed_object step step_keys
  check_id (get step "id")
  assert (not (includes (step_id step) seen)) "DUPLICATE_STEP"
  check_step_fields step
  check_steps (step_id step ∷ seen) steps

-- `Array.isArray(value) && value.length > 0`.
unfoldable pub is_nonempty_array : Value → Bool
is_nonempty_array v = elim (elems v) [ [] ↦ false | _ ↦ true ]

unfoldable pub validate_plan : Value → Result (Unit {0})
unfolding check_steps check_id
validate_plan plan = do
  closed_object plan ("id" ∷ "version" ∷ "objective" ∷ "budget" ∷ "steps" ∷ [])
  check_id (get plan "id")
  assert (is_number (get plan "version") 1) "UNSUPPORTED_VERSION"
  assert (is_nonempty_text (get plan "objective")) "INVALID_TYPE"
  closed_object (get plan "budget") ("maxCostUnits" ∷ [])
  assert (is_safe_natural (get (get plan "budget") "maxCostUnits")) "INVALID_BUDGET"
  assert (is_nonempty_array (get plan "steps")) "INVALID_STEPS"
  check_steps [] (elems (get plan "steps"))
