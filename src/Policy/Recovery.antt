-- ===== src/Policy/Recovery.antt =====
-- src/recovery-policy.mjs: what to do after a step has failed.
use bounded_agent_harness.Prelude.{
  ℕ, ◌+◌, ◌-◌, String, not, ◌&&◌, ◌||◌, List, [], ◌∷◌, leb, if◌then◌else◌, str_eq, includes, Result,
  ok, ◌>>◌, assert,
}
use bounded_agent_harness.Json.{
  Value, get, is_text, is_object, is_array, is_safe_positive, is_string, nat_of, text_of, is_truthy,
}

abbrev pub never_retry : List String
never_retry =
    "AUTHORITY_ESCALATION" ∷ "BUDGET_EXCEEDED" ∷ "CONTRACT_REJECTED" ∷ "CONTRACT_REGISTRY_MISMATCH"
    ∷ "MCP_IDENTITY_MISMATCH" ∷ "STEP_COST_EXCEEDED" ∷ []

pub data Recovery : Type 0 where
  park : (reason : String) → Recovery
  owner_review : (reason : String) → Recovery
  retry : (reason : String) (next_attempt remaining_attempts : ℕ) → Recovery

-- The decision, after the checks of the input.
unfoldable pub recovery_action : Value → ℕ → ℕ → String → Recovery
recovery_action step attempts most code =
    if includes code never_retry
    then park "non-retryable-policy-failure"
    else if is_text (get step "effect") "external" && not (is_truthy (get step "idempotencyKey"))
    then owner_review "ambiguous-external-effect"
    else if leb most attempts
    then park "attempt-limit-reached"
    else retry
        (if is_text (get step "effect") "external"
          then "idempotency-key-present"
          else "no-external-side-effect")
        (attempts + 1) (most - attempts)

-- `step && typeof step === "object"` also holds of an array.
unfoldable pub decide_recovery : (step attempts max_attempts failure_code : Value) → Result Recovery
unfolding recovery_action
decide_recovery step attempts max_attempts failure_code = do
  assert (is_object step || is_array step) "INVALID_RECOVERY_INPUT"
  assert (is_safe_positive attempts) "INVALID_RECOVERY_INPUT"
  assert (is_safe_positive max_attempts) "INVALID_RECOVERY_INPUT"
  assert (is_string failure_code && not (str_eq (text_of failure_code) "")) "INVALID_RECOVERY_INPUT"
  ok (recovery_action step (nat_of attempts) (nat_of max_attempts) (text_of failure_code))
