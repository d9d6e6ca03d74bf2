-- ===== src/Policy/WorkLoop.antt =====
-- src/work-loop-policy.mjs: what the host must do after a bounded unit of work.
use bounded_agent_harness.Prelude.{
  ℕ, String, Bool, true, false, not, ◌&&◌, ◌||◌, List, [], ◌∷◌, ◌++◌, if◌then◌else◌, includes, ◌==◌,
  Result, ok, ◌>>◌, assert, for_each,
}
use bounded_agent_harness.Json.{
  Value, get, is_text, is_object, is_boolean, is_string, is_true, text_of, keys,
}
use bounded_agent_harness.Json.Text.{codes, sort_texts}

abbrev input_keys : List String
input_keys =
    "executionMode" ∷ "objectiveState" ∷ "validationState" ∷ "gitState" ∷ "ownerBoundary"
    ∷ "safeWorkAvailable" ∷ "alternateSafeWorkAvailable" ∷ "executionWindow" ∷ "checkpointRecorded"
    ∷ "progressReported" ∷ []

-- `texts.join("\0")`, and equality of the results.
unfoldable pub join_nul : List String → List ℕ
join_nul [] = []
join_nul (t ∷ []) = codes t
join_nul (t ∷ u ∷ ts) = codes t ++ (0 ∷ join_nul (u ∷ ts))

unfoldable pub same_codes : List ℕ → List ℕ → Bool
same_codes [] [] = true
same_codes (a ∷ as') (b ∷ bs) = a == b && same_codes as' bs
same_codes _ _ = false

unfoldable pub closed_snapshot : Value → Result (Unit {0})
unfolding join_nul same_codes
closed_snapshot v = do
  assert (is_object v) "INVALID_WORK_LOOP"
  assert (same_codes (join_nul (sort_texts (keys v))) (join_nul (sort_texts input_keys)))
      "INVALID_WORK_LOOP"

-- `values.includes(value)`, for a list of texts.
abbrev one_of : List String → Value → Bool
one_of texts v = is_string v && includes (text_of v) texts

unfoldable pub check_snapshot : Value → Result (Unit {0})
unfolding closed_snapshot for_each
check_snapshot s = do
  closed_snapshot s
  assert (one_of ("CONTINUOUS_RUN" ∷ "HEARTBEAT_RECOVERY" ∷ []) (get s "executionMode"))
      "INVALID_WORK_LOOP"
  assert (one_of ("ACTIVE" ∷ "COMPLETE" ∷ []) (get s "objectiveState")) "INVALID_WORK_LOOP"
  assert (one_of ("PASS" ∷ "FAILED_RECOVERABLE" ∷ "FAILED_FINAL" ∷ []) (get s "validationState"))
      "INVALID_WORK_LOOP"
  assert (one_of ("SAFE" ∷ "AMBIGUOUS" ∷ []) (get s "gitState")) "INVALID_WORK_LOOP"
  assert (one_of ("NONE" ∷ "REQUIRED" ∷ []) (get s "ownerBoundary")) "INVALID_WORK_LOOP"
  assert (one_of ("OPEN" ∷ "ENDING" ∷ []) (get s "executionWindow")) "INVALID_WORK_LOOP"
  for_each (λ key. assert (is_boolean (get s key)) "INVALID_WORK_LOOP")
      ("safeWorkAvailable" ∷ "alternateSafeWorkAvailable" ∷ "checkpointRecorded"
        ∷ "progressReported" ∷ [])

pub data WorkAction : Type 0 where
  complete_objective escalate_owner continue_alternate_safe_work : WorkAction
  arm_owner_wake_and_yield repair_and_continue record_checkpoint_before_yield : WorkAction
  yield_for_recovery start_or_resume_continuous_run continue_current_run : WorkAction

pub record WorkDecision : Type 0 where
  pub action : WorkAction
  pub continue_now : Bool
  pub terminal : Bool
  pub reason : String

abbrev decision : WorkAction → Bool → Bool → String → WorkDecision
decision action now terminal reason = record {
  action = action;
  continue_now = now;
  terminal = terminal;
  reason = reason;
}

-- The ladder of `decideWorkLoop`, from the first `if` on.
unfoldable pub work_action : Value → Result WorkDecision
work_action s =
    if is_text (get s "objectiveState") "COMPLETE"
    then ok (decision complete_objective false true "OBJECTIVE_PROVEN_COMPLETE")
    else if is_text (get s "gitState") "AMBIGUOUS"
    then ok (decision escalate_owner false false "UNSAFE_GIT_AMBIGUITY")
    else if is_text (get s "validationState") "FAILED_FINAL"
    then ok (decision escalate_owner false false "UNRECOVERABLE_VALIDATION_FAILURE")
    else if is_text (get s "ownerBoundary") "REQUIRED"
        && is_true (get s "alternateSafeWorkAvailable")
    then ok (decision continue_alternate_safe_work true false "BLOCK_ONLY_THE_GATED_ACTION")
    else if is_text (get s "ownerBoundary") "REQUIRED"
    then ok
        (decision arm_owner_wake_and_yield false false "OWNER_REQUIRED_AND_NO_ALTERNATE_SAFE_WORK")
    else if is_text (get s "validationState") "FAILED_RECOVERABLE"
    then (assert (is_true (get s "safeWorkAvailable")) "INVALID_WORK_LOOP"
        >> ok (decision repair_and_continue true false "RECOVERABLE_VALIDATION_FAILURE"))
    else if is_text (get s "executionWindow") "ENDING" || not (is_true (get s "safeWorkAvailable"))
    then (if not (is_true (get s "checkpointRecorded"))
        then ok (
            decision record_checkpoint_before_yield true false (
              if is_text (get s "executionWindow") "ENDING"
              then "EXECUTION_WINDOW_ENDING"
              else "NO_SAFE_WORK_REMAINS"))
        else ok (
            decision yield_for_recovery false false (
              if is_text (get s "executionWindow") "ENDING"
              then "EXECUTION_WINDOW_ENDED"
              else "NO_SAFE_WORK_REMAINS")))
    else if is_text (get s "executionMode") "HEARTBEAT_RECOVERY"
    then ok (
        decision start_or_resume_continuous_run false false
          "HEARTBEAT_IS_RECOVERY_NOT_PRIMARY_EXECUTION")
    else ok (
        decision continue_current_run true false (
          if is_true (get s "progressReported")
          then "PROGRESS_REPORT_IS_NOT_A_STOP"
          else "SAFE_WORK_REMAINS"))

unfoldable pub decide_work_loop : Value → Result WorkDecision
unfolding check_snapshot work_action
decide_work_loop s = check_snapshot s >> work_action s
