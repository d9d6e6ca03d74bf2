-- ===== src/Governance/Promotion.antt =====
-- `assessPromotion` of src/governance.mjs. The acceptance rate is compared as an exact fraction.
use bounded_agent_harness.Prelude.{
  ℕ, ◌+◌, ◌*◌, String, Bool, ◌&&◌, ◌||◌, List, [], ◌∷◌, leb, ◌==◌, if◌then◌else◌, Result, ok, ◌>>=◌,
  ◌>>◌, assert, for_each,
}
use bounded_agent_harness.Json.{
  Value, get, keys, is_number, is_safe_natural, is_safe_positive, nat_of, closed_object,
}
use bounded_agent_harness.Floor.{stable_id}
use bounded_agent_harness.Governance.{
  level_name, check_level, Standing, standing_governance_queries,
}

-- The least acceptance rate is the fraction `rate / scale`, between 0 and 1.
pub record Thresholds : Type 0 where
  pub min_completed_runs : Value
  pub rate : ℕ
  pub scale : ℕ

pub record Promotion : Type 0 where
  pub target_name : String
  pub eligible : Bool
  pub human_floor_required : Bool
  pub authority_change : String
  pub standing : Standing

-- `acceptanceRate >= thresholds.minAcceptanceRate`; with no runs the rate is 0.
unfoldable pub meets_rate : Value → Thresholds → Bool
meets_rate outcomes t =
    if is_number (get outcomes "completedRuns") 0
    then t.rate == 0
    else leb (t.rate * nat_of (get outcomes "completedRuns"))
        (nat_of (get outcomes "acceptedOutputs") * t.scale)

-- A key that is missing makes the sum NaN, and the comparison fails.
unfoldable pub check_outcomes : Value → Result (Unit {0})
unfolding for_each
check_outcomes outcomes = do
  closed_object outcomes (
      "completedRuns" ∷ "acceptedOutputs" ∷ "rejectedOutputs" ∷ "contractViolations"
      ∷ "identityMismatches" ∷ "costOverruns" ∷ [])
  for_each (λ key. assert (is_safe_natural (get outcomes key)) "INVALID_OUTCOMES") (keys outcomes)
  assert
      (is_safe_natural (get outcomes "acceptedOutputs")
        && is_safe_natural (get outcomes "rejectedOutputs")
        && is_safe_natural (get outcomes "completedRuns")
        && leb (nat_of (get outcomes "acceptedOutputs") + nat_of (get outcomes "rejectedOutputs"))
            (nat_of (get outcomes "completedRuns")))
      "INVALID_OUTCOMES"

unfoldable pub promotion_of : Value → Thresholds → Standing → Value → String → Promotion
unfolding meets_rate
promotion_of outcomes t standing target name = record {
  target_name = name;
  eligible =
      leb (nat_of t.min_completed_runs) (nat_of (get outcomes "completedRuns"))
      && meets_rate outcomes t
      && is_number (get outcomes "rejectedOutputs") 0
      && is_number (get outcomes "contractViolations") 0
      && is_number (get outcomes "identityMismatches") 0
      && is_number (get outcomes "costOverruns") 0
      && standing.clean;
  human_floor_required = is_number target 0 || is_number target 5;
  authority_change = "FLOOR_APPROVAL_REQUIRED";
  standing = standing;
}

unfoldable pub assess_promotion :
    (specialist_id current_level target_level outcomes bundle : Value)
    → List Value
    → Thresholds
    → Result Promotion
unfolding promotion_of
assess_promotion specialist_id current_level target_level outcomes bundle evidence t = do
  stable_id specialist_id
  check_level current_level
  name ← level_name target_level
  assert (leb (nat_of current_level) (nat_of target_level)) "LEVEL_REGRESSION"
  assert (is_safe_positive t.min_completed_runs) "INVALID_THRESHOLD"
  assert (leb t.rate t.scale) "INVALID_THRESHOLD"
  check_outcomes outcomes
  standing ← standing_governance_queries bundle evidence
  ok (promotion_of outcomes t standing target_level name)
