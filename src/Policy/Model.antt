-- ===== src/Policy/Model.antt =====
-- src/model-policy.mjs: the model tier for a risk class and a budget.
use bounded_agent_harness.Prelude.{
  ℕ, String, Bool, not, ◌&&◌, ◌||◌, Option, none, some, [], ◌∷◌, leb, if◌then◌else◌, str_eq,
  includes, Result, ok, ◌>>◌, assert,
}
use bounded_agent_harness.Json.{Value, is_safe_positive, nat_of, text_of, is_string}

-- `COSTS[tier]`.
unfoldable pub tier_cost : String → ℕ
tier_cost tier = if str_eq tier "frontier" then 4 else if str_eq tier "standard" then 2 else 1

-- "CONTINUE" and "ESCALATE".
pub data Verdict : Type 0 where
  continue escalate : Verdict

pub record ModelDecision : Type 0 where
  pub decision : Verdict
  pub selected_tier : Option String
  pub reason : String
  pub risk_class : String
  pub fork : Bool
  pub estimated_cost_units : ℕ
  pub max_cost_units : ℕ

abbrev pub escalation : String → Bool → ℕ → ModelDecision
escalation risk fork most = record {
  decision = escalate;
  selected_tier = none;
  reason = "HUMAN_FLOOR_REQUIRED";
  risk_class = risk;
  fork = fork;
  estimated_cost_units = 0;
  max_cost_units = most;
}

abbrev continuation : String → Bool → ℕ → String → ModelDecision
continuation risk fork most tier = record {
  decision = continue;
  selected_tier = some tier;
  reason = if fork then "FORK_LOWEST_REASONABLE" else "REQUESTED_TIER";
  risk_class = risk;
  fork = fork;
  estimated_cost_units = tier_cost tier;
  max_cost_units = most;
}

-- The second half: the tier and its cost against the budget.
unfoldable pub affordable_tier : String → Bool → ℕ → String → Result ModelDecision
unfolding tier_cost
affordable_tier risk fork most tier = do
  assert (leb (tier_cost tier) most) "MODEL_BUDGET_EXCEEDED"
  ok (continuation risk fork most tier)

-- `riskClass`, `requestedTier` and `maxCostUnits` are any values; a caller gives `requestedTier`
-- its default "standard" when it is left out, and `fork` is a truth value.
unfoldable pub select_model_tier :
    (risk_class requested_tier : Value) → Bool → (max_cost_units : Value) → Result ModelDecision
unfolding affordable_tier
select_model_tier risk_class requested_tier fork max_cost_units = do
  let risk = text_of risk_class
  assert (is_string risk_class && includes risk ("A" ∷ "B" ∷ "C" ∷ "D" ∷ [])) "INVALID_RISK_CLASS"
  assert
      (is_string requested_tier
        && includes (text_of requested_tier) ("frontier" ∷ "standard" ∷ "economy" ∷ []))
      "INVALID_MODEL_TIER"
  assert (is_safe_positive max_cost_units) "INVALID_BUDGET"
  assert (not fork || includes risk ("A" ∷ "B" ∷ [])) "MODEL_DOWNGRADE_FORBIDDEN"
  if includes risk ("C" ∷ "D" ∷ [])
      then ok (escalation risk fork (nat_of max_cost_units))
      else affordable_tier risk fork (nat_of max_cost_units)
          (if fork then "economy" else text_of requested_tier)
