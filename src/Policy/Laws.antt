-- ===== src/Policy/Laws.antt =====
-- What the decision modules promise.
use bounded_agent_harness.Prelude.{
  ℕ, ◌+◌, ◌≤◌, ◌<◌, String, ◌≡◌, ◌↔◌, Bool, true, false, none, some, [], ◌∷◌, includes, ok, arith,
  >>-right, passed, assert, not, ◌&&◌, ◌||◌, ok-injective, subst, ap, leb, Bool-cases, inl, inr,
  Option, if◌then◌else◌,
}
use bounded_agent_harness.Json.{
  Value, get, is_text, is_true, nat_of, text_of, is_truthy, is_string, is_safe_positive,
}
use bounded_agent_harness.Policy.Model.{
  continue, escalate, ModelDecision, escalation, tier_cost, affordable_tier, select_model_tier,
}
use bounded_agent_harness.Policy.Recovery.{retry, never_retry, decide_recovery}
use bounded_agent_harness.Policy.WorkLoop.{
  yield_for_recovery, WorkDecision, check_snapshot, work_action, decide_work_loop,
}

abbrev IsPriced : ModelDecision → Type 0
IsPriced d = (tier : String) → d.selected_tier ≡ some tier → d.estimated_cost_units ≡ tier_cost tier

tier_or : String → Option String → String
tier_or t none = t
tier_or t (some u) = u

affordable_tier-IsPriced :
    (risk tier : String) (fork : Bool) (most : ℕ) (d : ModelDecision)
    → affordable_tier risk fork most tier ≡ ok d
    → IsPriced d
unfolding affordable_tier tier_or
affordable_tier-IsPriced risk tier fork most d h =
    let (fits, made) = passed (leb (tier_cost tier) most) "MODEL_BUDGET_EXCEEDED" _ h in
    subst IsPriced (ok-injective made) (λ t e. ap (λ o. tier_cost (tier_or tier o)) e)

select_model_tier-IsPriced :
    (risk tier : Value) (fork : Bool) (most : Value) (d : ModelDecision)
    → select_model_tier risk tier fork most ≡ ok d
    → IsPriced d
unfolding select_model_tier
select_model_tier-IsPriced risk tier fork most d h =
    let chosen : (if includes (text_of risk) ("C" ∷ "D" ∷ [])
          then ok (escalation (text_of risk) fork (nat_of most))
          else affordable_tier (text_of risk) fork (nat_of most)
              (if fork then "economy" else text_of tier))
        ≡ ok d =
      >>-right
        (assert (not fork || includes (text_of risk) ("A" ∷ "B" ∷ [])) "MODEL_DOWNGRADE_FORBIDDEN")
        _
        (>>-right (assert (is_safe_positive most) "INVALID_BUDGET") _ (
          >>-right
            (assert
              (is_string tier && includes (text_of tier) ("frontier" ∷ "standard" ∷ "economy" ∷ []))
              "INVALID_MODEL_TIER")
            _
            (>>-right
              (assert (is_string risk && includes (text_of risk) ("A" ∷ "B" ∷ "C" ∷ "D" ∷ []))
                "INVALID_RISK_CLASS")
              _ h))) in
    elim (Bool-cases (includes (text_of risk) ("C" ∷ "D" ∷ []))) [
      | inl e ↦
          let same : ok (escalation (text_of risk) fork (nat_of most)) ≡ ok d = rw e at chosen in
          subst IsPriced (ok-injective same) (λ t f. cc)
      | inr e ↦
          affordable_tier-IsPriced (text_of risk) (if fork then "economy" else text_of tier) fork
            (nat_of most) d (rw e at chosen)
    ]

-- The estimate of a decision is within the budget, and it is what the selected tier costs: 4 units for
-- frontier, 2 for standard and 1 for economy. A decision that continues is for class A or B, on the
-- economy tier for a fork; and classes C and D are escalated, with no tier selected.
pub select_model_tier-within_budget :
    (risk tier : Value) (fork : Bool) (most : Value) (d : ModelDecision)
    → select_model_tier risk tier fork most ≡ ok d
    → (d.estimated_cost_units ≤ nat_of most)
      × (d.selected_tier ≡ some "frontier" → d.estimated_cost_units ≡ 4)
      × (d.selected_tier ≡ some "standard" → d.estimated_cost_units ≡ 2)
      × (d.selected_tier ≡ some "economy" → d.estimated_cost_units ≡ 1)
      × (d.decision ≡ continue
          → (includes (text_of risk) ("A" ∷ "B" ∷ []) ≡ true)
            × (d.selected_tier ≡ (if fork then some "economy" else some (text_of tier))))
      × (includes (text_of risk) ("C" ∷ "D" ∷ []) ≡ true
          → (d.selected_tier ≡ none) × (d.decision ≡ escalate))
unfolding select_model_tier tier_cost
select_model_tier-within_budget risk tier fork most d h =
    let priced = select_model_tier-IsPriced risk tier fork most d h in
    (
      ground arith,
      priced "frontier",
      priced "standard",
      priced "economy",
      λ c. (ground arith, ground arith),
      λ c. (ground arith, ground arith),
    )

-- A retry is decided only below the attempt limit, never for a failure on the list, and for an
-- external effect only with an idempotency key. The attempts that remain are those up to the limit,
-- one more than after the next attempt, so retries come to an end.
pub decide_recovery-retry :
    (step attempts most code : Value) (reason : String) (next remaining : ℕ)
    → decide_recovery step attempts most code ≡ ok (retry reason next remaining)
    → (next ≡ nat_of attempts + 1)
      × (nat_of attempts + remaining ≡ nat_of most)
      × (0 < remaining)
      × (includes (text_of code) never_retry ≡ false)
      × (is_text (get step "effect") "external" ≡ true
          → is_truthy (get step "idempotencyKey") ≡ true)
unfolding decide_recovery
decide_recovery-retry step attempts most code reason next remaining h =
    (ground arith, ground arith, ground arith, ground arith, λ e. ground arith)

work_action_lem :
    (s : Value) (d : WorkDecision)
    → work_action s ≡ ok d
    → ((d.terminal ≡ true) ↔ (is_text (get s "objectiveState") "COMPLETE" ≡ true))
      × (d.terminal ≡ true → d.continue_now ≡ false)
      × (d.continue_now ≡ true
          → (is_text (get s "gitState") "AMBIGUOUS" ≡ false)
            × (is_text (get s "validationState") "FAILED_FINAL" ≡ false))
      × (d.action ≡ yield_for_recovery → is_true (get s "checkpointRecorded") ≡ true)
unfolding work_action
work_action_lem s d h = (
  (λ e. ground arith, λ e. ground arith),
  λ e. ground arith,
  λ e. (ground arith, ground arith),
  λ e. ground arith,
)

-- The decision is terminal exactly when the objective is complete, and then the work stops; work
-- goes on only with an unambiguous Git state and no final validation failure; and the host yields
-- for recovery only behind a recorded checkpoint.
pub decide_work_loop-terminal :
    (s : Value) (d : WorkDecision)
    → decide_work_loop s ≡ ok d
    → ((d.terminal ≡ true) ↔ (is_text (get s "objectiveState") "COMPLETE" ≡ true))
      × (d.terminal ≡ true → d.continue_now ≡ false)
      × (d.continue_now ≡ true
          → (is_text (get s "gitState") "AMBIGUOUS" ≡ false)
            × (is_text (get s "validationState") "FAILED_FINAL" ≡ false))
      × (d.action ≡ yield_for_recovery → is_true (get s "checkpointRecorded") ≡ true)
unfolding decide_work_loop
decide_work_loop-terminal s d h =
    work_action_lem s d (>>-right (check_snapshot s) (work_action s) h)

-- Two snapshots that agree but for the progress report.
pub record SameWork (s t : Value) : Type 0 where
  pub objective : get s "objectiveState" ≡ get t "objectiveState"
  pub git : get s "gitState" ≡ get t "gitState"
  pub validation : get s "validationState" ≡ get t "validationState"
  pub owner : get s "ownerBoundary" ≡ get t "ownerBoundary"
  pub alternate : get s "alternateSafeWorkAvailable" ≡ get t "alternateSafeWorkAvailable"
  pub safe : get s "safeWorkAvailable" ≡ get t "safeWorkAvailable"
  pub window : get s "executionWindow" ≡ get t "executionWindow"
  pub checkpoint : get s "checkpointRecorded" ≡ get t "checkpointRecorded"
  pub mode : get s "executionMode" ≡ get t "executionMode"

work_action-progress_blind :
    (s t : Value) (d e : WorkDecision)
    → SameWork s t
    → work_action s ≡ ok d
    → work_action t ≡ ok e
    → (d.action ≡ e.action) × (d.continue_now ≡ e.continue_now) × (d.terminal ≡ e.terminal)
unfolding work_action
work_action-progress_blind s t d e same h k = (ground arith, ground arith, ground arith)

-- Reporting progress does not change what is done: where two snapshots that agree but for the
-- report are both decided, the action and both flags are the same.
pub decide_work_loop-progress_blind :
    (s t : Value) (d e : WorkDecision)
    → SameWork s t
    → decide_work_loop s ≡ ok d
    → decide_work_loop t ≡ ok e
    → (d.action ≡ e.action) × (d.continue_now ≡ e.continue_now) × (d.terminal ≡ e.terminal)
unfolding decide_work_loop
decide_work_loop-progress_blind s t d e same h k =
    work_action-progress_blind s t d e same (>>-right (check_snapshot s) (work_action s) h)
      (>>-right (check_snapshot t) (work_action t) k)
