-- ===== src/Continuation/Controller.antt =====
-- `decideContinuation` of src/continuation-controller.mjs. Instants are milliseconds; `none` is a time
-- stamp that is not valid.
pub mod Laws
use bounded_agent_harness.Prelude.{
  ℕ, String, Bool, true, false, not, ◌&&◌, Option, none, some, List, [], ◌∷◌, includes, str_eq,
  if◌then◌else◌, Result, ok, err, ◌>>=◌, ◌>>◌, assert,
}
use bounded_agent_harness.Json.{Value, str, get, is_boolean, is_string, is_true, text_of, nat_of}
use bounded_agent_harness.Json.Canonical.{Host}
use bounded_agent_harness.Floor.{validate_floor_manifest, floor_digest}
use bounded_agent_harness.Policy.Model.{
  Verdict, continue, escalate, ModelDecision, select_model_tier,
}
use bounded_agent_harness.Continuation.Fork.{Forked, create_continuation_fork}
use bounded_agent_harness.Continuation.Gate.{GateReport, evaluate_continuation_gate}
use bounded_agent_harness.Continuation.Watchdog.{
  Watch, due, armed, WatchReport, owner_timeout_watchdog,
}

-- What the caller asks with.
pub record Situation : Type 0 where
  pub workflow_digest : Value
  pub floor : Value
  pub reviews : Value
  pub owner_available : Value
  pub last_owner_prompt_at : Option ℕ
  pub now : ℕ
  pub parent_run_id : Value
  pub checkpoint_digest : Value
  pub existing_forks : List Value
  pub risk_class : Value
  pub requested_tier : Value

pub data Continuation : Type 0 where
  escalate_owner : Continuation
  continue_main : ModelDecision → Continuation
  wait_owner : WatchReport → Continuation
  continue_fork : Forked → ModelDecision → Continuation

abbrev timestamp : Option ℕ → Result ℕ
timestamp none = err "INVALID_TIMESTAMP"
timestamp (some t) = ok t

abbrev pub is_high_risk : Value → Bool
is_high_risk v = is_string v && includes (text_of v) ("C" ∷ "D" ∷ [])

-- A tier that is selected, or the owner.
abbrev pub with_model : (ModelDecision → Continuation) → ModelDecision → Continuation
with_model next model = elim model.decision [ continue ↦ next model | escalate ↦ escalate_owner ]

abbrev pub gate_floor : Host → Situation → Result GateReport
gate_floor host s = do
  digest ← floor_digest host s.floor
  evaluate_continuation_gate host s.workflow_digest (str digest) s.reviews
      ("contract" ∷ "domain" ∷ "consistency" ∷ "reconciliation" ∷ [])

-- The path of a timeout: a high risk goes to the owner, any other to a fork.
unfoldable pub fork_on_timeout : Host → Situation → Result Continuation
fork_on_timeout host s =
    if is_high_risk s.risk_class
    then (select_model_tier s.risk_class s.requested_tier false (get s.floor "maxCostUnits")
        >>= λ model. ok escalate_owner)
    else (do
      forked ←
          create_continuation_fork host (host.iso_text s.now) s.parent_run_id s.workflow_digest
            s.checkpoint_digest s.floor s.existing_forks
      model ←
          select_model_tier s.risk_class s.requested_tier true
            (get (get forked.fork "budget") "maxCostUnits")
      ok (with_model (continue_fork forked) model))

abbrev after_watchdog : Host → Situation → WatchReport → Result Continuation
after_watchdog host s watch = elim watch.state [
  | armed ↦ ok (wait_owner watch)
  | due ↦ fork_on_timeout host s
]

unfoldable pub while_owner_is_away : Host → Situation → Result Continuation
unfolding fork_on_timeout
while_owner_is_away host s = do
  prompted ← timestamp s.last_owner_prompt_at
  watch ←
      owner_timeout_watchdog prompted s.now
        (nat_of (get (get s.floor "timeoutPolicy") "forkAfterMinutes"))
  after_watchdog host s watch

unfoldable pub behind_gate : Host → Situation → Result Continuation
unfolding while_owner_is_away
behind_gate host s =
    if is_true s.owner_available
    then (select_model_tier s.risk_class s.requested_tier false (get s.floor "maxCostUnits")
        >>= λ model. ok (with_model continue_main model))
    else while_owner_is_away host s

unfoldable pub decide_continuation : Host → Situation → Result Continuation
unfolding behind_gate
decide_continuation host s = do
  validate_floor_manifest s.floor
  assert (is_boolean s.owner_available) "INVALID_OWNER_STATE"
  assert (is_string s.parent_run_id && not (str_eq (text_of s.parent_run_id) "")) "INVALID_ID"
  gate ← gate_floor host s
  let next = behind_gate host s
  if gate.continues then next else ok escalate_owner
