-- ===== src/Continuation/Controller/Laws.antt =====
-- When work goes on in a fork.
use bounded_agent_harness.Prelude.{
  ℕ, ◌+◌, ◌*◌, ◌≤◌, ◌≡◌, inl, inr, true, false, some, ok, arith, Result-cases, Option-cases,
}
use bounded_agent_harness.Json.{get, is_true, nat_of}
use bounded_agent_harness.Json.Canonical.{Host}
use bounded_agent_harness.Policy.Model.{continue, ModelDecision, select_model_tier}
use bounded_agent_harness.Policy.Laws.{select_model_tier-within_budget}
use bounded_agent_harness.Continuation.Fork.{Forked, create_continuation_fork}
use bounded_agent_harness.Continuation.Gate.{GateReport}
use bounded_agent_harness.Continuation.Watchdog.{
  WatchReport, due, owner_timeout_watchdog, owner_timeout_watchdog_lem,
}
use bounded_agent_harness.Continuation.Controller.{
  Situation, continue_fork, is_high_risk, gate_floor, fork_on_timeout, while_owner_is_away,
  behind_gate, decide_continuation,
}

module _ (host : Host) (s : Situation) (forked : Forked) (model : ModelDecision) where
  fork_parts :
      fork_on_timeout host s ≡ ok (continue_fork forked model)
      → (is_high_risk s.risk_class ≡ false)
        × (create_continuation_fork host
              (host.iso_text s.now)
              s.parent_run_id
              s.workflow_digest
              s.checkpoint_digest
              s.floor
              s.existing_forks
            ≡ ok forked)
        × (select_model_tier s.risk_class s.requested_tier true
              (get (get forked.fork "budget") "maxCostUnits")
            ≡ ok model)
        × (model.decision ≡ continue)
  unfolding fork_on_timeout
  fork_parts h = (ground arith, ground arith, ground arith, ground arith)

  away_parts :
      while_owner_is_away host s ≡ ok (continue_fork forked model)
      → (fork_on_timeout host s ≡ ok (continue_fork forked model))
        × ((prompted : ℕ) × (s.last_owner_prompt_at ≡ some prompted)
            × ((watch : WatchReport) × (owner_timeout_watchdog prompted s.now
                    (nat_of (get (get s.floor "timeoutPolicy") "forkAfterMinutes"))
                  ≡ ok watch)
                × (watch.state ≡ due)))
  unfolding while_owner_is_away
  away_parts h = elim (Option-cases s.last_owner_prompt_at) [
    | inl e ↦ ground arith
    | inr (prompted, e) ↦
        elim (Result-cases (
          owner_timeout_watchdog prompted s.now
            (nat_of (get (get s.floor "timeoutPolicy") "forkAfterMinutes")))) [
              | inl (watch, w) ↦ (ground arith, (prompted, e, (watch, w, ground arith)))
              | inr (code, w) ↦ ground arith
            ]
  ]

  decide_parts :
      decide_continuation host s ≡ ok (continue_fork forked model)
      → ((gate : GateReport) × (gate_floor host s ≡ ok gate) × (gate.continues ≡ true))
        × (behind_gate host s ≡ ok (continue_fork forked model))
  unfolding decide_continuation
  decide_parts h = elim (Result-cases (gate_floor host s)) [
    | inl (gate, e) ↦ ((gate, e, ground arith), ground arith)
    | inr (code, e) ↦ ground arith
  ]

  behind_parts :
      behind_gate host s ≡ ok (continue_fork forked model)
      → (is_true s.owner_available ≡ false)
        × (while_owner_is_away host s ≡ ok (continue_fork forked model))
  unfolding behind_gate
  behind_parts h = (ground arith, ground arith)

  -- Work goes on in a fork only behind an open gate, with the owner away for the minutes that the floor
  -- allows, for a risk that is not C or D; and then in the fork of this timeout, on the economy
  -- tier, at a cost within the budget of the fork.
  pub decide_continuation-fork :
      decide_continuation host s ≡ ok (continue_fork forked model)
      → ((gate : GateReport) × (gate_floor host s ≡ ok gate) × (gate.continues ≡ true))
        × (is_true s.owner_available ≡ false)
        × ((prompted : ℕ) × (s.last_owner_prompt_at ≡ some prompted)
            × (prompted + nat_of (get (get s.floor "timeoutPolicy") "forkAfterMinutes") * 60000
                ≤ s.now))
        × (is_high_risk s.risk_class ≡ false)
        × (create_continuation_fork host
              (host.iso_text s.now)
              s.parent_run_id
              s.workflow_digest
              s.checkpoint_digest
              s.floor
              s.existing_forks
            ≡ ok forked)
        × (model.selected_tier ≡ some "economy")
        × (model.estimated_cost_units ≤ nat_of (get (get forked.fork "budget") "maxCostUnits"))
  decide_continuation-fork h =
      let (gate, behind) = decide_parts h in
      let (absent, away) = behind_parts behind in
      let (forking, (prompted, asked, (watch, watched, is_due))) = away_parts away in
      let (low, made, chosen, going) = fork_parts forking in
      let (never, (overdue, back), wakes) =
        owner_timeout_watchdog_lem prompted s.now _ watch watched in
      let (cost, frontier, standard, economy, tier, high) =
        select_model_tier-within_budget s.risk_class s.requested_tier true
          (get (get forked.fork "budget") "maxCostUnits") model chosen in
      (gate, absent, (prompted, asked, overdue is_due), low, made, (tier going).1, cost)
