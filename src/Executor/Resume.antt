-- ===== src/Executor/Resume.antt =====
-- A run of `executeWorkflow` (src/executor.mjs) as a whole, fresh or resumed: what its log says at the end.
use bounded_agent_harness.Prelude.{
  ◌≤◌, String, ◌≡◌, refl, ap, ◌∙◌, subst, inl, inr, true, Option, none, some, List, [], ◌∷◌, ◌++◌,
  ok, arith, Bool-cases, eq_refl, >>=-eq-ok, >>-right, ok-injective,
}
use bounded_agent_harness.Json.{get, is_truthy}
use bounded_agent_harness.Executor.Log.{
  run_started, run_resumed, Event, Store, append, Prior, reconstruct, prior_of, completed_of,
  cost_of, outputs_of, start_of, completed_ids, total_spent, all_outputs, first_start, is_start_of,
  reconstruct_from,
}
use bounded_agent_harness.Executor.Steps.{Env, StepEnd, digest, budget}
use bounded_agent_harness.Executor.Run.{
  run_steps, fresh_run, prior_run, first_event, open_run, find_prior, check_workflow,
  execute_workflow,
}
use bounded_agent_harness.Executor.Reconstruct.{
  mine, Agrees, EndAgrees, grown, quiet, run_steps-Agrees, close_run-Agrees,
}

module _ (env : Env) where
  first_start-fresh :
      (d : String)
      → is_start_of (first_start (record { run = env.run_id; kind = run_started d } ∷ [])) d ≡ true
  unfolding first_start start_of
  first_start-fresh d = eq_refl d

  opened_fresh :
      (s : Store)
      → mine env s.log ≡ []
      → Agrees env (fresh_run env) (append env.run_id (run_started (digest env)) s).log
  unfolding completed_ids total_spent all_outputs completed_of cost_of outputs_of
  opened_fresh s h =
      let start : Event = record { run = env.run_id; kind = run_started (digest env) } in
      let e : mine env (append env.run_id (run_started (digest env)) s).log ≡ start ∷ [] =
        grown env s (run_started (digest env)) ∙ ap (λ l. l ++ start ∷ []) h in
      record {
        completed = rw e refl;
        spent = rw e refl;
        outputs = rw e refl;
        started = rw e (first_start-fresh (digest env));
        within = omega arith;
      }

  found_none : (es : List Event) → reconstruct_from env.workflow es ≡ ok none → es ≡ []
  found_none [] h = refl
  found_none (e ∷ es) h = ground arith

  found_started :
      (es : List Event) (p : Prior)
      → reconstruct_from env.workflow es ≡ ok (some p)
      → is_start_of (first_start es) (digest env) ≡ true
  found_started [] p h = ground arith
  found_started (e ∷ es) p h = ground arith

  found_prior :
      (es : List Event) (p : Prior)
      → reconstruct_from env.workflow es ≡ ok (some p)
      → prior_of env.workflow es ≡ p
  found_prior [] p h = ground arith
  found_prior (e ∷ es) p h = ground arith

  opened_resumed :
      (s : Store) (p : Prior)
      → total_spent (mine env s.log) ≤ budget env
      → prior_of env.workflow (mine env s.log) ≡ p
      → is_start_of (first_start (mine env s.log)) (digest env) ≡ true
      → Agrees env p.run s.log
  unfolding prior_of
  opened_resumed s p room e started =
      subst (λ q. Agrees env q.run s.log) e
        (record {
          completed = refl;
          spent = refl;
          outputs = refl;
          started = started;
          within = room;
        })

  opened :
      (prior : Option Prior) (s : Store)
      → total_spent (mine env s.log) ≤ budget env
      → reconstruct s.log env.workflow env.run_id ≡ ok prior
      → Agrees env (prior_run env prior) (append env.run_id (first_event env prior) s).log
  unfolding reconstruct completed_of cost_of outputs_of
  opened none s room h = opened_fresh s (found_none (mine env s.log) h)
  opened (some p) s room h = quiet env p.run s (run_resumed p.run.completed) refl refl refl (
      opened_resumed s p room (found_prior (mine env s.log) p h)
        (found_started (mine env s.log) p h))

  -- What is found in the log agrees with it, and the first events keep that.
  open_run-Agrees :
      (prior : Option Prior) (s : Store)
      → total_spent (mine env s.log) ≤ budget env
      → reconstruct s.log env.workflow env.run_id ≡ ok prior
      → Agrees env (prior_run env prior) (open_run env prior s).log
  unfolding open_run completed_of cost_of outputs_of
  open_run-Agrees prior s room h = elim (Bool-cases (is_truthy (get env.workflow "governance"))) [
    | inl p ↦ rw p (
        quiet env (prior_run env prior) (append env.run_id (first_event env prior) s) _ refl refl
          refl (opened prior s room h))
    | inr p ↦ rw p (opened prior s room h)
  ]

  find_prior-reconstruct :
      (log : List Event) (prior : Option Prior)
      → find_prior env log ≡ ok prior
      → reconstruct log env.workflow env.run_id ≡ ok prior
  unfolding find_prior
  find_prior-reconstruct log prior h = ground arith

-- A run that gets past the checks of its workflow and of its log, fresh or resumed, ends with a log that
-- says exactly what the loop did, whether it finished, waits for an approval or failed: the completed
-- steps, the units spent and the outputs that are read back from the log are those of the loop, the
-- log belongs to this workflow, and the units spent are within the budget. The condition is that what
-- the log holds of the run at the start is within the budget.
pub execute_workflow_reconstructs :
    (env : Env) (s : Store) (end : StepEnd)
    → total_spent (mine env s.log) ≤ budget env
    → execute_workflow env s ≡ ok end
    → EndAgrees env end
unfolding execute_workflow
execute_workflow_reconstructs env s end room h =
    let (prior, p, h1) = >>=-eq-ok (find_prior env s.log) _ (>>-right (check_workflow env) _ h) in
    let opened = open_run-Agrees env prior s room (find_prior-reconstruct env s.log prior p) in
    subst (λ e. EndAgrees env e) (ok-injective h1)
      (close_run-Agrees env (run_steps env prior _ (prior_run env prior) (open_run env prior s))
        (run_steps-Agrees env prior _ _ _ opened))
