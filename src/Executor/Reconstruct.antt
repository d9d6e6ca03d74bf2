-- ===== src/Executor/Reconstruct.antt =====
-- The log of a run and the state of the loop say the same: what is reconstructed is what was done.
use bounded_agent_harness.Prelude.{
  ◌+◌, ◌≤◌, String, ◌≡◌, refl, sym, ap, ◌∙◌, inl, inr, Bool, true, not, ◌&&◌, Option, List, [], ◌∷◌,
  ◌++◌, str_eq, eq_refl, includes, Result, ok, err, assert, arith, Bool-cases, Option-cases,
  append-nil, append_assoc, >>=-eq-ok, >>-right,
}
use bounded_agent_harness.Json.{Value, get, nat_of, text_of}
use bounded_agent_harness.Contracts.{step_id}
use bounded_agent_harness.Executor.Log.{
  Kind, step_started, step_completed, Event, Run, Store, append, save, Prior, of_run, completed_of,
  cost_of, outputs_of, start_of, completed_ids, total_spent, all_outputs, first_start, is_start_of,
}
use bounded_agent_harness.Executor.Steps.{
  Env, StepEnd, advanced, waiting, failed, Answer, digest, budget, check_start, accept_answer,
  invoke_step, request_of, finish_step, start_step, is_resumed, is_approved,
}
use bounded_agent_harness.Executor.Run.{needs_approval, run_step, run_steps, close_run}

of_run-append :
    (id : String) (log : List Event) (e : Event)
    → str_eq e.run id ≡ true
    → of_run id (log ++ e ∷ []) ≡ of_run id log ++ e ∷ []
of_run-append id [] e h = rw h refl
of_run-append id (d ∷ ds) e h = elim (Bool-cases (str_eq d.run id)) [
  | inl p ↦ rw p (ap (λ r. d ∷ r) (of_run-append id ds e h))
  | inr p ↦ rw p (of_run-append id ds e h)
]

completed_ids-append :
    (es : List Event) (e : Event)
    → completed_ids (es ++ e ∷ []) ≡ completed_ids es ++ completed_of e.kind
unfolding completed_ids
completed_ids-append [] e = append-nil (completed_of e.kind)
completed_ids-append (d ∷ ds) e =
    ap (λ r. completed_of d.kind ++ r) (completed_ids-append ds e)
    ∙ sym (append_assoc (completed_of d.kind) (completed_ids ds) (completed_of e.kind))

all_outputs-append :
    (es : List Event) (e : Event) → all_outputs (es ++ e ∷ []) ≡ all_outputs es ++ outputs_of e.kind
unfolding all_outputs
all_outputs-append [] e = append-nil (outputs_of e.kind)
all_outputs-append (d ∷ ds) e =
    ap (λ r. outputs_of d.kind ++ r) (all_outputs-append ds e)
    ∙ sym (append_assoc (outputs_of d.kind) (all_outputs ds) (outputs_of e.kind))

total_spent-append :
    (es : List Event) (e : Event) → total_spent (es ++ e ∷ []) ≡ total_spent es + cost_of e.kind
unfolding total_spent
total_spent-append [] e = omega arith
total_spent-append (d ∷ ds) e = omega (arith, total_spent-append ds e)

first_start-append :
    (es : List Event) (e : Event) (w : String)
    → is_start_of (first_start es) w ≡ true
    → is_start_of (first_start (es ++ e ∷ [])) w ≡ true
unfolding first_start
first_start-append [] e w h = cc
first_start-append (d ∷ ds) e w h = elim (Option-cases (start_of d.kind)) [
  | inl p ↦ rw p (first_start-append ds e w (rw p at h))
  | inr (x, p) ↦ rw p (rw p at h)
]

module _ (env : Env) where
  abbrev pub mine : List Event → List Event
  mine log = of_run env.run_id log

  -- The log of the run agrees with the state of the loop.
  pub record Agrees (run : Run) (log : List Event) : Type 0 where
    pub completed : completed_ids (mine log) ≡ run.completed
    pub spent : total_spent (mine log) ≡ run.spent
    pub outputs : all_outputs (mine log) ≡ run.outputs
    pub started : is_start_of (first_start (mine log)) (digest env) ≡ true
    pub within : run.spent ≤ budget env

  pub grown :
      (s : Store) (kind : Kind)
      → mine (append env.run_id kind s).log
        ≡ mine s.log ++ record { run = env.run_id; kind = kind } ∷ []
  unfolding append
  grown s kind =
      of_run-append env.run_id s.log (record { run = env.run_id; kind = kind }) (eq_refl env.run_id)

  -- An event that completes nothing changes nothing of that.
  pub quiet :
      (run : Run) (s : Store) (kind : Kind)
      → completed_of kind ≡ []
      → cost_of kind ≡ 0
      → outputs_of kind ≡ []
      → Agrees run s.log
      → Agrees run (append env.run_id kind s).log
  quiet run s kind p q r a =
      let e : Event = record { run = env.run_id; kind = kind } in
      record {
        completed = rw (grown s kind) (
            completed_ids-append (mine s.log) e
            ∙ rw p (append-nil (completed_ids (mine s.log)) ∙ a.completed));
        spent = rw (grown s kind) (omega (arith, total_spent-append (mine s.log) e, q, a.spent));
        outputs = rw (grown s kind) (
            all_outputs-append (mine s.log) e
            ∙ rw r (append-nil (all_outputs (mine s.log)) ∙ a.outputs));
        started = rw (grown s kind) (first_start-append (mine s.log) e (digest env) a.started);
        within = a.within;
      }

  abbrev pub EndAgrees : StepEnd → Type 0
  EndAgrees (advanced run s) = Agrees run s.log
  EndAgrees (waiting run s gate step) = Agrees run s.log
  EndAgrees (failed run s code) = Agrees run s.log

  answer_bounded :
      (step value : Value) (a : Answer)
      → accept_answer env step value ≡ ok a
      → a.cost ≤ nat_of (get step "costUnits")
  unfolding accept_answer
  answer_bounded step value a h = ground arith

  finish_step-Agrees :
      (run : Run) (s : Store) (step : Value) (r : Result Answer)
      → ((a : Answer) → r ≡ ok a → run.spent + a.cost ≤ budget env)
      → Agrees run s.log
      → EndAgrees (finish_step env run s step r)
  unfolding finish_step completed_of cost_of outputs_of
  finish_step-Agrees run s step (err code) room h = h
  finish_step-Agrees run s step (ok a) room h =
      let kind : Kind =
        step_completed (step_id step) a.cost (nat_of (get step "costUnits")) a.source a.provider
          a.output in
      let e : Event = record { run = env.run_id; kind = kind } in
      record {
        completed =
            rw (grown s kind)
              (completed_ids-append (mine s.log) e ∙ ap (λ l. l ++ step_id step ∷ []) h.completed);
        spent =
            rw (grown s kind) (total_spent-append (mine s.log) e ∙ ap (λ n. n + a.cost) h.spent);
        outputs = rw (grown s kind) (
            all_outputs-append (mine s.log) e
            ∙ ap (λ l. l ++ (step_id step, a.output) ∷ []) h.outputs);
        started = rw (grown s kind) (first_start-append (mine s.log) e (digest env) h.started);
        within = room a refl;
      }

  invoke_bounded :
      (step context : Value) (resumed : Bool) (log : List Event) (a : Answer)
      → invoke_step env step context resumed log ≡ ok a
      → a.cost ≤ nat_of (get step "costUnits")
  unfolding invoke_step
  invoke_bounded step context resumed log a h =
      let (request, p, h1) = >>=-eq-ok (request_of env step context resumed log) _ (
        >>-right (assert (env.adapter_known (text_of (get step "adapter"))) "UNKNOWN_ADAPTER") _
          h) in
      let (value, q, h2) = >>=-eq-ok (env.invoke (text_of (get step "adapter")) log request) _ h1 in
      answer_bounded step value a h2

  check_start_room :
      (prior : Option Prior) (run : Run) (step context : Value)
      → check_start env prior run step ≡ ok context
      → run.spent + nat_of (get step "costUnits") ≤ budget env
  unfolding check_start
  check_start_room prior run step context h = ground arith

  start_step-Agrees :
      (prior : Option Prior) (run : Run) (s : Store) (step : Value) (c : Result Value)
      → c ≡ check_start env prior run step
      → Agrees run s.log
      → EndAgrees (start_step env prior run s step c)
  unfolding start_step completed_of cost_of outputs_of
  start_step-Agrees prior run s step (err code) e h = h
  start_step-Agrees prior run s step (ok context) e h =
      let kind : Kind =
        step_started (step_id step) (text_of (get step "specialist"))
          (text_of (get step "adapter")) in
      let s' = append env.run_id kind s in
      finish_step-Agrees run s' step (invoke_step env step context (is_resumed prior) s'.log)
        (λ a p. omega (
          arith,
          check_start_room prior run step context (sym e),
          invoke_bounded step context (is_resumed prior) s'.log a p,
        ))
        (quiet run s kind refl refl refl h)

  run_step-Agrees :
      (prior : Option Prior) (run : Run) (s : Store) (step : Value)
      → Agrees run s.log
      → EndAgrees (run_step env prior run s step)
  unfolding run_step completed_of cost_of outputs_of
  run_step-Agrees prior run s step h = elim (Bool-cases (includes (step_id step) run.completed)) [
    | inl done ↦ rw done h
    | inr todo ↦ rw todo (elim (Bool-cases (env.aborted s.log)) [
      | inl stop ↦ rw stop h
      | inr go ↦ rw go (elim (Bool-cases (needs_approval env step && not (is_approved env step))) [
        | inl wait ↦ rw wait (quiet run s _ refl refl refl h)
        | inr open' ↦ rw open' (elim (Bool-cases (needs_approval env step)) [
          | inl gated ↦
              rw gated (start_step-Agrees prior run _ step _ refl (quiet run s _ refl refl refl h))
          | inr free ↦ rw free (start_step-Agrees prior run s step _ refl h)
        ])
      ])
    ])
  ]

  pub run_steps-Agrees :
      (prior : Option Prior) (steps : List Value) (run : Run) (s : Store)
      → Agrees run s.log
      → EndAgrees (run_steps env prior steps run s)
  unfolding run_steps
  run_steps-Agrees prior [] run s h = h
  run_steps-Agrees prior (step ∷ steps) run s h =
      go (run_step env prior run s step) (run_step-Agrees prior run s step h)
        (run_steps-Agrees prior steps)
    where
      go :
          (end : StepEnd)
          → EndAgrees end
          → ((run' : Run) (s' : Store)
              → Agrees run' s'.log
              → EndAgrees (run_steps env prior steps run' s'))
          → EndAgrees (elim end [
            | advanced run' s' ↦ run_steps env prior steps run' s'
            | waiting run' s' gate id ↦ waiting run' s' gate id
            | failed run' s' code ↦ failed run' s' code
          ])
      go (advanced run' s') a rest = rest run' s' a
      go (waiting run' s' gate id) a rest = a
      go (failed run' s' code) a rest = a

  pub close_run-Agrees : (end : StepEnd) → EndAgrees end → EndAgrees (close_run env end)
  unfolding close_run completed_of cost_of outputs_of save
  close_run-Agrees (advanced run s) h = quiet run s _ refl refl refl h
  close_run-Agrees (waiting run s gate step) h = h
  close_run-Agrees (failed run s code) h = quiet run s _ refl refl refl h
