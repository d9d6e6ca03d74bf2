-- ===== src/Queue/Completion.antt =====
-- What a completion of src/shared-task-queue.mjs guarantees.
use bounded_agent_harness.Prelude.{
  err≢ok, ℕ, String, ◌≡◌, refl, sym, ap, subst, ◌∙◌, inl, inr, Bool, true, false, not, Option, none,
  some, List, [], ◌∷◌, ◌++◌, select, all, ok, arith, Bool-cases, Result-cases,
}
use bounded_agent_harness.Json.{Value, get, elems}
use bounded_agent_harness.Json.Canonical.{Host}
use bounded_agent_harness.Queue.Validate.{string_of, strict_equal}
use bounded_agent_harness.Queue.Claim.{
  paths_of, build_reservation_ledger, are_disjoint, validate_task_claim, validate_task_result,
  check_outcome, all_allowed,
}
use bounded_agent_harness.Queue.Store.{
  Queue, read, read_json, write_exclusive, load_reservation_ledger, write_ledger_with_rollback,
  instant_of, released, check_completion, write_result, completion_action, complete_shared_task,
}
use bounded_agent_harness.Queue.Disjoint.{are_disjoint-select, load-are_disjoint}
use bounded_agent_harness.Queue.Parts.{roll_back-fails, locked_action, written}

all-select_self : {A : Type 0} (p : A → Bool) (xs : List A) → all p (select p xs) ≡ true
all-select_self p [] = refl
all-select_self p (x ∷ xs) = elim (Bool-cases (p x)) [
  | inl e ↦ rw e (rw e (all-select_self p xs))
  | inr e ↦ rw e (all-select_self p xs)
]

module _ (host : Host) (clock : ℕ) (writes : Bool) (result : Value) where
  abbrev id_of : String
  id_of = string_of (get result "taskId")

  abbrev finished_at : Option ℕ
  finished_at = instant_of host clock (get result "completedAt")

  -- What is known of the task and the claim of a result that is accepted.
  pub record IsDone (q : Queue) (task claim : Value) : Type 0 where
    pub found : read_json id_of q.ready ≡ ok task
    pub claimed : read_json id_of q.claims ≡ ok claim
    pub alive : validate_task_claim host claim task finished_at ≡ ok false
    pub same_agent : strict_equal (get result "agentId") (get claim "agentId") ≡ true
    pub in_scope : all_allowed (paths_of task) (elems (get result "changedPaths")) ≡ ok true

  outcome_in_scope :
      (task : Value)
      → check_outcome host result task ≡ ok tt
      → all_allowed (paths_of task) (elems (get result "changedPaths")) ≡ ok true
  unfolding check_outcome
  outcome_in_scope task h = ground arith

  result_parts :
      (task claim : Value)
      → validate_task_result host result task claim finished_at ≡ ok tt
      → (validate_task_claim host claim task finished_at ≡ ok false)
        × (strict_equal (get result "agentId") (get claim "agentId") ≡ true)
        × (check_outcome host result task ≡ ok tt)
  unfolding validate_task_result
  result_parts task claim h = (ground arith, ground arith, ground arith)

  -- The ledger without the reservations of one task.
  unlisted :
      (task ledger : Value)
      → all (λ r. not (strict_equal (get r "taskId") (get task "taskId"))) (released task ledger)
        ≡ true
  unfolding released
  unlisted task ledger =
      all-select_self (λ r. not (strict_equal (get r "taskId") (get task "taskId")))
        (elems (get ledger "reservations"))

  released-are_disjoint :
      (task ledger : Value)
      → are_disjoint (elems (get ledger "reservations")) ≡ true
      → are_disjoint (released task ledger) ≡ true
  unfolding released
  released-are_disjoint task ledger h = are_disjoint-select _ _ h

  completion_parts :
      (q : Queue) (rs : List Value)
      → check_completion host clock result q ≡ ok rs
      → (task claim : Value) × IsDone q task claim
        × (are_disjoint rs ≡ true)
        × (all (λ r. not (strict_equal (get r "taskId") (get task "taskId"))) rs ≡ true)
  unfolding check_completion
  completion_parts q rs h = elim (Result-cases (read_json id_of q.ready)) [
    | inl (task, p) ↦ elim (Result-cases (read_json id_of q.claims)) [
      | inl (claim, r) ↦ elim (Result-cases (load_reservation_ledger host q.ledger)) [
        | inl (ledger, l) ↦
            let checked : validate_task_result host result task claim finished_at ≡ ok tt =
              ground arith in
            let same : released task ledger ≡ rs = ground arith in
            let (alive, agent, outcome) = result_parts task claim checked in
            (
              task,
              claim,
              record {
                found = p;
                claimed = r;
                alive = alive;
                same_agent = agent;
                in_scope = outcome_in_scope task outcome;
              },
              subst (λ l. are_disjoint l ≡ true) same
                  (released-are_disjoint task ledger (load-are_disjoint host q.ledger ledger l)),
              subst
                  (λ l.
                    all (λ r'. not (strict_equal (get r' "taskId") (get task "taskId"))) l ≡ true)
                  same (unlisted task ledger),
            )
        | inr (code, l) ↦ ground arith
      ]
      | inr (code, r) ↦ ground arith
    ]
    | inr (code, p) ↦ ground arith
  ]

  written_result :
      (next : Value) (id : String) (previous : Option Value) (q q' : Queue) (path : String)
      → write_ledger_with_rollback next previous (write_result writes id result) q ≡ (ok path, q')
      → (read id q.results ≡ none)
        × (q' ≡ record q { results = q.results ++ (id, result) ∷ []; ledger = some next })
  unfolding write_ledger_with_rollback write_result
  written_result next id previous q q' path h =
      elim (Result-cases (write_exclusive writes id result q.results)) [
        | inl (files, e) ↦
            let (fresh, f) = written writes id q.results files result e in
            let k : _ ≡ (ok path, q') = rw e at h in
            (
              fresh,
              sym (ap (λ p. p.1) k)
                  ∙ ap {A = List (String × Value)} {B = Queue}
                      (λ l. record q { results = l; ledger = some next }) f,
            )
        | inr (code, e) ↦
            absurd
              (roll_back-fails previous code (record q { ledger = some next }) q' path (rw e at h))
      ]

  -- A completion that is accepted: the task had no result file, its claim is the agent's of the result and
  -- has not expired when the work was completed, and every changed path lies in the scope of the
  -- task. Just the result is added to the files; the ledger that replaces the previous one holds
  -- reservations that do not overlap, none of them of this task; and the lock is free again.
  pub complete_shared_task_sound :
      (q q' : Queue) (path : String)
      → complete_shared_task host clock writes result q ≡ (ok path, q')
      → (task claim : Value) × (rs : List Value) × IsDone q task claim
        × (read id_of q.results ≡ none)
        × (are_disjoint rs ≡ true)
        × (all (λ r. not (strict_equal (get r "taskId") (get task "taskId"))) rs ≡ true)
        × (q' ≡ record q {
          results = q.results ++ (id_of, result) ∷ [];
          ledger = some (build_reservation_ledger host rs);
          locked = false;
        })
  unfolding complete_shared_task completion_action
  complete_shared_task_sound q q' path h =
      let (q1, ran, unlocked) =
        locked_action (completion_action host clock writes result) q q' path h in
      elim (Result-cases (check_completion host clock result (record q { locked = true }))) [
        | inl (rs, e) ↦
            let (task, claim, done, apart, gone) =
              completion_parts (record q { locked = true }) rs e in
            let (fresh, end) =
              written_result _ id_of q.ledger (record q { locked = true }) q1 path (rw e at ran) in
            (
              task,
              claim,
              rs,
              record {
                found = done.found;
                claimed = done.claimed;
                alive = done.alive;
                same_agent = done.same_agent;
                in_scope = done.in_scope;
              },
              fresh,
              apart,
              gone,
              unlocked ∙ ap {A = Queue} {B = Queue} (λ p. record p { locked = false }) end,
            )
        | inr (code, e) ↦ absurd (err≢ok (ap (λ p. p.0) (rw e at ran)))
      ]
