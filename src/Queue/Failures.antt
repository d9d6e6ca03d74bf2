-- ===== src/Queue/Failures.antt =====
-- Claims and completions of src/shared-task-queue.mjs that are refused, and what they leave behind.
use bounded_agent_harness.Prelude.{
  err≢ok, String, ◌≡◌, ◌≢◌, refl, sym, ap, ◌∙◌, inl, inr, ◌⊎◌, Bool, true, false, Option, none,
  some, List, [], ◌∷◌, ◌++◌, str_eq, ok, err, arith, Bool-cases, Option-cases, Result-cases,
  eq_refl,
}
use bounded_agent_harness.Json.{Value, is_null}
use bounded_agent_harness.Json.Canonical.{Host}
use bounded_agent_harness.Queue.Validate.{string_of}
use bounded_agent_harness.Queue.Claim.{build_reservation_ledger}
use bounded_agent_harness.Queue.Store.{
  Queue, read, write_exclusive, with_queue_lock, roll_back, write_ledger_with_rollback, Grant,
  check_claim, next_reservations, write_claim, claim_action, claim_shared_task,
}
use bounded_agent_harness.Queue.Laws.{claim_shared_task_sound}

some≢none : {A : Type 0} (a : A) → some a ≢ none
some≢none a h = ground arith

unlocked : (q : Queue) → q.locked ≡ false → record q { locked = false } ≡ q
unlocked q f = ap {A = Bool} {B = Queue} (λ b. record q { locked = b }) (sym f)

no_ledger : (q : Queue) → q.ledger ≡ none → record q { ledger = none } ≡ q
no_ledger q h = ap {A = Option Value} {B = Queue} (λ l. record q { ledger = l }) (sym h)

read-snoc :
    (id : String) (v : Value) (files : List (String × Value))
    → read id files ≡ none
    → read id (files ++ (id, v) ∷ []) ≡ some v
unfolding read
read-snoc id v [] h = rw (eq_refl id) refl
read-snoc id v ((k, w) ∷ files) h = elim (Bool-cases (str_eq k id)) [
  | inl e ↦ absurd (some≢none w (rw e at h))
  | inr e ↦ rw e (read-snoc id v files (rw e at h))
]

action_refused :
    (host : Host) (now : String) (writes : Bool) (id worker claimed_at lease : Value) (q q' : Queue)
    (code : String)
    → (q.ledger ≡ none)
      ⊎ ((c : String) × (check_claim host now id worker claimed_at lease q ≡ err c))
    → claim_action host now writes id worker claimed_at lease q ≡ (err code, q')
    → q' ≡ q
unfolding claim_action write_ledger_with_rollback roll_back write_claim
action_refused host now writes id worker claimed_at lease q q' code (inr (c, e)) h =
    sym (ap (λ p. p.1) (rw e at h))
action_refused host now writes id worker claimed_at lease q q' code (inl fresh) h =
    elim (Result-cases (check_claim host now id worker claimed_at lease q)) [
      | inl (g, e) ↦ elim (Result-cases (write_exclusive writes (string_of id) g.claim q.claims)) [
        | inl (files, w) ↦ absurd (err≢ok (sym (ap (λ p. p.0) (rw (e, w) at h))))
        | inr (c, w) ↦ sym (ap (λ p. p.1) (rw (e, w, fresh) at h)) ∙ no_ledger q fresh
      ]
      | inr (c, e) ↦ sym (ap (λ p. p.1) (rw e at h))
    ]

-- A claim that is refused leaves every file of the queue and the lock as they were, if a check refuses
-- it, or if there was no ledger file and the file of the claim cannot be written.
pub claim_shared_task-refused :
    (host : Host) (now : String) (writes : Bool) (id worker claimed_at lease : Value) (q q' : Queue)
    (code : String)
    → (q.ledger ≡ none)
      ⊎ ((c : String) × (check_claim host now id worker claimed_at lease
              (record q { locked = true })
            ≡ err c))
    → q.locked ≡ false
    → claim_shared_task host now writes id worker claimed_at lease q ≡ (err code, q')
    → q' ≡ q
unfolding claim_shared_task with_queue_lock
claim_shared_task-refused host now writes id worker claimed_at lease q q' code safe free h =
    let result =
      claim_action host now writes id worker claimed_at lease (record q { locked = true }) in
    let k : (result.0, record (result.1) { locked = false }) ≡ (err code, q') = rw free at h in
    let back =
      action_refused host now writes id worker claimed_at lease (record q { locked = true })
        (result.1) code safe (ap (λ r. (r, result.1)) (ap (λ p. p.0) k)) in
    sym (ap (λ p. p.1) k)
    ∙ ap {A = Queue} {B = Queue} (λ p. record p { locked = false }) back
    ∙ unlocked q free

unwritten :
    (id : String) (v : Value) (files : List (String × Value))
    → (c : String) × (write_exclusive false id v files ≡ err c)
unfolding write_exclusive
unwritten id v files = elim (Option-cases (read id files)) [
  | inl e ↦ ("EIO", rw (write_exclusive, e) refl)
  | inr (w, e) ↦ ("EEXIST", rw (write_exclusive, e) refl)
]

-- A claim whose checks pass but whose file cannot be written, when the queue had a ledger file: the
-- roll back fails, and the ledger keeps the reservation of a claim that has no file.
pub claim_shared_task-write_fails :
    (host : Host) (now : String) (id worker claimed_at lease : Value) (q : Queue) (raw : Value)
    (g : Grant)
    → q.ledger ≡ some raw
    → is_null raw ≡ false
    → q.locked ≡ false
    → check_claim host now id worker claimed_at lease (record q { locked = true }) ≡ ok g
    → claim_shared_task host now false id worker claimed_at lease q ≡ (
      err "ERR_INVALID_ARG_TYPE",
      record q {
        ledger = some (build_reservation_ledger host (next_reservations g));
        locked = false;
      },
    )
unfolding claim_shared_task claim_action with_queue_lock write_ledger_with_rollback roll_back
    write_claim
claim_shared_task-write_fails host now id worker claimed_at lease q raw g h null free e =
    let (c, w) = unwritten (string_of id) g.claim q.claims in rw (free, e, w, h, null) refl

-- A task is claimed once: behind a claim that was granted, no claim of the same task is granted, for
-- any worker, time, lease or state of the disk.
pub claim_shared_task-once :
    (host : Host) (now now' : String) (writes writes' : Bool)
    (id worker worker' at at' lease lease' : Value) (q q' q'' : Queue) (claim claim' : Value)
    → claim_shared_task host now writes id worker at lease q ≡ (ok claim, q')
    → claim_shared_task host now' writes' id worker' at' lease' q' ≢ (ok claim', q'')
claim_shared_task-once host now now' writes writes' id worker worker' at at' lease lease' q q' q''
      claim claim' h k =
    let (g, same, found, valid, assigned, fresh, live, apart, end) =
      claim_shared_task_sound host now writes id worker at lease q q' claim h in
    let (g', same', found', valid', assigned', fresh', live', apart', end') =
      claim_shared_task_sound host now' writes' id worker' at' lease' q' q'' claim' k in
    let stored = read-snoc (string_of id) claim q.claims fresh in
    some≢none claim (sym stored ∙ ap (λ p. read (string_of id) p.claims) (sym end) ∙ fresh')
