-- ===== src/Queue/Store.antt =====
-- The operations of src/shared-task-queue.mjs on the files of a queue. A file that is written with the
-- flag `wx` must be new; `writes` says whether the platform can write it.
use bounded_agent_harness.Prelude.{
  ℕ, String, Bool, true, false, not, Option, none, some, List, [], ◌∷◌, ◌++◌, select, any,
  if◌then◌else◌, str_eq, Result, ok, err, ◌>>=◌, ◌>>◌, assert,
}
use bounded_agent_harness.Json.{Value, get, is_truthy, is_null, is_undefined, elems, object_of}
use bounded_agent_harness.Json.Canonical.{Host}
use bounded_agent_harness.Queue.Validate.{
  string_of, strict_equal, check_task_id, validate_shared_task,
}
use bounded_agent_harness.Queue.Claim.{
  reservation_overlaps, paths_of, build_reservation_ledger, date_of, validate_reservation_ledger,
  active_reservations, build_task_claim, validate_task_result,
}

-- The directories ready, claims and results by the id of the task, the ledger, and the lock directory.
pub record Queue : Type 0 where
  pub ready : List (String × Value)
  pub claims : List (String × Value)
  pub results : List (String × Value)
  pub ledger : Option Value
  pub locked : Bool

unfoldable pub read : String → List (String × Value) → Option Value
read id [] = none
read id ((k, v) ∷ files) = if str_eq k id then some v else read id files

-- `readJson(path)` and `readOptionalJson(path)`, of which the second gives null for no file.
unfoldable pub read_json : String → List (String × Value) → Result Value
read_json id files = elim (read id files) [ none ↦ err "TASK_NOT_FOUND" | some v ↦ ok v ]

abbrev pub is_absent : Option Value → Bool
is_absent none = true
is_absent (some v) = is_null v

-- `writeExclusive(path, value)`.
unfoldable pub write_exclusive :
    Bool → String → Value → List (String × Value) → Result (List (String × Value))
write_exclusive writes id v files = elim (read id files) [
  | none ↦ if writes then ok (files ++ (id, v) ∷ []) else err "EIO"
  | some w ↦ err "EEXIST"
]

-- `withQueueLock(queueRoot, action)`. The lock is taken before the action and removed behind it.
unfoldable pub with_queue_lock {ℓ} :
    {A : Type ℓ} → (Queue → Result A × Queue) → Queue → Result A × Queue
with_queue_lock action q =
    if q.locked
    then (err "QUEUE_LOCKED", q)
    else (let (r, q') = action (record q { locked = true }) in (r, record q' { locked = false }))

-- The ledger that `loadReservationLedger` returns, read and checked, or an empty one.
unfoldable pub load_reservation_ledger : Host → Option Value → Result Value
load_reservation_ledger host none = ok (build_reservation_ledger host [])
load_reservation_ledger host (some raw) =
    if is_truthy raw
    then validate_reservation_ledger host raw >> ok raw
    else ok (build_reservation_ledger host [])

-- The `catch` of `writeLedgerWithRollback`. Without a previous ledger the new one is removed. A previous
-- one is passed to `writeFile` as the parsed object, which `writeFile` refuses. Left out are a removal that
-- fails, whose error the source drops, and a ledger file that holds the empty JSON text: no other text
-- passes the checks, and the queue never writes it.
unfoldable pub roll_back {ℓ} :
    {A : Type ℓ} → (previous : Option Value) → String → Queue → Result A × Queue
roll_back previous code q =
    if is_absent previous
    then (err code, record q { ledger = none })
    else (err "ERR_INVALID_ARG_TYPE", q)

abbrev after_write {ℓ} : {A : Type ℓ} → Option Value → Queue → Result (Queue × A) → Result A × Queue
after_write previous q (err code) = roll_back previous code q
after_write previous q (ok (q', a)) = (ok a, q')

unfoldable pub write_ledger_with_rollback {ℓ} :
    {A : Type ℓ}
    → Value
    → (previous : Option Value) → (Queue → Result (Queue × A))
    → Queue
    → Result A × Queue
unfolding roll_back
write_ledger_with_rollback next previous action q =
    let q' = record q { ledger = some next } in after_write previous q' (action q')

abbrev pub run_checked {ℓ κ} :
    {A : Type ℓ} {B : Type κ} → Result A → (A → Queue → Result B × Queue) → Queue → Result B × Queue
run_checked (err code) k q = (err code, q)
run_checked (ok a) k q = k a q

unfoldable pub enqueue_shared_task : Host → Bool → Value → Queue → Result String × Queue
unfolding write_exclusive
enqueue_shared_task host writes task q =
    let id = string_of (get task "taskId") in
    run_checked (do validate_shared_task host task; write_exclusive writes id task q.ready)
      (λ files q. (ok id, record q { ready = files })) q

unfoldable pub reservation_of : (task claim : Value) → Value
reservation_of task claim = object_of (
    ("taskId", get task "taskId")
    ∷ ("taskDigest", get task "taskDigest")
    ∷ ("agentId", get claim "agentId")
    ∷ ("allowedPaths", get task "allowedPaths")
    ∷ ("claimedAt", get claim "claimedAt")
    ∷ ("expiresAt", get claim "expiresAt")
    ∷ [])

-- What a claim is granted on.
pub record Grant : Type 0 where
  pub task : Value
  pub claim : Value
  pub active : List Value

-- The body of `claimSharedTask` up to its first write.
unfoldable pub check_claim :
    Host → (now : String) → (id worker claimed_at lease : Value) → Queue → Result Grant
check_claim host now id worker claimed_at lease q = do
  check_task_id id
  task ← read_json (string_of id) q.ready
  validate_shared_task host task
  claim ← build_task_claim host now task worker claimed_at lease
  assert (is_absent (read (string_of id) q.claims)) "TASK_ALREADY_CLAIMED"
  ledger ← load_reservation_ledger host q.ledger
  let active = active_reservations host ledger (date_of host (get claim "claimedAt"))
  assert (not (any (λ r. strict_equal (get r "taskId") (get task "taskId")) active))
      "TASK_ALREADY_CLAIMED"
  assert (not (any (λ r. reservation_overlaps (paths_of task) (paths_of r)) active))
      "TASK_SCOPE_RESERVED"
  ok (record { task = task; claim = claim; active = active })

unfoldable pub next_reservations : Grant → List Value
unfolding reservation_of
next_reservations g = g.active ++ reservation_of g.task g.claim ∷ []

unfoldable pub write_claim : Bool → String → Value → Queue → Result (Queue × Value)
write_claim writes id claim q =
    write_exclusive writes id claim q.claims >>= λ files. ok (record q { claims = files }, claim)

-- What `claimSharedTask` does under the lock.
unfoldable pub claim_action :
    Host
    → (now : String) → Bool
    → (id worker claimed_at lease : Value) → Queue
    → Result Value × Queue
unfolding check_claim write_ledger_with_rollback write_claim
claim_action host now writes id worker claimed_at lease q =
    run_checked (check_claim host now id worker claimed_at lease q)
      (λ g.
        write_ledger_with_rollback (build_reservation_ledger host (next_reservations g)) q.ledger
          (write_claim writes (string_of id) g.claim))
      q

unfoldable pub claim_shared_task :
    Host
    → (now : String) → Bool
    → (id worker claimed_at lease : Value) → Queue
    → Result Value × Queue
unfolding claim_action with_queue_lock
claim_shared_task host now writes id worker claimed_at lease =
    with_queue_lock (claim_action host now writes id worker claimed_at lease)

abbrev pub instant_of : Host → (clock : ℕ) → Value → Option ℕ
instant_of host clock v = if is_undefined v then some clock else date_of host v

-- The reservations that are left when a task is done.
unfoldable pub released : Value → Value → List Value
released task ledger =
    select (λ r. not (strict_equal (get r "taskId") (get task "taskId")))
      (elems (get ledger "reservations"))

-- The body of `completeSharedTask` up to its first write, with the reservations that stay.
unfoldable pub check_completion : Host → (clock : ℕ) → Value → Queue → Result (List Value)
check_completion host clock result q = do
  check_task_id (get result "taskId")
  let id = string_of (get result "taskId")
  task ← read_json id q.ready
  validate_shared_task host task
  claim ← read_json id q.claims
  validate_task_result host result task claim (instant_of host clock (get result "completedAt"))
  assert (is_absent (read id q.results)) "TASK_ALREADY_COMPLETED"
  ledger ← load_reservation_ledger host q.ledger
  ok (released task ledger)

unfoldable pub write_result : Bool → String → Value → Queue → Result (Queue × String)
write_result writes id result q =
    write_exclusive writes id result q.results >>= λ files. ok (record q { results = files }, id)

-- What `completeSharedTask` does under the lock.
unfoldable pub completion_action : Host → (clock : ℕ) → Bool → Value → Queue → Result String × Queue
unfolding check_completion write_ledger_with_rollback write_result
completion_action host clock writes result q =
    run_checked (check_completion host clock result q)
      (λ rs.
        write_ledger_with_rollback (build_reservation_ledger host rs) q.ledger
          (write_result writes (string_of (get result "taskId")) result))
      q

unfoldable pub complete_shared_task :
    Host → (clock : ℕ) → Bool → Value → Queue → Result String × Queue
unfolding completion_action with_queue_lock
complete_shared_task host clock writes result =
    with_queue_lock (completion_action host clock writes result)
