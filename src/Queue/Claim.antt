-- ===== src/Queue/Claim.antt =====
-- The claims, the results and the ledger of reservations of src/shared-task-queue.mjs: how they are
-- built, and how they are checked.
use bounded_agent_harness.Prelude.{
  ℕ, ◌+◌, String, Bool, true, false, not, ◌&&◌, ◌||◌, Option, none, some, List, [], ◌∷◌, ltb, leb,
  map, select, if◌then◌else◌, str_eq, includes, all, any, ◌==◌, Result, ok, ◌>>=◌, ◌>>◌, assert,
  for_each,
}
use bounded_agent_harness.Json.{
  Value, num, nat, str, arr, Items, nil, cons, to_items, get, is_array, is_string, is_text,
  is_number, is_null, text_of, nat_of, elems, object_of, fields_of, strings_of,
}
use bounded_agent_harness.Json.Text.{codes, starts_with, is_commit, sort, sort_texts}
use bounded_agent_harness.Json.Canonical.{Host}
use bounded_agent_harness.Queue.Validate.{
  string_of, text_or_empty, strict_equal, check_iso, check_text, check_task_id, check_agent_id,
  check_digest, check_commit, normalized_path, check_path, is_sealed, seal, or_default,
  validate_shared_task,
}

-- `{ ...fields, name: value }`.
unfoldable pub set_field : String → Value → List (String × Value) → List (String × Value)
set_field name v [] = (name, v) ∷ []
set_field name v ((k, w) ∷ rest) =
    let set = set_field name v rest in if str_eq k name then (k, v) ∷ rest else (k, w) ∷ set

-- `path.replace(/\/$/, "")` followed by a slash.
unfoldable pub with_slash : List ℕ → List ℕ
with_slash [] = b'/' ∷ []
with_slash (c ∷ []) = if c == b'/' then b'/' ∷ [] else c ∷ b'/' ∷ []
with_slash (c ∷ d ∷ cs) = c ∷ with_slash (d ∷ cs)

unfoldable pub is_below : String → String → Bool
unfolding with_slash
is_below path dir = starts_with (with_slash (codes dir)) (codes path)

unfoldable pub scope_overlaps : String → String → Bool
scope_overlaps left right = str_eq left right || is_below left right || is_below right left

unfoldable pub reservation_overlaps : List String → List String → Bool
reservation_overlaps task_paths reserved =
    any (λ left. any (scope_overlaps left) reserved) task_paths

abbrev pub paths_of : Value → List String
paths_of reservation = strings_of (get reservation "allowedPaths")

abbrev to_strings : List String → Items
to_strings [] = nil
to_strings (s ∷ ss) = cons (str s) (to_strings ss)

unfoldable pub build_reservation_ledger : Host → List Value → Value
build_reservation_ledger host reservations = seal host "ledgerDigest" (
    ("format", str "agent-harness.shared-task-reservations.v1")
    ∷ ("version", num (nat 1))
    ∷ (
      "reservations",
      arr (
          to_items (
            sort (λ a b. host.locale_le (text_of (get a "taskId")) (text_of (get b "taskId")))
              (map
                (λ r. object_of (
                  set_field "allowedPaths" (arr (to_strings (sort_texts (paths_of r))))
                    (fields_of r)))
                reservations))),
    )
    ∷ [])

-- `Date.parse(a) > Date.parse(b)`; false when one of them is NaN.
unfoldable pub is_later : Option ℕ → Option ℕ → Bool
is_later (some a) (some b) = ltb b a
is_later _ _ = false

abbrev pub date_of : Host → Value → Option ℕ
date_of host v = host.parse_date (string_of v)

unfoldable pub check_reservation : Host → Value → Result (Unit {0})
check_reservation host r = do
  check_task_id (get r "taskId")
  check_digest (get r "taskDigest")
  check_agent_id (get r "agentId")
  assert (is_array (get r "allowedPaths") && not (is_empty (elems (get r "allowedPaths"))))
      "INVALID_RESERVATION_LEDGER"
  for_each check_path (elems (get r "allowedPaths"))
  check_iso host (get r "claimedAt")
  check_iso host (get r "expiresAt")
  assert (is_later (date_of host (get r "expiresAt")) (date_of host (get r "claimedAt")))
      "INVALID_RESERVATION_LEDGER"
  where
    is_empty : List Value → Bool
    is_empty [] = true
    is_empty (v ∷ vs) = false

-- The two nested loops: no two reservations overlap.
unfoldable pub are_disjoint : List Value → Bool
are_disjoint [] = true
are_disjoint (r ∷ rs) =
    all (λ q. not (reservation_overlaps (paths_of r) (paths_of q))) rs && are_disjoint rs

unfoldable pub validate_reservation_ledger : Host → Value → Result (Unit {0})
validate_reservation_ledger host ledger = do
  assert
      (is_text (get ledger "format") "agent-harness.shared-task-reservations.v1"
        && is_number (get ledger "version") 1)
      "INVALID_RESERVATION_LEDGER"
  assert (is_array (get ledger "reservations")) "INVALID_RESERVATION_LEDGER"
  for_each (check_reservation host) (elems (get ledger "reservations"))
  assert (are_disjoint (elems (get ledger "reservations"))) "RESERVATION_OVERLAP"
  check_digest (get ledger "ledgerDigest")
  assert (is_sealed host "ledgerDigest" ledger) "RESERVATION_LEDGER_TAMPERED"

unfoldable pub active_reservations : Host → Value → Option ℕ → List Value
active_reservations host ledger current =
    select (λ r. is_later (date_of host (get r "expiresAt")) current)
      (elems (get ledger "reservations"))

unfoldable pub is_assigned : Value → Value → Bool
is_assigned task worker =
    is_text (get task "assignedTo") "*" || strict_equal (get task "assignedTo") worker

unfoldable pub is_lease : Value → Bool
is_lease (num (nat n)) = ltb 0 n && leb n 86400000
is_lease _ = false

abbrev instant_or_zero : Option ℕ → ℕ
instant_or_zero none = 0
instant_or_zero (some t) = t

-- `buildTaskClaim({ task, agentId, claimedAt, leaseMs })`; `now` is `new Date().toISOString()`.
unfoldable pub build_task_claim :
    Host → (now : String) → (task worker claimed_at lease : Value) → Result Value
build_task_claim host now task worker claimed_at lease = do
  let at = or_default claimed_at (str now)
  let ms = or_default lease (num (nat 1800000))
  validate_shared_task host task
  check_agent_id worker
  assert (is_assigned task worker) "TASK_ASSIGNMENT_MISMATCH"
  check_iso host at
  assert (is_lease ms) "INVALID_TASK"
  ok (
      seal host "claimDigest" (
        ("format", str "agent-harness.shared-task-claim.v1")
        ∷ ("version", num (nat 1))
        ∷ ("taskId", get task "taskId")
        ∷ ("taskDigest", get task "taskDigest")
        ∷ ("agentId", worker)
        ∷ ("claimedAt", at)
        ∷ (
          "expiresAt",
          str (host.iso_text (instant_or_zero (host.parse_date (text_of at)) + nat_of ms)),
        )
        ∷ []))

-- `validateTaskClaim(claim, { task, now })`, with a task; the answer is `expired`.
unfoldable pub validate_task_claim : Host → (claim task : Value) → Option ℕ → Result Bool
validate_task_claim host claim task now = do
  assert
      (is_text (get claim "format") "agent-harness.shared-task-claim.v1"
        && is_number (get claim "version") 1)
      "INVALID_TASK_CLAIM"
  check_task_id (get claim "taskId")
  check_digest (get claim "taskDigest")
  check_agent_id (get claim "agentId")
  check_iso host (get claim "claimedAt")
  check_iso host (get claim "expiresAt")
  assert (is_later (date_of host (get claim "expiresAt")) (date_of host (get claim "claimedAt")))
      "INVALID_TASK_CLAIM"
  check_digest (get claim "claimDigest")
  assert (is_sealed host "claimDigest" claim) "TASK_CLAIM_TAMPERED"
  validate_shared_task host task
  assert
      (strict_equal (get claim "taskId") (get task "taskId")
        && strict_equal (get claim "taskDigest") (get task "taskDigest"))
      "TASK_CLAIM_MISMATCH"
  assert (is_some now) "INVALID_TASK_CLAIM"
  ok (not (is_later (date_of host (get claim "expiresAt")) now))
  where
    is_some : Option ℕ → Bool
    is_some none = false
    is_some (some t) = true

-- `pathAllowed(path, allowedPaths)`; a path that is no relative one is an error.
unfoldable pub path_allowed : List String → Value → Result Bool
path_allowed allowed path = do
  normalized ← normalized_path path
  ok (any (λ dir. str_eq normalized dir || is_below normalized dir) allowed)

-- `changedPaths.every((path) => pathAllowed(path, allowedPaths))`.
unfoldable pub all_allowed : List String → List Value → Result Bool
all_allowed allowed [] = ok true
all_allowed allowed (path ∷ paths) = do
  let rest = all_allowed allowed paths
  first ← path_allowed allowed path
  if first then rest else ok false

-- The state after `status === "BLOCKED" ? … : …`.
unfoldable pub commit_fits : Value → Bool
commit_fits result =
    if is_text (get result "status") "BLOCKED"
    then is_null (get result "resultCommit")
    else is_commit (text_or_empty (get result "resultCommit"))

unfoldable pub is_one_of : List String → Value → Bool
is_one_of names v = is_string v && includes (text_of v) names

-- The checks of the result by itself, from its status on.
unfoldable pub check_outcome : Host → (result task : Value) → Result (Unit {0})
check_outcome host result task = do
  assert (is_one_of ("COMPLETED" ∷ "BLOCKED" ∷ []) (get result "status")) "INVALID_TASK_RESULT"
  check_iso host (get result "startedAt")
  check_iso host (get result "completedAt")
  assert
      (not (
        is_later (date_of host (get result "startedAt")) (date_of host (get result "completedAt"))))
      "INVALID_TASK_RESULT"
  check_commit false (get result "sourceCommit")
  check_commit true (get result "resultCommit")
  assert (commit_fits result) "INVALID_TASK_RESULT"
  assert (is_array (get result "changedPaths")) "TASK_SCOPE_VIOLATION"
  inside ← all_allowed (paths_of task) (elems (get result "changedPaths"))
  assert inside "TASK_SCOPE_VIOLATION"
  assert (is_array (get result "tests")) "INVALID_TASK_RESULT"
  assert
      (is_one_of ("NOT_EXECUTED" ∷ "DRAFT_ONLY" ∷ "LIVE_VERIFIED" ∷ [])
        (get result "externalState"))
      "INVALID_TASK_RESULT"
  check_text (get result "nextAction")
  check_text (get result "rollback")
  assert (is_string (get result "notes")) "INVALID_TASK_RESULT"
  check_digest (get result "resultDigest")
  assert (is_sealed host "resultDigest" result) "TASK_RESULT_TAMPERED"

unfoldable pub validate_task_result :
    Host → (result task claim : Value) → Option ℕ → Result (Unit {0})
validate_task_result host result task claim now = do
  assert
      (is_text (get result "format") "agent-harness.shared-task-result.v1"
        && is_number (get result "version") 1)
      "INVALID_TASK_RESULT"
  validate_shared_task host task
  expired ← validate_task_claim host claim task now
  assert (not expired) "TASK_LEASE_EXPIRED"
  assert
      (strict_equal (get result "taskId") (get task "taskId")
        && strict_equal (get result "taskDigest") (get task "taskDigest"))
      "TASK_RESULT_MISMATCH"
  assert (strict_equal (get result "agentId") (get claim "agentId")) "TASK_RESULT_AGENT_MISMATCH"
  check_outcome host result task
