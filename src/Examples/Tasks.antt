-- ===== src/Examples/Tasks.antt =====
-- The theorems on the task queue, at a queue with one ready task.
use bounded_agent_harness.Json
use bounded_agent_harness.Prelude
use bounded_agent_harness.Queue
use bounded_agent_harness.Prelude.{
  ℕ, String, ◌≡◌, inr, ◌≢◌, refl, Bool, true, false, Option, none, some, List, [], ◌∷◌, Result, ok,
  err, all,
}
use bounded_agent_harness.Json.{Value, undefined, null, str, get, elems}
use bounded_agent_harness.Queue.Validate.{validate_shared_task}
use bounded_agent_harness.Queue.Claim.{all_allowed, build_reservation_ledger, paths_of}
use bounded_agent_harness.Queue.Store.{
  Queue, Grant, read, check_claim, claim_shared_task, complete_shared_task, next_reservations,
}
use bounded_agent_harness.Queue.Laws.{claim_shared_task_sound}
use bounded_agent_harness.Queue.Failures.{
  claim_shared_task-refused, claim_shared_task-write_fails, claim_shared_task-once,
}
use bounded_agent_harness.Queue.Completion.{complete_shared_task_sound}
use bounded_agent_harness.Examples.Data.{object, texts, number, value_of, morning, host}

abbrev digest : Value
digest = str "sha256:0123456789abcdef0123456789abcdef0123456789abcdef0123456789abcdef"

abbrev commit : Value
commit = str "0123456789abcdef0123456789abcdef01234567"

abbrev task : Value
task = object (
    ("format", str "agent-harness.shared-task.v1")
    ∷ ("version", number 1)
    ∷ ("taskId", str "task-1")
    ∷ ("createdAt", str morning)
    ∷ ("createdBy", str "owner")
    ∷ ("assignedTo", str "agent-1")
    ∷ (
      "repository",
      object (
          ("name", str "demo")
          ∷ ("url", str "url")
          ∷ ("ref", str "main")
          ∷ ("baseCommit", commit)
          ∷ []),
    )
    ∷ ("objective", str "a report")
    ∷ ("allowedPaths", texts ("docs/" ∷ "src/a.mjs" ∷ []))
    ∷ ("forbiddenActions", texts ("deploy" ∷ []))
    ∷ ("acceptance", texts ("tests pass" ∷ []))
    ∷ ("expectedOutputs", texts ("a file" ∷ []))
    ∷ ("externalEffect", str "NONE")
    ∷ ("taskDigest", digest)
    ∷ [])

abbrev queue : Queue
queue = record {
  ready = ("task-1", task) ∷ [];
  claims = [];
  results = [];
  ledger = none;
  locked = false;
}

abbrev id : Value
id = str "task-1"

abbrev worker : Value
worker = str "agent-1"

abbrev granted : Result Value × Queue
granted = claim_shared_task host morning true id worker undefined undefined queue

abbrev claim : Value
claim = value_of undefined granted.0

claim_shared_task_sound_example : read "task-1" queue.claims ≡ none
unfolding get Json.is_array Json.is_number Json.is_object Json.is_string Json.is_text Json.is_truthy
    Json.is_undefined Json.omit Json.strings_of Json.to_items Json.Canonical.digest_of
    Json.Text.is_agent_id Json.Text.is_commit Json.Text.is_digest Json.Text.is_not_blank
    Json.Text.is_task_id Json.Text.sort_texts Json.Text.starts_with Prelude.for_each
    Queue.Claim.active_reservations build_reservation_ledger Queue.Claim.build_task_claim
    Queue.Claim.is_assigned Queue.Claim.is_lease claim_shared_task
    Queue.Store.load_reservation_ledger read Queue.Store.read_json Queue.Store.write_exclusive
    Queue.Validate.assert_repository Queue.Validate.check_agent_id Queue.Validate.check_commit
    Queue.Validate.check_digest Queue.Validate.check_iso Queue.Validate.check_list
    Queue.Validate.check_path Queue.Validate.check_task_id Queue.Validate.check_text
    Queue.Validate.has_drive Queue.Validate.is_effect Queue.Validate.is_filled
    Queue.Validate.is_relative Queue.Validate.is_sealed Queue.Validate.normalized_path
    Queue.Validate.occurs Queue.Validate.or_default Queue.Validate.seal Queue.Validate.strict_equal
    Queue.Validate.text_or_empty validate_shared_task Queue.Validate.with_slashes
claim_shared_task_sound_example =
    (claim_shared_task_sound host morning true id worker undefined undefined queue granted.1 claim
      refl).5

claim_shared_task-once_example :
    claim_shared_task host morning true id worker undefined undefined granted.1
    ≢ (ok claim, granted.1)
unfolding get Json.is_array Json.is_number Json.is_object Json.is_string Json.is_text Json.is_truthy
    Json.is_undefined Json.omit Json.strings_of Json.to_items Json.Canonical.digest_of
    Json.Text.is_agent_id Json.Text.is_commit Json.Text.is_digest Json.Text.is_not_blank
    Json.Text.is_task_id Json.Text.sort_texts Json.Text.starts_with Prelude.for_each
    Queue.Claim.active_reservations build_reservation_ledger Queue.Claim.build_task_claim
    Queue.Claim.is_assigned Queue.Claim.is_lease claim_shared_task
    Queue.Store.load_reservation_ledger read Queue.Store.read_json Queue.Store.write_exclusive
    Queue.Validate.assert_repository Queue.Validate.check_agent_id Queue.Validate.check_commit
    Queue.Validate.check_digest Queue.Validate.check_iso Queue.Validate.check_list
    Queue.Validate.check_path Queue.Validate.check_task_id Queue.Validate.check_text
    Queue.Validate.has_drive Queue.Validate.is_effect Queue.Validate.is_filled
    Queue.Validate.is_relative Queue.Validate.is_sealed Queue.Validate.normalized_path
    Queue.Validate.occurs Queue.Validate.or_default Queue.Validate.seal Queue.Validate.strict_equal
    Queue.Validate.text_or_empty validate_shared_task Queue.Validate.with_slashes
claim_shared_task-once_example =
    claim_shared_task-once host morning morning true true id worker worker undefined undefined
      undefined undefined queue granted.1 granted.1 claim claim refl

abbrev used : Queue
used = record queue { ledger = some (build_reservation_ledger host []) }

claim_shared_task-refused_example :
    (claim_shared_task host morning true id (str "agent-2") undefined undefined used).1 ≡ used
unfolding get Json.is_array Json.is_number Json.is_object Json.is_string Json.is_text Json.is_truthy
    Json.strings_of Json.Canonical.digest_of Json.Text.is_agent_id Json.Text.is_commit
    Json.Text.is_digest Json.Text.is_not_blank Json.Text.is_task_id Json.Text.starts_with
    Prelude.for_each Queue.Claim.build_task_claim Queue.Claim.is_assigned claim_shared_task read
    Queue.Store.read_json Queue.Validate.assert_repository Queue.Validate.check_agent_id
    Queue.Validate.check_commit Queue.Validate.check_digest Queue.Validate.check_iso
    Queue.Validate.check_list Queue.Validate.check_path Queue.Validate.check_task_id
    Queue.Validate.check_text Queue.Validate.has_drive Queue.Validate.is_effect
    Queue.Validate.is_filled Queue.Validate.is_relative Queue.Validate.is_sealed
    Queue.Validate.normalized_path Queue.Validate.occurs Queue.Validate.strict_equal
    Queue.Validate.text_or_empty validate_shared_task Queue.Validate.with_slashes
claim_shared_task-refused_example =
    claim_shared_task-refused host morning true id (str "agent-2") undefined undefined used
      (claim_shared_task host morning true id (str "agent-2") undefined undefined used).1
      "TASK_ASSIGNMENT_MISMATCH" (inr ("TASK_ASSIGNMENT_MISMATCH", refl)) refl refl

abbrev grant : Grant
grant =
    value_of (record { task = task; claim = claim; active = [] })
      (check_claim host morning id worker undefined undefined (record used { locked = true }))

claim_shared_task-write_fails_example :
    claim_shared_task host morning false id worker undefined undefined used ≡ (
      err "ERR_INVALID_ARG_TYPE",
      record used {
        ledger = some (build_reservation_ledger host (next_reservations grant));
        locked = false;
      },
    )
unfolding get Json.is_array Json.is_null Json.is_number Json.is_object Json.is_string Json.is_text
    Json.is_truthy Json.is_undefined Json.omit Json.strings_of Json.to_items
    Json.Canonical.digest_of Json.Text.is_agent_id Json.Text.is_commit Json.Text.is_digest
    Json.Text.is_not_blank Json.Text.is_task_id Json.Text.sort_texts Json.Text.starts_with
    Prelude.for_each Queue.Claim.active_reservations Queue.Claim.are_disjoint
    build_reservation_ledger Queue.Claim.build_task_claim Queue.Claim.is_assigned
    Queue.Claim.is_lease Queue.Claim.validate_reservation_ledger claim_shared_task
    Queue.Store.load_reservation_ledger read Queue.Store.read_json Queue.Validate.assert_repository
    Queue.Validate.check_agent_id Queue.Validate.check_commit Queue.Validate.check_digest
    Queue.Validate.check_iso Queue.Validate.check_list Queue.Validate.check_path
    Queue.Validate.check_task_id Queue.Validate.check_text Queue.Validate.has_drive
    Queue.Validate.is_effect Queue.Validate.is_filled Queue.Validate.is_relative
    Queue.Validate.is_sealed Queue.Validate.normalized_path Queue.Validate.occurs
    Queue.Validate.or_default Queue.Validate.seal Queue.Validate.strict_equal
    Queue.Validate.text_or_empty validate_shared_task Queue.Validate.with_slashes
claim_shared_task-write_fails_example =
    claim_shared_task-write_fails host morning id worker undefined undefined used
      (build_reservation_ledger host []) grant refl refl refl refl

abbrev result : Value
result = object (
    ("format", str "agent-harness.shared-task-result.v1")
    ∷ ("version", number 1)
    ∷ ("taskId", id)
    ∷ ("taskDigest", digest)
    ∷ ("agentId", worker)
    ∷ ("status", str "COMPLETED")
    ∷ ("startedAt", str morning)
    ∷ ("completedAt", str morning)
    ∷ ("sourceCommit", commit)
    ∷ ("resultCommit", commit)
    ∷ ("changedPaths", texts ("docs/report.md" ∷ "src\\a.mjs" ∷ []))
    ∷ ("tests", texts [])
    ∷ ("externalState", str "NOT_EXECUTED")
    ∷ ("nextAction", str "review")
    ∷ ("rollback", str "revert")
    ∷ ("notes", str "")
    ∷ ("resultDigest", digest)
    ∷ [])

complete_shared_task_sound_example : read "task-1" (granted.1).results ≡ none
unfolding get Json.is_array Json.is_null Json.is_number Json.is_object Json.is_string Json.is_text
    Json.is_truthy Json.is_undefined Json.omit Json.strings_of Json.to_items
    Json.Canonical.digest_of Json.Text.is_agent_id Json.Text.is_commit Json.Text.is_digest
    Json.Text.is_not_blank Json.Text.is_task_id Json.Text.sort_texts Json.Text.starts_with
    Prelude.for_each Queue.Claim.active_reservations all_allowed Queue.Claim.are_disjoint
    build_reservation_ledger Queue.Claim.build_task_claim Queue.Claim.check_outcome
    Queue.Claim.check_reservation Queue.Claim.commit_fits Queue.Claim.is_assigned
    Queue.Claim.is_below Queue.Claim.is_later Queue.Claim.is_lease Queue.Claim.is_one_of
    Queue.Claim.path_allowed Queue.Claim.set_field Queue.Claim.validate_reservation_ledger
    Queue.Claim.validate_task_claim Queue.Claim.validate_task_result claim_shared_task
    complete_shared_task Queue.Store.load_reservation_ledger next_reservations read
    Queue.Store.read_json Queue.Store.write_exclusive Queue.Validate.assert_repository
    Queue.Validate.check_agent_id Queue.Validate.check_commit Queue.Validate.check_digest
    Queue.Validate.check_iso Queue.Validate.check_list Queue.Validate.check_path
    Queue.Validate.check_task_id Queue.Validate.check_text Queue.Validate.has_drive
    Queue.Validate.is_effect Queue.Validate.is_filled Queue.Validate.is_relative
    Queue.Validate.is_sealed Queue.Validate.normalized_path Queue.Validate.occurs
    Queue.Validate.or_default Queue.Validate.seal Queue.Validate.strict_equal
    Queue.Validate.text_or_empty validate_shared_task Queue.Validate.with_slashes
complete_shared_task_sound_example =
    (complete_shared_task_sound host 1000 true result granted.1
      (complete_shared_task host 1000 true result granted.1).1 "task-1" refl).4
