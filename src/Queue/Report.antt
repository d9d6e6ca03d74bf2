-- ===== src/Queue/Report.antt =====
-- `buildTaskResult` of src/shared-task-queue.mjs: the result that a worker reports.
use bounded_agent_harness.Prelude.{
  String, true, false, List, [], ◌∷◌, Result, ok, ◌>>=◌, ◌>>◌, assert, map_each,
}
use bounded_agent_harness.Json.{
  Value, null, num, nat, str, arr, Items, nil, cons, get, is_array, is_string, elems,
}
use bounded_agent_harness.Json.Canonical.{Host}
use bounded_agent_harness.Queue.Validate.{
  check_iso, check_text, check_agent_id, check_commit, normalized_path, seal, or_default,
  validate_shared_task,
}

-- `buildTaskResult({ task, … })`; `now` is `new Date().toISOString()`.
unfoldable pub build_task_result : Host → (now : String) → (task args : Value) → Result Value
build_task_result host now task args = do
  let completed_at = or_default (get args "completedAt") (str now)
  let result_commit = or_default (get args "resultCommit") null
  let changed = or_default (get args "changedPaths") (arr nil)
  let notes = or_default (get args "notes") (str "")
  validate_shared_task host task
  check_agent_id (get args "agentId")
  check_iso host (get args "startedAt")
  check_iso host completed_at
  check_commit false (get args "sourceCommit")
  check_commit true result_commit
  assert (is_array changed) "UNEXPECTED_ERROR"
  paths ← map_each normalized_path (elems changed)
  assert (is_array (get args "tests")) "UNEXPECTED_ERROR"
  check_text (get args "nextAction")
  check_text (get args "rollback")
  assert (is_string notes) "UNEXPECTED_ERROR"
  ok (
      seal host "resultDigest" (
        ("format", str "agent-harness.shared-task-result.v1")
        ∷ ("version", num (nat 1))
        ∷ ("taskId", get task "taskId")
        ∷ ("taskDigest", get task "taskDigest")
        ∷ ("agentId", get args "agentId")
        ∷ ("status", get args "status")
        ∷ ("startedAt", get args "startedAt")
        ∷ ("completedAt", completed_at)
        ∷ ("sourceCommit", get args "sourceCommit")
        ∷ ("resultCommit", result_commit)
        ∷ ("changedPaths", arr (text_items paths))
        ∷ ("tests", get args "tests")
        ∷ ("externalState", or_default (get args "externalState") (str "NOT_EXECUTED"))
        ∷ ("nextAction", get args "nextAction")
        ∷ ("rollback", get args "rollback")
        ∷ ("notes", notes)
        ∷ []))
  where
    text_items : List String → Items
    text_items [] = nil
    text_items (s ∷ ss) = cons (str s) (text_items ss)
