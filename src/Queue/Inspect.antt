-- ===== src/Queue/Inspect.antt =====
-- src/shared-task-queue.mjs: `inspectSharedTasks`, the list of all files of a queue.
use bounded_agent_harness.Prelude.{
  String, Bool, not, ◌||◌, List, ◌++◌, if◌then◌else◌, Result, ok, assert, ◌>>=◌, ◌>>◌, map_each,
}
use bounded_agent_harness.Json.{Value, null, get, is_null, is_undefined, is_truthy}
use bounded_agent_harness.Json.Text.{sort, text_le}
use bounded_agent_harness.Json.Canonical.{Host, ◌+++◌}
use bounded_agent_harness.Queue.Validate.{string_of}
use bounded_agent_harness.Queue.Store.{Queue}

-- A file of the directory `state`; its path is that of the directory with the name of the file.
pub record Inspected : Type 0 where
  pub state : String
  pub task_id : Value
  pub digest : Value
  pub agent_id : Value
  pub status : Value
  pub file : String

-- `value || null`.
abbrev or_null : Value → Value
or_null v = if is_truthy v then v else null

unfoldable pub inspect_file : (state : String) → String × Value → Result Inspected
inspect_file state (id, item) = do
  assert (not (is_null item || is_undefined item)) "UNEXPECTED_ERROR"
  ok (record {
    state = state;
    task_id = get item "taskId";
    digest = get item "taskDigest";
    agent_id = or_null (get item "agentId");
    status = or_null (get item "status");
    file = id +++ ".json";
  })

abbrev name_le : String × Value → String × Value → Bool
name_le a b = text_le (a.0 +++ ".json") (b.0 +++ ".json")

unfoldable pub inspect_directory :
    (state : String) → List (String × Value) → Result (List Inspected)
inspect_directory state files = map_each (inspect_file state) (sort name_le files)

abbrev inspected_le : Host → Inspected → Inspected → Bool
inspected_le host a b = host.locale_le (name_of a) (name_of b)
  where
    name_of : Inspected → String
    name_of i = string_of i.task_id +++ ":" +++ i.state

-- `inspectSharedTasks(queueRoot)`.
unfoldable pub inspect_shared_tasks : Host → Queue → Result (List Inspected)
inspect_shared_tasks host q = do
  ready ← inspect_directory "ready" q.ready
  claims ← inspect_directory "claims" q.claims
  results ← inspect_directory "results" q.results
  ok (sort (inspected_le host) (ready ++ claims ++ results))
