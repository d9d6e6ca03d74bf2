-- ===== src/Queue/Validate.antt =====
-- The field checks of src/shared-task-queue.mjs, and the building and checking of a task. An error that
-- is no `HarnessError` has the code UNEXPECTED_ERROR.
use Prim.Native.Char.{code}
use bounded_agent_harness.Prelude.{
  ℕ, String, Bool, true, false, not, ◌&&◌, ◌||◌, Option, none, some, List, [], ◌∷◌, ◌++◌, ◌==◌,
  if◌then◌else◌, str_eq, includes, all, Result, ok, ◌>>=◌, ◌>>◌, assert, for_each, map_each,
}
use bounded_agent_harness.Json.{
  Value, undefined, null, bool, num, nat, neg, str, arr, obj, Items, nil, cons, get, is_array,
  is_string, is_text, is_number, is_truthy, is_undefined, is_null, is_object, text_of, elems,
  object_of, omit, other,
}
use bounded_agent_harness.Json.Text.{
  codes, starts_with, is_lower, is_upper, is_task_id, is_agent_id, is_digest, is_commit,
  is_not_blank,
}
use bounded_agent_harness.Json.Canonical.{Host, digest_of, number_text, one, ◌+++◌, join}

unfoldable mutual
  -- `String(value)`, as a regular expression takes what it tests.
  pub string_of : Value → String
  string_of undefined = "undefined"
  string_of null = "null"
  string_of (bool true) = "true"
  string_of (bool false) = "false"
  string_of (num n) = number_text n
  string_of (str s) = s
  string_of (arr vs) = join (strings_of_items vs)
  string_of (obj fs) = "[object Object]"

  pub strings_of_items : Items → List String
  strings_of_items nil = []
  strings_of_items (cons undefined vs) = "" ∷ strings_of_items vs
  strings_of_items (cons null vs) = "" ∷ strings_of_items vs
  strings_of_items (cons v vs) = string_of v ∷ strings_of_items vs

-- The text of `value || ""`.
unfoldable pub text_or_empty : Value → String
unfolding string_of
text_or_empty v = if is_truthy v then string_of v else ""

-- `a === b` on values of JSON; two arrays or objects that were read apart are never the same.
unfoldable pub strict_equal : Value → Value → Bool
strict_equal undefined undefined = true
strict_equal null null = true
strict_equal (bool true) (bool b) = b
strict_equal (bool false) (bool b) = not b
strict_equal (num (nat n)) (num (nat m)) = n == m
strict_equal (num (neg n)) (num (neg m)) = n == m
strict_equal (num (other s)) (num (other t)) = str_eq s t
strict_equal (str s) (str t) = str_eq s t
strict_equal _ _ = false

abbrev is_some : Option ℕ → Bool
is_some none = false
is_some (some t) = true

-- `iso`, `text`, `list`, `taskId`, `agentId`, `digest` and `commit`.
unfoldable pub check_iso : Host → Value → Result (Unit {0})
check_iso host v = assert (is_string v && is_some (host.parse_date (text_of v))) "INVALID_TASK"

unfoldable pub is_filled : Value → Bool
is_filled v = is_string v && is_not_blank (text_of v)

unfoldable pub check_text : Value → Result (Unit {0})
check_text v = assert (is_filled v) "INVALID_TASK"

abbrev is_empty : List Value → Bool
is_empty [] = true
is_empty (v ∷ vs) = false

unfoldable pub check_list : Value → Result (Unit {0})
check_list v =
    assert (is_array v && not (is_empty (elems v)) && all is_filled (elems v)) "INVALID_TASK"

unfoldable pub check_task_id : Value → Result (Unit {0})
check_task_id v = assert (is_task_id (text_or_empty v)) "INVALID_TASK"

unfoldable pub check_agent_id : Value → Result (Unit {0})
check_agent_id v = assert (is_agent_id (text_or_empty v)) "INVALID_TASK"

unfoldable pub check_digest : Value → Result (Unit {0})
check_digest v = assert (is_digest (text_or_empty v)) "INVALID_TASK"

unfoldable pub check_commit : Bool → Value → Result (Unit {0})
check_commit nullable v =
    assert (nullable && is_null v || is_commit (text_or_empty v)) "INVALID_TASK"

-- `value.replaceAll("\\", "/")`.
unfoldable pub with_slashes : String → String
with_slashes String.[] = ""
with_slashes (String.◌∷◌ c s) =
    let rest = with_slashes s in if code c == 92 then "/" +++ rest else one c +++ rest

unfoldable pub occurs : List ℕ → List ℕ → Bool
occurs p [] = starts_with p []
occurs p (c ∷ cs) = starts_with p (c ∷ cs) || occurs p cs

-- /^[A-Za-z]:/
unfoldable pub has_drive : List ℕ → Bool
has_drive (c ∷ d ∷ cs) = (is_lower c || is_upper c) && d == b':'
has_drive _ = false

unfoldable pub is_relative : String → Bool
is_relative s =
    not (starts_with (codes "/") (codes s))
    && not (starts_with (codes "../") (codes s))
    && not (occurs (codes "/../") (codes s))
    && not (str_eq s "..")
    && not (has_drive (codes s))

unfoldable pub normalized_path : Value → Result String
normalized_path v = do
  check_text v
  assert (is_relative (with_slashes (text_of v))) "INVALID_TASK"
  ok (with_slashes (text_of v))

-- `value.forEach((item) => normalizedPath(item, …))`.
unfoldable pub check_path : Value → Result (Unit {0})
check_path v = normalized_path v >>= λ _. ok tt

-- `taskUnsigned`, `claimUnsigned`, `resultUnsigned` and `reservationLedgerUnsigned`: the value
-- without the field of its digest, and the test of that field.
unfoldable pub is_sealed : Host → String → Value → Bool
is_sealed host name v = is_text (get v name) (digest_of host (omit (name ∷ []) v))

unfoldable pub seal : Host → String → List (String × Value) → Value
seal host name fields = object_of (fields ++ (name, str (digest_of host (object_of fields))) ∷ [])

abbrev is_assignee : Value → Bool
is_assignee v = is_text v "*" || is_agent_id (text_or_empty v)

unfoldable pub is_effect : Value → Bool
is_effect v =
    is_string v && includes (text_of v) ("NONE" ∷ "DRAFT_ONLY" ∷ "EXPLICIT_GO_REQUIRED" ∷ [])

unfoldable pub assert_repository : Value → Result (Unit {0})
assert_repository repository = do
  assert (is_object repository || is_array repository) "INVALID_TASK"
  check_text (get repository "name")
  check_text (get repository "url")
  check_text (get repository "ref")
  check_commit false (get repository "baseCommit")

unfoldable pub validate_shared_task : Host → Value → Result (Unit {0})
validate_shared_task host task = do
  assert
      (is_text (get task "format") "agent-harness.shared-task.v1"
        && is_number (get task "version") 1)
      "INVALID_TASK"
  check_task_id (get task "taskId")
  check_iso host (get task "createdAt")
  check_agent_id (get task "createdBy")
  assert (is_assignee (get task "assignedTo")) "INVALID_TASK"
  assert_repository (get task "repository")
  check_text (get task "objective")
  check_list (get task "allowedPaths")
  for_each check_path (elems (get task "allowedPaths"))
  check_list (get task "forbiddenActions")
  check_list (get task "acceptance")
  check_list (get task "expectedOutputs")
  assert (is_effect (get task "externalEffect")) "INVALID_TASK"
  check_digest (get task "taskDigest")
  assert (is_sealed host "taskDigest" task) "TASK_TAMPERED"

-- `name = default` of a destructured argument.
unfoldable pub or_default : Value → Value → Value
or_default v d = if is_undefined v then d else v

-- `buildSharedTask(args)`; `now` is `new Date().toISOString()`.
unfoldable pub build_shared_task : Host → (now : String) → (args : Value) → Result Value
build_shared_task host now args = do
  let repository = get args "repository"
  let created_at = or_default (get args "createdAt") (str now)
  let effect = or_default (get args "externalEffect") (str "NONE")
  check_task_id (get args "taskId")
  check_iso host created_at
  check_agent_id (get args "createdBy")
  assert (is_assignee (get args "assignedTo")) "INVALID_TASK"
  check_text (get repository "name")
  check_text (get repository "url")
  check_text (get repository "ref")
  check_commit false (get repository "baseCommit")
  check_text (get args "objective")
  check_list (get args "allowedPaths")
  paths ← map_each normalized_path (elems (get args "allowedPaths"))
  check_list (get args "forbiddenActions")
  check_list (get args "acceptance")
  check_list (get args "expectedOutputs")
  assert (is_effect effect) "UNEXPECTED_ERROR"
  ok (
      seal host "taskDigest" (
        ("format", str "agent-harness.shared-task.v1")
        ∷ ("version", num (nat 1))
        ∷ ("taskId", get args "taskId")
        ∷ ("createdAt", created_at)
        ∷ ("createdBy", get args "createdBy")
        ∷ ("assignedTo", get args "assignedTo")
        ∷ (
          "repository",
          object_of (
              ("name", get repository "name")
              ∷ ("url", get repository "url")
              ∷ ("ref", get repository "ref")
              ∷ ("baseCommit", get repository "baseCommit")
              ∷ []),
        )
        ∷ ("objective", get args "objective")
        ∷ ("allowedPaths", arr (to_strings paths))
        ∷ ("forbiddenActions", get args "forbiddenActions")
        ∷ ("acceptance", get args "acceptance")
        ∷ ("expectedOutputs", get args "expectedOutputs")
        ∷ ("externalEffect", effect)
        ∷ []))
  where
    to_strings : List String → Items
    to_strings [] = nil
    to_strings (s ∷ ss) = cons (str s) (to_strings ss)
