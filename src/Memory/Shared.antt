-- ===== src/Memory/Shared.antt =====
-- src/shared-memory.mjs: records of a contract under a key, each with its revision, and an event in the log
-- for each update. A record file that is not JSON is `none`.
pub mod Laws
use bounded_agent_harness.Prelude.{
  ℕ, ◌+◌, String, Bool, true, false, not, ◌&&◌, Option, none, some, List, [], ◌∷◌, ◌++◌,
  if◌then◌else◌, set_entry, find_entry, Result, ok, err, assert, ◌>>=◌, ◌>>◌,
}
use bounded_agent_harness.Json.{
  Value, undefined, null, num, nat, str, get, is_string, is_text, is_null, is_safe_natural,
  is_truthy, nat_of, text_of, object_of,
}
use bounded_agent_harness.Json.Text.{head_and_tail, is_lower, is_id_char, codes}
use bounded_agent_harness.Json.Canonical.{Host, digest_of, ◌+++◌}
use bounded_agent_harness.Registry.{Registry, validate_contract}
use bounded_agent_harness.Queue.Validate.{strict_equal, or_default, string_of}
use bounded_agent_harness.Memory.Log.{MemoryStore, parse_line, append_locked}

-- The files of `records` by key, and the store of events.
pub record SharedStore : Type 0 where
  pub records : List (String × Option Value)
  pub events : MemoryStore

-- /^[a-z][a-z0-9._-]{1,119}$/
unfoldable pub is_memory_key : String → Bool
is_memory_key s = head_and_tail is_lower is_id_char 1 119 (codes s)

-- `path(key)`, the file of a key.
unfoldable pub memory_path : Value → Result String
memory_path key = do
  assert (is_string key && is_memory_key (text_of key)) "INVALID_MEMORY_KEY"
  ok (text_of key)

unfoldable pub unsigned_record : (key revision contract value : Value) → List (String × Value)
unsigned_record key revision contract value =
    ("key", key) ∷ ("revision", revision) ∷ ("contract", contract) ∷ ("value", value) ∷ []

unfoldable pub record_digest : Host → Value → String
record_digest host r = digest_of host (
    object_of (unsigned_record (get r "key") (get r "revision") (get r "contract") (get r "value")))

unfoldable pub check_record : Host → Registry → Value → Result (Unit {0})
check_record host contracts r = do
  assert (not (is_null r)) "UNEXPECTED_ERROR"
  assert (is_text (get r "digest") (record_digest host r)) "MEMORY_CORRUPT"
  validate_contract contracts (text_of (get r "contract")) (get r "value")

-- `get(key)`; no file is `null`.
unfoldable pub get_record : Host → Registry → Value → SharedStore → Result Value
get_record host contracts key s = do
  path ← memory_path key
  elim (find_entry path s.records) [
    | none ↦ ok null
    | some file ↦ do r ← parse_line file; check_record host contracts r; ok r
  ]

-- `current?.revision || 0`.
unfoldable pub actual_revision : Value → Value
actual_revision current =
    if is_truthy (get current "revision") then get current "revision" else num (nat 0)

-- What `put` checks before it writes: the file and the new revision.
unfoldable pub check_put :
    Host → Registry → (key contract value expected : Value) → SharedStore → Result (String × ℕ)
check_put host contracts key contract value expected s = do
  assert (is_safe_natural expected) "INVALID_REVISION"
  validate_contract contracts (text_of contract) value
  current ← get_record host contracts key s
  assert (strict_equal (actual_revision current) expected) "REVISION_CONFLICT"
  path ← memory_path key
  ok (path, nat_of expected + 1)

unfoldable pub new_record : Host → (key contract value : Value) → ℕ → Value
new_record host key contract value revision = object_of (
    unsigned_record key (num (nat revision)) contract value
    ++ (
      "digest",
      str (digest_of host (object_of (unsigned_record key (num (nat revision)) contract value))),
    )
      ∷ [])

unfoldable pub memory_updated : Value → Value
memory_updated r = object_of (
    ("type", str "memory.updated")
    ∷ ("key", get r "key")
    ∷ ("revision", get r "revision")
    ∷ ("contract", get r "contract")
    ∷ ("digest", get r "digest")
    ∷ [])

-- The file is written before the event; an event that the log refuses leaves it written.
unfoldable pub write_record : Host → String → Value → SharedStore → SharedStore × Result Value
write_record host path r s =
    let (events, logged) = append_locked host (memory_updated r) s.events in
    (record { records = set_entry path (some r) s.records; events = events }, logged >> ok r)

-- `put({ key, contract, value, expectedRevision })`, where the default of the last is 0.
unfoldable pub put_record :
    Host
    → Registry
    → (key contract value expected : Value) → SharedStore
    → SharedStore × Result Value
put_record host contracts key contract value expected s =
    elim (check_put host contracts key contract value (or_default expected (num (nat 0))) s) [
      | err code ↦ (s, err code)
      | ok (path, revision) ↦ write_record host path (new_record host key contract value revision) s
    ]
