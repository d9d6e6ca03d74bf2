-- ===== src/Tokens.antt =====
-- src/token-efficiency.mjs: the checks that its parts share, and references to artifacts.
pub mod Packet
pub mod Pruning
pub mod Record
pub mod Usage
use bounded_agent_harness.Prelude.{
  String, Bool, true, false, not, ◌&&◌, List, [], ◌∷◌, ◌++◌, if◌then◌else◌, Result, ok, err, assert,
  ◌>>=◌, ◌>>◌,
}
use bounded_agent_harness.Json.{
  Value, undefined, num, nat, str, get, is_string, is_text, is_undefined, is_object,
  is_safe_natural, text_of, object_of,
}
use bounded_agent_harness.Json.Text.{is_digest, is_not_blank}
use bounded_agent_harness.Queue.Validate.{or_default}

-- `text`, `integer`, `digest` and `object`.
unfoldable pub check_text : Value → Result (Unit {0})
check_text v = assert (is_string v && is_not_blank (text_of v)) "INVALID_TOKEN_EFFICIENCY"

unfoldable pub check_integer : Value → Result (Unit {0})
check_integer v = assert (is_safe_natural v) "INVALID_TOKEN_EFFICIENCY"

unfoldable pub check_digest : Value → Result (Unit {0})
check_digest v = assert (is_string v && is_digest (text_of v)) "INVALID_TOKEN_EFFICIENCY"

unfoldable pub check_object : Value → Result (Unit {0})
check_object v = assert (is_object v) "INVALID_TOKEN_EFFICIENCY"

-- `if (value !== undefined) check(value);`
abbrev pub if_given : (Value → Result (Unit {0})) → Value → Result (Unit {0})
if_given check v = if is_undefined v then ok tt else check v

-- `...(value === undefined ? {} : { name: value })`.
abbrev pub field_if_given : String → Value → List (String × Value)
field_if_given name v = if is_undefined v then [] else (name, v) ∷ []

-- `reference(value)`.
unfoldable pub check_reference : Value → Result (Unit {0})
check_reference v = do
  check_object v
  assert (is_text (get v "format") "agent-harness.artifact-reference.v1")
      "INVALID_ARTIFACT_REFERENCE"
  check_digest (get v "digest")
  check_text (get v "id")

-- `buildArtifactReference(args)`.
unfoldable pub build_artifact_reference : Value → Result Value
build_artifact_reference args = do
  let media_type = or_default (get args "mediaType") (str "application/json")
  check_text (get args "id")
  check_digest (get args "digest")
  check_text media_type
  if_given check_text (get args "uri")
  if_given check_integer (get args "bytes")
  if_given check_text (get args "contractId")
  if_given check_text (get args "summary")
  ok (
      object_of (
        ("format", str "agent-harness.artifact-reference.v1")
          ∷ ("version", num (nat 1))
          ∷ ("id", get args "id")
          ∷ ("digest", get args "digest")
          ∷ ("mediaType", media_type)
          ∷ field_if_given "uri" (get args "uri")
        ++ field_if_given "bytes" (get args "bytes")
        ++ field_if_given "contractId" (get args "contractId")
        ++ field_if_given "summary" (get args "summary")))
