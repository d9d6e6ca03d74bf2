-- ===== src/Continuation/Fork.antt =====
-- src/continuation-fork.mjs: the one local fork that a timeout creates from a checkpoint.
pub mod Laws
use Prim.Native.String
use bounded_agent_harness.Prelude.{
  ℕ, zero, suc, ◌/◌, max, String, Bool, true, false, not, ◌&&◌, Option, none, some, List, [], ◌∷◌,
  find, if◌then◌else◌, includes, Result, ok, err, ◌>>=◌, ◌>>◌, assert, for_each,
}
use bounded_agent_harness.Json.{
  Value, num, nat, str, get, is_string, is_text, is_number, is_true, is_safe_positive, text_of,
  nat_of, closed_object, object_of, fields_of,
}
use bounded_agent_harness.Json.Text.{is_bounded_id, is_digest}
use bounded_agent_harness.Json.Canonical.{Host, canonical_text, ◌+++◌, one}
use bounded_agent_harness.Floor.{validate_floor_manifest, floor_digest}
use bounded_agent_harness.Queue.Claim.{set_field}

unfoldable pub check_fork_digest : Value → Result (Unit {0})
check_fork_digest v = assert (is_string v && is_digest (text_of v)) "INVALID_DIGEST"

unfoldable pub check_identifier : Value → Result (Unit {0})
check_identifier v = assert (is_string v && is_bounded_id (text_of v)) "INVALID_ID"

abbrev is_date : Option ℕ → Bool
is_date none = false
is_date (some t) = true

abbrev fork_statuses : List String
fork_statuses =
    "RUNNABLE" ∷ "PENDING_OWNER_REVIEW" ∷ "REJECTED" ∷ "ACCEPTED" ∷ "PARENT_RESUMED" ∷ []

unfoldable pub validate_continuation_fork : Host → Value → Result (Unit {0})
validate_continuation_fork host fork = do
  closed_object fork (
      "format" ∷ "version" ∷ "id" ∷ "parentRunId" ∷ "parentWorkflowDigest" ∷ "checkpointDigest"
      ∷ "floorDigest" ∷ "reason" ∷ "authorityCeiling" ∷ "modelPolicy" ∷ "budget" ∷ "parentStatus"
      ∷ "status" ∷ "createdAt" ∷ [])
  assert (is_text (get fork "format") "agent-harness.continuation-fork.v1") "UNSUPPORTED_FORMAT"
  assert (is_number (get fork "version") 1) "UNSUPPORTED_VERSION"
  check_identifier (get fork "id")
  check_identifier (get fork "parentRunId")
  check_fork_digest (get fork "parentWorkflowDigest")
  check_fork_digest (get fork "checkpointDigest")
  check_fork_digest (get fork "floorDigest")
  assert (is_text (get fork "reason") "OWNER_TIMEOUT") "INVALID_FORK_REASON"
  assert (is_text (get fork "authorityCeiling") "local-reversible-only") "AUTHORITY_ESCALATION"
  assert (is_text (get fork "modelPolicy") "lowest-reasonable-within-budget") "MODEL_POLICY_INVALID"
  closed_object (get fork "budget") ("maxCostUnits" ∷ [])
  assert (is_safe_positive (get (get fork "budget") "maxCostUnits")) "INVALID_BUDGET"
  assert (is_text (get fork "parentStatus") "PAUSED_FOR_OWNER") "INVALID_FORK_STATE"
  assert (is_string (get fork "status") && includes (text_of (get fork "status")) fork_statuses)
      "INVALID_FORK_STATE"
  assert
      (is_string (get fork "createdAt")
        && is_date (host.parse_date (text_of (get fork "createdAt"))))
      "INVALID_TIMESTAMP"

-- `text.slice(0, n)`, of a text of ASCII characters.
unfoldable pub first_chars : ℕ → String → String
first_chars zero s = ""
first_chars (suc n) String.[] = ""
first_chars (suc n) (String.◌∷◌ c s) = one c +++ first_chars n s

-- The four texts that a fork is found by.
pub record ForkKey : Type 0 where
  pub run : String
  pub workflow : String
  pub checkpoint : String
  pub floor : String

unfoldable pub is_duplicate : ForkKey → Value → Bool
is_duplicate key fork =
    is_text (get fork "parentRunId") key.run
    && is_text (get fork "parentWorkflowDigest") key.workflow
    && is_text (get fork "checkpointDigest") key.checkpoint
    && is_text (get fork "floorDigest") key.floor

unfoldable pub key_value : ForkKey → Value
key_value key = object_of (
    ("parentRunId", str key.run)
    ∷ ("parentWorkflowDigest", str key.workflow)
    ∷ ("checkpointDigest", str key.checkpoint)
    ∷ ("floorDigest", str key.floor)
    ∷ [])

unfoldable pub fork_budget : Value → ℕ
fork_budget floor = max 1 (nat_of (get floor "maxCostUnits") / 2)

unfoldable pub new_fork : Host → (created_at : String) → Value → ForkKey → Value
unfolding first_chars key_value fork_budget
new_fork host created_at floor key = object_of (
    ("format", str "agent-harness.continuation-fork.v1")
    ∷ ("version", num (nat 1))
    ∷ ("id", str ("fork-" +++ first_chars 24 (host.hash (canonical_text (key_value key)))))
    ∷ ("parentRunId", str key.run)
    ∷ ("parentWorkflowDigest", str key.workflow)
    ∷ ("checkpointDigest", str key.checkpoint)
    ∷ ("floorDigest", str key.floor)
    ∷ ("reason", str "OWNER_TIMEOUT")
    ∷ ("authorityCeiling", str "local-reversible-only")
    ∷ ("modelPolicy", str "lowest-reasonable-within-budget")
    ∷ ("budget", object_of (("maxCostUnits", num (nat (fork_budget floor))) ∷ []))
    ∷ ("parentStatus", str "PAUSED_FOR_OWNER")
    ∷ ("status", str "RUNNABLE")
    ∷ ("createdAt", str created_at)
    ∷ [])

-- `{ fork, created }`.
pub record Forked : Type 0 where
  pub fork : Value
  pub created : Bool

abbrev fork_or_found : Host → (created_at : String) → Value → ForkKey → Option Value → Result Forked
fork_or_found host created_at floor key (some fork) = ok (record { fork = fork; created = false })
fork_or_found host created_at floor key none = do
  let fork = new_fork host created_at floor key
  validate_continuation_fork host fork
  ok (record { fork = fork; created = true })

-- The key of a request, behind the checks of its parts.
unfoldable pub fork_key : Host → (run workflow checkpoint floor : Value) → Result ForkKey
fork_key host run workflow checkpoint floor = do
  check_identifier run
  check_fork_digest workflow
  check_fork_digest checkpoint
  validate_floor_manifest floor
  assert (is_true (get (get floor "timeoutPolicy") "localOnly")) "FORK_NOT_LOCAL_ONLY"
  digest ← floor_digest host floor
  ok (record {
    run = text_of run;
    workflow = text_of workflow;
    checkpoint = text_of checkpoint;
    floor = digest;
  })

-- `createContinuationFork(…)`; `created_at` is the text of `now`.
unfoldable pub create_continuation_fork :
    Host
    → (created_at : String) → (run workflow checkpoint floor : Value) → List Value
    → Result Forked
unfolding new_fork is_duplicate
create_continuation_fork host created_at run workflow checkpoint floor existing = do
  key ← fork_key host run workflow checkpoint floor
  for_each (validate_continuation_fork host) existing
  fork_or_found host created_at floor key (find (is_duplicate key) existing)

-- The owner's decision on a fork.
pub data OwnerDecision : Type 0 where
  accept reject resume_parent : OwnerDecision

unfoldable pub resolved_status : OwnerDecision → String
resolved_status accept = "ACCEPTED"
resolved_status reject = "REJECTED"
resolved_status resume_parent = "PARENT_RESUMED"

unfoldable pub resolve_continuation_fork : Host → Value → OwnerDecision → Result Value
resolve_continuation_fork host fork decision = do
  validate_continuation_fork host fork
  let resolved = object_of (set_field "status" (str (resolved_status decision)) (fields_of fork))
  validate_continuation_fork host resolved
  ok resolved
