-- ===== src/Continuation/Gate.antt =====
-- src/continuation-gate.mjs: the reviews that a continuation needs.
pub mod Laws
use bounded_agent_harness.Prelude.{
  ℕ, String, Bool, true, false, not, ◌&&◌, ◌||◌, Option, none, some, List, [], ◌∷◌, select, all,
  distinct, includes, str_eq, if◌then◌else◌, Result, ok, err, ◌>>=◌, ◌>>◌, assert, for_each,
}
use bounded_agent_harness.Json.{
  Value, get, is_array, is_string, is_text, is_number, is_string_array, elems, text_of,
  closed_object,
}
use bounded_agent_harness.Json.Text.{is_digest}
use bounded_agent_harness.Json.Canonical.{Host}

abbrev gate_roles : List String
gate_roles = "contract" ∷ "domain" ∷ "consistency" ∷ "reconciliation" ∷ []

unfoldable pub check_gate_digest : Value → Result (Unit {0})
check_gate_digest v = assert (is_string v && is_digest (text_of v)) "INVALID_DIGEST"

abbrev is_filled_text : Value → Bool
is_filled_text v = is_string v && not (str_eq (text_of v) "")

abbrev pub no_items {ℓ} : {A : Type ℓ} → List A → Bool
no_items [] = true
no_items (x ∷ xs) = false

abbrev is_parsed : Option ℕ → Bool
is_parsed none = false
is_parsed (some t) = true

unfoldable pub validate_review_record : Host → Value → Result (Unit {0})
validate_review_record host record' = do
  closed_object record' (
      "format" ∷ "version" ∷ "role" ∷ "reviewerId" ∷ "status" ∷ "workflowDigest" ∷ "floorDigest"
      ∷ "scope" ∷ "evidence" ∷ "findings" ∷ "checkedAt" ∷ [])
  assert (is_text (get record' "format") "agent-harness.review-record.v1") "UNSUPPORTED_FORMAT"
  assert (is_number (get record' "version") 1) "UNSUPPORTED_VERSION"
  assert (is_string (get record' "role") && includes (text_of (get record' "role")) gate_roles)
      "INVALID_REVIEW_ROLE"
  assert (is_filled_text (get record' "reviewerId")) "INVALID_REVIEWER"
  assert (is_text (get record' "status") "PASS" || is_text (get record' "status") "FAIL")
      "INVALID_STATUS"
  check_gate_digest (get record' "workflowDigest")
  check_gate_digest (get record' "floorDigest")
  assert (is_filled_text (get record' "scope")) "INVALID_SCOPE"
  assert (is_filled_text (get record' "evidence")) "INVALID_EVIDENCE"
  assert (is_string_array (get record' "findings")) "INVALID_FINDINGS"
  assert (not (is_text (get record' "status") "PASS") || no_items (elems (get record' "findings")))
      "INVALID_FINDINGS"
  assert
      (not (is_text (get record' "status") "FAIL")
        || not (no_items (elems (get record' "findings"))))
      "INVALID_FINDINGS"
  assert
      (is_string (get record' "checkedAt")
        && is_parsed (host.parse_date (text_of (get record' "checkedAt"))))
      "INVALID_TIMESTAMP"

abbrev pub role_of : Value → String
role_of review = text_of (get review "role")

abbrev pub roles_of : List Value → List String
roles_of [] = []
roles_of (review ∷ reviews) = role_of review ∷ roles_of reviews

-- The loop over the reviews: the roles that were seen before.
unfoldable pub duplicate_roles : List String → List String → List String
duplicate_roles seen [] = []
duplicate_roles seen (r ∷ rs) =
    let rest = duplicate_roles (r ∷ seen) rs in if includes r seen then r ∷ rest else rest

abbrev pub is_current : (workflow floor : String) → Value → Bool
is_current workflow floor review =
    is_text (get review "workflowDigest") workflow && is_text (get review "floorDigest") floor

abbrev pub is_pass : Value → Bool
is_pass review = is_text (get review "status") "PASS"

pub record GateReport : Type 0 where
  pub continues : Bool
  pub passed_roles : List String
  pub missing_roles : List String
  pub duplicates : List String
  pub stale_roles : List String
  pub failed_roles : List String

unfoldable pub report_of :
    (workflow floor : String) → List Value → (required : List String) → GateReport
unfolding duplicate_roles
report_of workflow floor reviews required =
    let missing = select (λ r. not (includes r (roles_of reviews))) required in
    let duplicates = duplicate_roles [] (roles_of reviews) in
    let stale = roles_of (select (λ r. not (is_current workflow floor r)) reviews) in
    let failed = roles_of (select (λ r. not (is_pass r)) reviews) in
    record {
      continues = no_items missing && no_items duplicates && no_items stale && no_items failed;
      passed_roles = roles_of (select (λ r. is_pass r && is_current workflow floor r) reviews);
      missing_roles = missing;
      duplicates = duplicates;
      stale_roles = stale;
      failed_roles = failed;
    }

-- `evaluateContinuationGate(…)`, with the texts of `requiredRoles`.
unfoldable pub evaluate_continuation_gate :
    Host → (workflow floor reviews : Value) → List String → Result GateReport
unfolding report_of
evaluate_continuation_gate host workflow floor reviews required = do
  check_gate_digest workflow
  check_gate_digest floor
  assert (not (no_items required)) "INVALID_REVIEW_ROLES"
  assert (distinct required && all (λ r. includes r gate_roles) required) "INVALID_REVIEW_ROLES"
  assert (is_array reviews) "INVALID_REVIEWS"
  for_each (validate_review_record host) (elems reviews)
  ok (report_of (text_of workflow) (text_of floor) (elems reviews) required)
