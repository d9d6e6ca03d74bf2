-- ===== src/Review/Sandy.antt =====
-- src/sandy-review.mjs: the only shape of a review that is accepted, and its binding to a workflow.
use bounded_agent_harness.Prelude.{
  ℕ, String, Bool, true, false, not, ◌&&◌, ◌||◌, none, some, List, [], ◌∷◌, ltb, leb, ◌==◌, any,
  all, length, includes, str_eq, if◌then◌else◌, Result, ok, assert, ◌>>◌, for_each,
}
use bounded_agent_harness.Json.{
  Value, get, is_array, is_string, is_text, is_number, is_undefined, is_safe_positive,
  is_string_array, elems, text_of, nat_of, strings_of, closed_object,
}
use bounded_agent_harness.Json.Text.{
  codes, starts_with, is_lower, is_upper, is_stable_id, is_digest, is_not_blank,
}
use bounded_agent_harness.Json.Canonical.{Host}
use bounded_agent_harness.Queue.Validate.{strict_equal}
use bounded_agent_harness.Queue.Claim.{date_of}
use bounded_agent_harness.Impact.Fields.{split_at, same_codes}

abbrev is_separator : ℕ → Bool
is_separator c = c == b'/' || c == 92

-- /^[A-Za-z]:[\\/]/
unfoldable pub is_drive_path : List ℕ → Bool
is_drive_path (c ∷ d ∷ e ∷ cs) = (is_lower c || is_upper c) && d == b':' && is_separator e
is_drive_path _ = false

-- A backslash as a slash, so that one separator splits a path.
abbrev as_slash : List ℕ → List ℕ
as_slash [] = []
as_slash (c ∷ cs) = (if c == 92 then b'/' else c) ∷ as_slash cs

-- `relativePath(value)`.
unfoldable pub check_relative : Value → Result (Unit {0})
check_relative v =
    assert
      (is_string v
        && not (str_eq (text_of v) "")
        && not (starts_with (codes "/") (codes (text_of v)))
        && not (is_drive_path (codes (text_of v)))
        && not (
            any (λ part. same_codes part (codes ".."))
              (split_at b'/' (as_slash (codes (text_of v))))))
      "INVALID_SCOPE"

unfoldable pub check_sandy_digest : Value → Result (Unit {0})
check_sandy_digest v = assert (is_string v && is_digest (text_of v)) "INVALID_DIGEST"

abbrev is_one_of : List String → Value → Bool
is_one_of names v = is_string v && includes (text_of v) names

abbrev is_filled : Value → Bool
is_filled v = is_string v && is_not_blank (text_of v)

-- One round of the loop over the findings, with the ids that it has seen.
unfoldable pub check_finding : List String → Value → Result (Unit {0})
check_finding seen finding = do
  closed_object finding
      ("id" ∷ "severity" ∷ "category" ∷ "summary" ∷ "evidence" ∷ "recommendation" ∷ [])
  assert
      (is_string (get finding "id")
        && is_stable_id (text_of (get finding "id"))
        && not (includes (text_of (get finding "id")) seen))
      "INVALID_FINDING"
  assert (is_one_of ("info" ∷ "low" ∷ "medium" ∷ "high" ∷ []) (get finding "severity"))
      "INVALID_FINDING"
  assert (is_one_of ("visual" ∷ "ux" ∷ "consistency" ∷ []) (get finding "category"))
      "INVALID_FINDING"
  for_each (λ key. assert (is_filled (get finding key)) "INVALID_FINDING")
      ("summary" ∷ "evidence" ∷ "recommendation" ∷ [])

unfoldable pub check_findings : List String → List Value → Result (Unit {0})
check_findings seen [] = ok tt
check_findings seen (finding ∷ findings) =
    check_finding seen finding >> check_findings (text_of (get finding "id") ∷ seen) findings

unfoldable pub check_scope : Value → Result (Unit {0})
check_scope scope = do
  closed_object scope ("paths" ∷ "maxLines" ∷ "workflowDigest" ∷ [])
  assert
      (is_array (get scope "paths")
        && ltb 0 (length (elems (get scope "paths")))
        && leb (length (elems (get scope "paths"))) 20)
      "INVALID_SCOPE"
  for_each check_relative (elems (get scope "paths"))
  assert (is_safe_positive (get scope "maxLines") && leb (nat_of (get scope "maxLines")) 300)
      "INVALID_SCOPE"
  check_sandy_digest (get scope "workflowDigest")

abbrev is_date : Host → Value → Bool
is_date host v = elim (date_of host v) [ none ↦ false | some t ↦ true ]

abbrev is_empty : List Value → Bool
is_empty [] = true
is_empty (v ∷ vs) = false

-- `validateSandyReview(result)`.
unfoldable pub validate_sandy_review : Host → Value → Result (Unit {0})
validate_sandy_review host r = do
  closed_object r (
      "format" ∷ "version" ∷ "status" ∷ "reviewerId" ∷ "authority" ∷ "scope" ∷ "findings"
      ∷ "receivedAt" ∷ [])
  assert (is_text (get r "format") "agent-harness.sandy-review.v1") "UNSUPPORTED_FORMAT"
  assert (is_number (get r "version") 1) "UNSUPPORTED_VERSION"
  assert (is_one_of ("RECEIVED" ∷ "UNAVAILABLE" ∷ []) (get r "status")) "INVALID_STATUS"
  assert (is_text (get r "reviewerId") "sandy-ux-reviewer") "INVALID_REVIEWER"
  assert (is_text (get r "authority") "READ_ONLY_REVIEW") "AUTHORITY_ESCALATION"
  check_scope (get r "scope")
  assert (is_array (get r "findings") && leb (length (elems (get r "findings"))) 20)
      "INVALID_FINDINGS"
  check_findings [] (elems (get r "findings"))
  assert (not (is_text (get r "status") "UNAVAILABLE") || is_empty (elems (get r "findings")))
      "INVALID_FINDINGS"
  assert
      (is_undefined (get r "receivedAt")
        || (is_string (get r "receivedAt") && is_date host (get r "receivedAt")))
      "INVALID_TIMESTAMP"

-- What is reported of a verified review.
pub record VerifiedReview : Type 0 where
  pub available : Bool
  pub findings : List Value

unfoldable pub bind_review : (expected allowed : Value) → Value → Result VerifiedReview
bind_review expected allowed r = do
  assert (strict_equal (get (get r "scope") "workflowDigest") expected) "WORKFLOW_DIGEST_MISMATCH"
  assert
      (all (λ path. includes (text_of path) (strings_of allowed))
        (elems (get (get r "scope") "paths")))
      "SCOPE_ESCALATION"
  ok (record { available = true; findings = elems (get r "findings") })

-- `verifySandyReviewScope({ result, expectedWorkflowDigest, allowedPaths })`.
unfoldable pub verify_sandy_review_scope :
    Host → (r expected allowed : Value) → Result VerifiedReview
verify_sandy_review_scope host r expected allowed = do
  validate_sandy_review host r
  check_sandy_digest expected
  assert (is_string_array allowed) "INVALID_SCOPE"
  (if is_text (get r "status") "UNAVAILABLE"
      then ok (record { available = false; findings = [] })
      else bind_review expected allowed r)
