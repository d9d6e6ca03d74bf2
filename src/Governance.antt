-- ===== src/Governance.antt =====
-- src/governance.mjs: governed atoms, bundles and evidence, and the standing queries over them. The
-- assessment of a promotion is in the child.
pub mod Promotion
pub mod Laws
use bounded_agent_harness.Prelude.{
  ℕ, ◌+◌, ◌*◌, ◌≤◌, String, Bool, true, false, not, ◌&&◌, ◌||◌, Option, none, some, List, [], ◌∷◌,
  ◌++◌, ltb, leb, ◌==◌, if◌then◌else◌, includes, distinct, all, any, select, find, Result, ok, err,
  ◌>>=◌, ◌>>◌, assert, for_each, str_eq,
}
use bounded_agent_harness.Json.{
  Value, null, get, keys, is_string, is_text, is_number, is_array, is_boolean, is_true,
  is_undefined, is_safe_natural, is_safe_positive, strings_of, elems, text_of, nat_of,
  closed_object,
}
use bounded_agent_harness.Json.Text.{is_stable_id, is_not_blank, is_digest}
use bounded_agent_harness.Json.Canonical.{Host, digest_of}
use bounded_agent_harness.Floor.{stable_id, unique_strings}

-- The levels FLOOR 0, CONTRACT 1, DOMAIN 2, CONSISTENCY 3, RECONCILIATION 4 and EXECUTION 5.
unfoldable pub level_name : Value → Result String
level_name v =
    if is_number v 0
    then ok "FLOOR"
    else if is_number v 1
    then ok "CONTRACT"
    else if is_number v 2
    then ok "DOMAIN"
    else if is_number v 3
    then ok "CONSISTENCY"
    else if is_number v 4
    then ok "RECONCILIATION"
    else if is_number v 5
    then ok "EXECUTION"
    else err "INVALID_REVIEW_LEVEL"

abbrev enforcement_points : List String
enforcement_points = "compile" ∷ "authorize" ∷ "lease" ∷ "invoke" ∷ "reconcile" ∷ []

abbrev evidence_kinds : List String
evidence_kinds =
    "accepted-output" ∷ "contract-violation" ∷ "composition-defect" ∷ "unenforced-binding"
    ∷ "identity-mismatch" ∷ "cost-overrun" ∷ "reconciliation" ∷ []

-- `SET.has(value)`.
abbrev pub one_of : List String → Value → Bool
one_of texts v = is_string v && includes (text_of v) texts

-- `level(value);`, for the check alone.
abbrev pub check_level : Value → Result (Unit {0})
check_level v = level_name v >>= λ _. ok tt

unfoldable pub validate_governed_atom : Value → Result (Unit {0})
validate_governed_atom atom = do
  closed_object atom (
      "id" ∷ "version" ∷ "statement" ∷ "reviewLevel" ∷ "enforcementPoints" ∷ "requiredEvidence"
      ∷ "blastRadius" ∷ "humanFloorRequired" ∷ "authorityMode" ∷ "status" ∷ "supersedes" ∷ [])
  stable_id (get atom "id")
  assert (is_number (get atom "version") 1) "UNSUPPORTED_VERSION"
  assert (is_string (get atom "statement") && is_not_blank (text_of (get atom "statement")))
      "INVALID_TYPE"
  check_level (get atom "reviewLevel")
  assert (is_array (get atom "enforcementPoints")) "INVALID_TYPE"
  unique_strings (get atom "enforcementPoints")
  for_each (λ point. assert (includes point enforcement_points) "INVALID_ENFORCEMENT_POINT")
      (strings_of (get atom "enforcementPoints"))
  unique_strings (get atom "requiredEvidence")
  for_each (λ kind. assert (includes kind evidence_kinds) "INVALID_EVIDENCE_KIND")
      (strings_of (get atom "requiredEvidence"))
  assert (one_of ("low" ∷ "medium" ∷ "high" ∷ []) (get atom "blastRadius")) "INVALID_BLAST_RADIUS"
  assert (is_boolean (get atom "humanFloorRequired")) "INVALID_TYPE"
  assert (is_text (get atom "authorityMode") "NARROW_ONLY") "AUTHORITY_MODE_INVALID"
  assert (one_of ("ACTIVE" ∷ "SUPERSEDED" ∷ "REVOKED" ∷ []) (get atom "status")) "INVALID_STATUS"
  (if is_undefined (get atom "supersedes") then ok tt else stable_id (get atom "supersedes"))
  if is_number (get atom "reviewLevel") 0 || is_text (get atom "blastRadius") "high"
      then assert (is_true (get atom "humanFloorRequired")) "HUMAN_FLOOR_REQUIRED"
      else ok tt

unfoldable pub validate_governance_evidence : Value → Result (Unit {0})
validate_governance_evidence evidence = do
  closed_object evidence
      ("atomId" ∷ "specialistId" ∷ "kind" ∷ "passed" ∷ "workflowDigest" ∷ "runId" ∷ "details" ∷ [])
  stable_id (get evidence "atomId")
  (if is_undefined (get evidence "specialistId")
      then ok tt
      else stable_id (get evidence "specialistId"))
  assert (one_of evidence_kinds (get evidence "kind")) "INVALID_EVIDENCE_KIND"
  assert (is_boolean (get evidence "passed")) "INVALID_TYPE"
  assert
      (is_string (get evidence "workflowDigest")
        && is_digest (text_of (get evidence "workflowDigest")))
      "INVALID_DIGEST"
  assert (is_string (get evidence "runId") && not (str_eq (text_of (get evidence "runId")) ""))
      "INVALID_TYPE"
  let details = get evidence "details"
  (if is_undefined details
      then ok tt
      else closed_object details ("message" ∷ "acceptanceCriteriaWeakened" ∷ []))
  assert
      (is_undefined (get details "acceptanceCriteriaWeakened")
        || is_boolean (get details "acceptanceCriteriaWeakened"))
      "INVALID_TYPE"

abbrev pub atom_id : Value → String
atom_id atom = text_of (get atom "id")

abbrev pub atom_ids : List Value → List String
atom_ids [] = []
atom_ids (atom ∷ atoms) = atom_id atom ∷ atom_ids atoms

-- `atoms.find((candidate) => candidate.id === id)`, behind the test that the id is known.
abbrev pub find_atom : String → List Value → Option Value
find_atom id atoms = find (λ atom. str_eq (atom_id atom) id) atoms

unfoldable pub is_empty_array : Value → Bool
is_empty_array v = elim (elems v) [ [] ↦ true | _ ↦ false ]

unfoldable pub check_found : Option Value → Result (Unit {0})
unfolding is_empty_array
check_found none = err "UNKNOWN_ATOM"
check_found (some atom) = do
  assert (is_text (get atom "status") "ACTIVE") "INACTIVE_ATOM"
  assert (not (is_empty_array (get atom "enforcementPoints"))) "UNENFORCED_RULE"

unfoldable pub check_required : List Value → String → Result (Unit {0})
unfolding check_found
check_required atoms id = do
  assert (includes id (atom_ids atoms)) "UNKNOWN_ATOM"
  check_found (find_atom id atoms)

unfoldable pub validate_governance_bundle : Value → Result (Unit {0})
unfolding for_each check_required is_empty_array
validate_governance_bundle bundle = do
  closed_object bundle ("version" ∷ "atoms" ∷ "requiredAtomIds" ∷ "authorityMode" ∷ [])
  assert (is_number (get bundle "version") 1) "UNSUPPORTED_VERSION"
  assert (is_text (get bundle "authorityMode") "NARROW_ONLY") "AUTHORITY_MODE_INVALID"
  let atoms = elems (get bundle "atoms")
  assert (not (is_empty_array (get bundle "atoms"))) "INVALID_ATOMS"
  for_each validate_governed_atom atoms
  assert (distinct (atom_ids atoms)) "DUPLICATE_ATOM"
  assert (not (is_empty_array (get bundle "requiredAtomIds"))) "INVALID_ATOMS"
  unique_strings (get bundle "requiredAtomIds")
  for_each (check_required atoms) (strings_of (get bundle "requiredAtomIds"))

-- `{ atomId, kind }` of an active rule with no passed evidence of a kind that it requires.
pub record Binding : Type 0 where
  pub atom : String
  pub kind : String

-- `{ atomId, specialistId: item.specialistId ?? null, runId }`, the fields as they stand.
pub record Defect : Type 0 where
  pub atom : Value
  pub specialist : Value
  pub run : Value

pub record Standing : Type 0 where
  pub unenforced_rules : List String
  pub unenforced_bindings : List Binding
  pub composition_defects : List Defect
  pub clean : Bool

-- `passed.get(atomId)?.has(kind)`: some evidence for the atom and of the kind has passed.
abbrev pub has_passed : List Value → String → String → Bool
has_passed evidence id kind =
    any
      (λ item.
        is_true (get item "passed")
        && str_eq (text_of (get item "atomId")) id
        && str_eq (text_of (get item "kind")) kind)
      evidence

abbrev pub is_active : Value → Bool
is_active atom = is_text (get atom "status") "ACTIVE"

unfoldable pub missing_kinds : List Value → String → List String → List Binding
missing_kinds evidence id [] = []
missing_kinds evidence id (kind ∷ kinds) =
    let rest = missing_kinds evidence id kinds in
    if has_passed evidence id kind then rest else record { atom = id; kind = kind } ∷ rest

unfoldable pub missing_bindings : List Value → List Value → List Binding
unfolding missing_kinds
missing_bindings evidence [] = []
missing_bindings evidence (atom ∷ atoms) =
    missing_kinds evidence (atom_id atom) (strings_of (get atom "requiredEvidence"))
    ++ missing_bindings evidence atoms

abbrev pub is_empty {ℓ} : {A : Type ℓ} → List A → Bool
is_empty [] = true
is_empty (x ∷ xs) = false

abbrev or_null : Value → Value
or_null v = if is_undefined v then null else v

abbrev pub is_defect : Value → Bool
is_defect item = is_text (get item "kind") "composition-defect" && is_true (get item "passed")

unfoldable pub defects_of : List Value → List Defect
defects_of [] = []
defects_of (item ∷ rest) =
    let later = defects_of rest in
    if is_defect item
    then record {
      atom = get item "atomId";
      specialist = or_null (get item "specialistId");
      run = get item "runId";
    }
      ∷ later
    else later

-- The queries, over a bundle and evidence that have been validated.
unfoldable pub standing_of : List Value → List Value → Standing
unfolding missing_bindings is_empty_array defects_of
standing_of atoms evidence =
    let active = select is_active atoms in
    let rules = atom_ids (select (λ atom. is_empty_array (get atom "enforcementPoints")) active) in
    let bindings = missing_bindings evidence active in
    let defects = defects_of evidence in
    record {
      unenforced_rules = rules;
      unenforced_bindings = bindings;
      composition_defects = defects;
      clean = is_empty rules && is_empty bindings && is_empty defects;
    }

unfoldable pub standing_governance_queries : Value → List Value → Result Standing
unfolding standing_of for_each
standing_governance_queries bundle evidence = do
  validate_governance_bundle bundle
  for_each validate_governance_evidence evidence
  ok (standing_of (elems (get bundle "atoms")) evidence)

unfoldable pub governance_digest : Host → Value → Result String
governance_digest host bundle = validate_governance_bundle bundle >> ok (digest_of host bundle)
