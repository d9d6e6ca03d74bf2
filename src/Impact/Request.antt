-- ===== src/Impact/Request.antt =====
-- src/change-impact.mjs: the request for an analysis and the catalog of verifications, normalized.
use bounded_agent_harness.Prelude.{
  ℕ, String, Bool, true, false, not, ◌&&◌, ◌||◌, List, [], ◌∷◌, map, leb, any, all, length,
  includes, if◌then◌else◌, Result, ok, err, assert, ◌>>=◌, ◌>>◌, none, some,
}
use bounded_agent_harness.Json.{
  Value, get, is_array, is_object, is_string, is_text, is_true, elems, keys, text_of,
}
use bounded_agent_harness.Json.Text.{codes, head_and_tail, is_lower, is_digit, is_id_char}
use bounded_agent_harness.Impact.{Paths}
use bounded_agent_harness.Impact.Fields.{
  Tier, ChangeKind, tier_of, kind_of, needs_boundary, is_control, has_length, portable_path,
  check_token, unique_sorted, optional_sorted, with_final_slash, full,
}

pub record Entry : Type 0 where
  pub id : String
  pub tier : Tier
  pub command : String
  pub paths : List String
  pub prefixes : List String
  pub tokens : List String
  pub global : Bool

-- /^[a-z0-9][a-z0-9._-]{0,79}$/
abbrev lower_or_digit : ℕ → Bool
lower_or_digit c = is_lower c || is_digit c

unfoldable pub is_impact_id : Value → Bool
is_impact_id v = is_string v && head_and_tail lower_or_digit is_id_char 0 79 (codes (text_of v))

unfoldable pub has_only : List String → Value → Bool
has_only allowed v = all (λ key. includes key allowed) (keys v)

abbrev is_line : Value → ℕ → Bool
is_line v most =
    is_string v && has_length (text_of v) most && not (any is_control (codes (text_of v)))

abbrev is_full : Tier → Bool
is_full full = true
is_full tier = false

abbrev is_nonempty : List String → Bool
is_nonempty [] = false
is_nonempty (x ∷ xs) = true

-- What is checked of an entry before its coverage is read.
unfoldable pub check_entry : List String → Value → Result (Unit {0})
check_entry seen entry = do
  assert (is_object entry) "INVALID_VERIFICATION_CATALOG"
  assert (has_only ("id" ∷ "tier" ∷ "command" ∷ "covers" ∷ []) entry) "INVALID_VERIFICATION_CATALOG"
  assert (is_impact_id (get entry "id")) "INVALID_VERIFICATION_CATALOG"
  assert (not (includes (text_of (get entry "id")) seen)) "INVALID_VERIFICATION_CATALOG"

abbrev known_tier : Value → Result Tier
known_tier v =
    if is_string v
    then elim (tier_of (text_of v)) [
      | none ↦ err "INVALID_VERIFICATION_CATALOG"
      | some tier ↦ ok tier
    ]
    else err "INVALID_VERIFICATION_CATALOG"

unfoldable pub normalize_entry : Paths → List String → Value → Result Entry
normalize_entry paths seen entry = do
  let covers = get entry "covers"
  let global = is_true (get covers "global")
  check_entry seen entry
  tier ← known_tier (get entry "tier")
  assert (is_line (get entry "command") 500) "INVALID_VERIFICATION_CATALOG"
  assert (is_object covers) "INVALID_VERIFICATION_CATALOG"
  assert (has_only ("paths" ∷ "prefixes" ∷ "tokens" ∷ "global" ∷ []) covers)
      "INVALID_VERIFICATION_CATALOG"
  covered ← optional_sorted (portable_path paths) 100 (get covers "paths")
  prefixes ← optional_sorted (portable_path paths) 100 (get covers "prefixes")
  tokens ← optional_sorted check_token 50 (get covers "tokens")
  assert (global || is_nonempty covered || is_nonempty prefixes || is_nonempty tokens)
      "INVALID_VERIFICATION_CATALOG"
  assert (not (is_full tier) || global) "INVALID_VERIFICATION_CATALOG"
  ok (record {
    id = text_of (get entry "id");
    tier = tier;
    command = text_of (get entry "command");
    paths = covered;
    prefixes = map with_final_slash prefixes;
    tokens = tokens;
    global = global;
  })

unfoldable pub normalize_entries : Paths → List String → List Value → Result (List Entry)
normalize_entries paths seen [] = ok []
normalize_entries paths seen (v ∷ vs) = do
  entry ← normalize_entry paths seen v
  entries ← normalize_entries paths (entry.id ∷ seen) vs
  ok (entry ∷ entries)

-- `normalizeCatalog(entries)`.
unfoldable pub normalize_catalog : Paths → Value → Result (List Entry)
normalize_catalog paths v = do
  assert (is_array v && leb 1 (length (elems v)) && leb (length (elems v)) 100)
      "INVALID_VERIFICATION_CATALOG"
  normalize_entries paths [] (elems v)

pub record Request : Type 0 where
  pub change_id : String
  pub outcome : String
  pub kind : ChangeKind
  pub kind_text : String
  pub changed_paths : List String
  pub reference_tokens : List String
  pub catalog : List Entry
  pub external_gates : List String
  pub ignored_prefixes : List String

abbrev known_kind : Value → Result ChangeKind
known_kind v =
    if is_string v
    then elim (kind_of (text_of v)) [ none ↦ err "INVALID_CHANGE_IMPACT" | some kind ↦ ok kind ]
    else err "INVALID_CHANGE_IMPACT"

abbrev request_keys : List String
request_keys =
    "schema_version" ∷ "change_id" ∷ "outcome" ∷ "change_kind" ∷ "changed_paths"
    ∷ "reference_tokens" ∷ "verification_catalog" ∷ "external_gates" ∷ "ignored_prefixes" ∷ []

-- `normalizeRequest(request)`.
unfoldable pub normalize_request : Paths → Value → Result Request
normalize_request paths r = do
  assert (is_object r) "INVALID_CHANGE_IMPACT"
  assert (has_only request_keys r) "INVALID_CHANGE_IMPACT"
  assert (is_text (get r "schema_version") "change-impact-request.v1") "INVALID_CHANGE_IMPACT"
  assert (is_impact_id (get r "change_id")) "INVALID_CHANGE_IMPACT"
  assert (is_line (get r "outcome") 240) "INVALID_CHANGE_IMPACT"
  kind ← known_kind (get r "change_kind")
  changed ← unique_sorted (portable_path paths) 50 (get r "changed_paths")
  assert (is_nonempty changed) "INVALID_CHANGE_IMPACT"
  tokens ← optional_sorted check_token 30 (get r "reference_tokens")
  assert (not (needs_boundary kind) || is_nonempty tokens) "INVALID_CHANGE_IMPACT"
  gates ← optional_sorted check_token 20 (get r "external_gates")
  ignored ← optional_sorted (portable_path paths) 50 (get r "ignored_prefixes")
  catalog ← normalize_catalog paths (get r "verification_catalog")
  ok (record {
    change_id = text_of (get r "change_id");
    outcome = text_of (get r "outcome");
    kind = kind;
    kind_text = text_of (get r "change_kind");
    changed_paths = changed;
    reference_tokens = tokens;
    catalog = catalog;
    external_gates = gates;
    ignored_prefixes = map with_final_slash ignored;
  })
