-- ===== src/Tokens/Pruning.antt =====
-- src/token-efficiency.mjs: the records of context that fit into a budget of tokens.
pub mod Weight
pub mod Laws
use bounded_agent_harness.Prelude.{
  ℕ, ◌+◌, String, Bool, true, false, not, ◌&&◌, List, [], ◌∷◌, ◌++◌, map, ltb, leb, ◌==◌, select,
  includes, if◌then◌else◌, Result, ok, err, assert, ◌>>=◌, ◌>>◌,
}
use bounded_agent_harness.Json.{
  Value, num, nat, str, arr, get, is_array, is_true, is_undefined, elems, text_of, nat_of,
  object_of, to_items,
}
use bounded_agent_harness.Json.Text.{sort}
use bounded_agent_harness.Json.Canonical.{Host, digest_of}
use bounded_agent_harness.Queue.Validate.{or_default}
use bounded_agent_harness.TokenEstimate.{CapacityPolicy, check_policy, estimate_token_count}
use bounded_agent_harness.Tokens.{check_text, check_integer, check_object}

-- A normalized record; the index that the source also keeps is never read.
pub record ContextRecord : Type 0 where
  pub id : String
  pub text : String
  pub token_count : ℕ
  pub priority : ℕ
  pub required : Bool
  pub digest : String

unfoldable pub count_tokens : (text : String) → CapacityPolicy → Value → Result ℕ
count_tokens text policy given =
    if is_undefined given
    then check_policy policy >> ok (estimate_token_count text policy)
    else check_integer given >> ok (nat_of given)

-- The mapping of `records`, with the ids that it has seen.
unfoldable pub normalize_record : Host → CapacityPolicy → List String → Value → Result ContextRecord
normalize_record host policy seen r = do
  let priority = or_default (get r "priority") (num (nat 0))
  check_object r
  check_text (get r "id")
  assert (not (includes (text_of (get r "id")) seen)) "DUPLICATE_CONTEXT_RECORD"
  check_text (get r "text")
  tokens ← count_tokens (text_of (get r "text")) policy (get r "tokenCount")
  check_integer priority
  ok (record {
    id = text_of (get r "id");
    text = text_of (get r "text");
    token_count = tokens;
    priority = nat_of priority;
    required = is_true (get r "required");
    digest = digest_of host (object_of (("id", get r "id") ∷ ("text", get r "text") ∷ []));
  })

unfoldable pub normalize_records :
    Host → CapacityPolicy → List String → List Value → Result (List ContextRecord)
normalize_records host policy seen [] = ok []
normalize_records host policy seen (v ∷ vs) = do
  r ← normalize_record host policy seen v
  rs ← normalize_records host policy (r.id ∷ seen) vs
  ok (r ∷ rs)

unfoldable pub total_tokens : List ContextRecord → ℕ
total_tokens [] = 0
total_tokens (r ∷ rs) = r.token_count + total_tokens rs

-- Higher priority first, then fewer tokens, then the id.
unfoldable pub goes_before : Host → ContextRecord → ContextRecord → Bool
goes_before host a b =
    if not (a.priority == b.priority)
    then ltb b.priority a.priority
    else if not (a.token_count == b.token_count)
    then ltb a.token_count b.token_count
    else host.locale_le a.id b.id

-- The loop over the optional records: the ids selected, and the tokens used.
unfoldable pub choose : (max used : ℕ) (ids : List String) → List ContextRecord → List String × ℕ
choose max used ids [] = (ids, used)
choose max used ids (r ∷ rs) =
    let fits = leb (used + r.token_count) max in
    choose max (if fits then used + r.token_count else used) (if fits then r.id ∷ ids else ids) rs

abbrev pub is_required : ContextRecord → Bool
is_required r = r.required

abbrev pub id_of : ContextRecord → String
id_of r = r.id

abbrev pub is_selected : List String → ContextRecord → Bool
is_selected ids r = includes r.id ids

pub record Pruning : Type 0 where
  pub max_tokens : ℕ
  pub estimated_tokens : ℕ
  pub selected : List ContextRecord
  pub omitted : List ContextRecord
  pub digest : String

abbrev selected_value : ContextRecord → Value
selected_value r = object_of (
    ("id", str r.id)
    ∷ ("text", str r.text)
    ∷ ("tokenCount", num (nat r.token_count))
    ∷ ("priority", num (nat r.priority))
    ∷ ("digest", str r.digest)
    ∷ [])

abbrev omitted_value : ContextRecord → Value
omitted_value r = object_of (
    ("id", str r.id)
    ∷ ("tokenCount", num (nat r.token_count))
    ∷ ("digest", str r.digest)
    ∷ ("reason", str "TOKEN_CONTEXT_BUDGET")
    ∷ [])

unfoldable pub pruning_digest : Host → (max : ℕ) → (selected omitted : List ContextRecord) → String
pruning_digest host max selected omitted = digest_of host (
    object_of (
      ("format", str "agent-harness.context-pruning.v1")
      ∷ ("version", num (nat 1))
      ∷ ("maxTokens", num (nat max))
      ∷ ("selected", arr (to_items (map selected_value selected)))
      ∷ ("omitted", arr (to_items (map omitted_value omitted)))
      ∷ []))

-- The result for the records, the selected ids and the tokens used.
unfoldable pub pruning_of : Host → (max : ℕ) → List ContextRecord → List String × ℕ → Pruning
pruning_of host max records (ids, used) =
    let selected = select (is_selected ids) records in
    let omitted = select (λ r. not (is_selected ids r)) records in
    (record {
      max_tokens = max;
      estimated_tokens = used;
      selected = selected;
      omitted = omitted;
      digest = pruning_digest host max selected omitted;
    })

unfoldable pub prune_normalized : Host → (max : ℕ) → List ContextRecord → Result Pruning
prune_normalized host max records = do
  let required = select is_required records
  let optional = sort (goes_before host) (select (λ r. not r.required) records)
  assert (leb (total_tokens required) max) "TOKEN_CONTEXT_REQUIRED_OVERFLOW"
  ok (
      pruning_of host max records
        (choose max (total_tokens required) (map id_of required) optional))

-- `pruneContextRecords(records, { maxTokens, policy })`.
unfoldable pub prune_context_records :
    Host → Value → (max_tokens : Value) → CapacityPolicy → Result Pruning
prune_context_records host records max_tokens policy = do
  assert (is_array records) "INVALID_CONTEXT_RECORDS"
  check_integer max_tokens
  assert (ltb 0 (nat_of max_tokens)) "INVALID_CONTEXT_RECORDS"
  normalized ← normalize_records host policy [] (elems records)
  prune_normalized host (nat_of max_tokens) normalized
