-- ===== src/Examples/Tokens.antt =====
-- The theorems on packets and on pruning, at concrete values.
use bounded_agent_harness.Json
use bounded_agent_harness.Prelude
use bounded_agent_harness.Queue
use bounded_agent_harness.Tokens
use bounded_agent_harness.Prelude.{
  ℕ, ◌+◌, ◌≤◌, ◌≡◌, ◌⊎◌, inl, refl, String, Bool, true, false, none, some, List, [], ◌∷◌, Result,
  ok, err, All,
}
use bounded_agent_harness.Json.{nat_of, Value, str, bool, get}
use bounded_agent_harness.TokenEstimate.{default_policy}
use bounded_agent_harness.Tokens.Packet.{id_le, build_context_packet, verify_context_packet}
use bounded_agent_harness.Tokens.Packet.Laws.{verify_context_packet-build}
use bounded_agent_harness.Tokens.Pruning.{Pruning, prune_context_records, total_tokens}
use bounded_agent_harness.Tokens.Pruning.Laws.{prune_context_records-within}
use bounded_agent_harness.Examples.Data.{object, array, number, value_of}
use bounded_agent_harness.Examples.Memory.{clock_host}

abbrev digest : Value
digest = str "sha256:0123456789abcdef0123456789abcdef0123456789abcdef0123456789abcdef"

abbrev reference : Value
reference = object (
    ("format", str "agent-harness.artifact-reference.v1")
    ∷ ("id", str "report")
    ∷ ("digest", digest)
    ∷ [])

abbrev args : Value
args = object (
    ("stable", object (("role", str "analyst") ∷ []))
    ∷ ("delta", object (("step", str "collect") ∷ []))
    ∷ ("references", array (reference ∷ []))
    ∷ (
      "omitted",
      array (object (("id", str "old") ∷ ("reason", str "stale") ∷ ("note", number 1) ∷ []) ∷ []),
    )
    ∷ [])

abbrev packet : Value
packet = value_of args (build_context_packet clock_host args)

id_le-total : (x y : Value) → (id_le clock_host x y ≡ true) ⊎ (id_le clock_host y x ≡ true)
unfolding id_le
id_le-total x y = inl refl

verify_context_packet-build_example : verify_context_packet clock_host packet ≡ ok packet
unfolding Json.elems get Json.is_array Json.is_object Json.is_string Json.is_text Json.is_undefined
    Json.text_of Json.Text.is_digest Json.Text.is_not_blank Prelude.for_each Prelude.map_each
    Queue.Validate.or_default Tokens.check_digest Tokens.check_object Tokens.check_reference
    Tokens.check_text build_context_packet Tokens.Packet.omitted_item Tokens.Packet.packet_of
verify_context_packet-build_example =
    verify_context_packet-build clock_host args packet id_le-total refl

abbrev context : String → ℕ → Bool → Value
context id tokens required = object (
    ("id", str id)
    ∷ ("text", str "notes")
    ∷ ("tokenCount", number tokens)
    ∷ ("required", bool required)
    ∷ [])

abbrev records : Value
records = array (context "rules" 4 true ∷ context "history" 9 false ∷ context "hints" 3 false ∷ [])

abbrev no_pruning : Pruning
no_pruning = record {
  max_tokens = 0;
  estimated_tokens = 0;
  selected = [];
  omitted = [];
  digest = "";
}

abbrev pruned : Pruning
pruned = value_of no_pruning (prune_context_records clock_host records (number 10) default_policy)

prune_context_records-within_example :
    (total_tokens pruned.selected ≤ pruned.estimated_tokens)
    × (pruned.estimated_tokens ≤ nat_of (number 10))
    × (pruned.max_tokens ≡ nat_of (number 10))
    × All (λ r. r.required ≡ false) pruned.omitted
unfolding Json.elems get Json.is_array Json.is_object Json.is_safe_natural Json.is_string
    Json.is_true Json.is_undefined nat_of Json.text_of Json.Text.is_not_blank
    Queue.Validate.or_default Tokens.check_integer Tokens.check_object Tokens.check_text
    Tokens.Pruning.count_tokens Tokens.Pruning.normalize_record Tokens.Pruning.normalize_records
    prune_context_records Tokens.Pruning.prune_normalized total_tokens
prune_context_records-within_example =
    prune_context_records-within clock_host records (number 10) default_policy pruned refl
