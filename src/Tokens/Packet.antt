-- ===== src/Tokens/Packet.antt =====
-- src/token-efficiency.mjs: packets of context, their digests, and their texts.
pub mod Laws
use bounded_agent_harness.Prelude.{
  ℕ, String, Bool, true, false, not, Option, List, [], ◌∷◌, ◌++◌, if◌then◌else◌, Result, ok, err,
  assert, ◌>>=◌, ◌>>◌, for_each, map_each,
}
use bounded_agent_harness.Json.{
  Value, num, nat, str, obj, end, arr, nil, get, is_array, is_undefined, elems, text_of, object_of,
  to_items,
}
use bounded_agent_harness.Json.Text.{sort}
use bounded_agent_harness.Json.Canonical.{Host, digest_of, canonicalize, json_text}
use bounded_agent_harness.Queue.Validate.{or_default, strict_equal}
use bounded_agent_harness.TokenEstimate.{CapacityPolicy, check_policy, estimate_token_count}
use bounded_agent_harness.Tokens.{
  check_text, check_digest, check_object, if_given, field_if_given, check_reference,
}

-- `left.id.localeCompare(right.id) <= 0`.
unfoldable pub id_le : Host → Value → Value → Bool
id_le host a b = host.locale_le (text_of (get a "id")) (text_of (get b "id"))

unfoldable pub omitted_item : Value → Result Value
omitted_item item = do
  check_object item
  check_text (get item "id")
  check_text (get item "reason")
  if_given check_digest (get item "digest")
  ok (
      object_of (
        ("id", get item "id")
        ∷ ("reason", get item "reason")
        ∷ field_if_given "digest" (get item "digest")))

-- What is digested of a packet.
unfoldable pub unsigned_packet :
    (stable delta : Value) (references omitted : List Value) → List (String × Value)
unsigned_packet stable delta references omitted =
    ("format", str "agent-harness.context-packet.v1")
    ∷ ("version", num (nat 1))
    ∷ ("stable", stable)
    ∷ ("delta", delta)
    ∷ ("references", arr (to_items references))
    ∷ ("omitted", arr (to_items omitted))
    ∷ []

unfoldable pub sealed_packet :
    Host → (stable delta : Value) (references omitted : List Value) → Value
sealed_packet host stable delta references omitted = object_of (
    unsigned_packet stable delta references omitted
    ++ ("stableDigest", str (digest_of host stable))
      ∷ ("deltaDigest", str (digest_of host delta))
      ∷ (
        "digest",
        str (digest_of host (object_of (unsigned_packet stable delta references omitted))),
      )
      ∷ [])

abbrev pub empty_object : Value
empty_object = obj end

abbrev pub empty_array : Value
empty_array = arr nil

-- `buildContextPacket` on its arguments with their defaults.
unfoldable pub packet_of : Host → (stable delta references omitted : Value) → Result Value
packet_of host stable delta references omitted = do
  check_object stable
  check_object delta
  assert (is_array references) "INVALID_CONTEXT_PACKET"
  assert (is_array omitted) "INVALID_CONTEXT_PACKET"
  for_each check_reference (elems references)
  items ← map_each omitted_item (elems omitted)
  ok (
      sealed_packet host stable delta (sort (id_le host) (elems references))
        (sort (id_le host) items))

-- `buildContextPacket({ stable, delta, references, omitted })`.
unfoldable pub build_context_packet : Host → Value → Result Value
build_context_packet host args =
    packet_of host (or_default (get args "stable") empty_object)
      (or_default (get args "delta") empty_object) (or_default (get args "references") empty_array)
      (or_default (get args "omitted") empty_array)

-- `verifyContextPacket(packet)`.
unfoldable pub verify_context_packet : Host → Value → Result Value
verify_context_packet host packet = do
  rebuilt ← build_context_packet host packet
  assert (strict_equal (get packet "stableDigest") (get rebuilt "stableDigest"))
      "CONTEXT_STABLE_DRIFT"
  assert (strict_equal (get packet "deltaDigest") (get rebuilt "deltaDigest")) "CONTEXT_DELTA_DRIFT"
  assert (strict_equal (get packet "digest") (get rebuilt "digest")) "CONTEXT_PACKET_TAMPERED"
  ok rebuilt

-- `renderContextPacket(packet)`.
unfoldable pub render_context_packet : Host → Value → Result String
render_context_packet host packet = do
  verified ← verify_context_packet host packet
  ok (
      json_text (
        object_of (
          ("stable", get verified "stable")
          ∷ ("delta", get verified "delta")
          ∷ ("references", get verified "references")
          ∷ ("omitted", get verified "omitted")
          ∷ [])))

-- `contextPacketTokenEstimate(packet, policy)` and `contextPacketCanonicalText(packet)`.
unfoldable pub context_packet_token_estimate : Host → Value → CapacityPolicy → Result ℕ
context_packet_token_estimate host packet policy = do
  text ← render_context_packet host packet
  check_policy policy
  ok (estimate_token_count text policy)

unfoldable pub context_packet_canonical_text : Host → Value → Result (Option String)
context_packet_canonical_text host packet = do
  verified ← verify_context_packet host packet
  ok (canonicalize verified)
