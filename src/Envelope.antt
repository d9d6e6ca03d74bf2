-- ===== src/Envelope.antt =====
-- src/capability-envelope.mjs: the authorization that goes with an adapter invocation.
pub mod Laws
use bounded_agent_harness.Prelude.{
  ℕ, ◌<◌, String, Bool, true, false, not, ◌&&◌, ◌||◌, Option, none, some, List, [], ◌∷◌, ltb, leb,
  if◌then◌else◌, str_eq, includes, all, Result, ok, err, ◌>>=◌, ◌>>◌, assert, for_each, length,
  ◌==◌,
}
use bounded_agent_harness.Json.{
  Value, num, nat, str, get, keys, is_object, is_array, is_string, is_text, is_undefined,
  is_safe_natural, is_safe_positive, is_truthy, text_of, nat_of, object_of,
}
use bounded_agent_harness.Json.Text.{codes, is_digit, utf16_length}
use bounded_agent_harness.Json.Canonical.{Host}
use bounded_agent_harness.Contracts.{is_nonempty_text, is_key}

-- `text(value, label)`.
unfoldable pub check_text : Value → Result (Unit {0})
check_text v = assert (is_nonempty_text v) "INVALID_CAPABILITY_ENVELOPE"

-- `max_effects` is 0 for a read and 1 for any other effect.
unfoldable pub max_effects : Value → ℕ
max_effects effect = if is_text effect "read" then 0 else 1

unfoldable pub build_capability_envelope :
    (run_id workflow_digest : Value) (step attempt expires_at : Value) → Result Value
unfolding max_effects
build_capability_envelope run_id workflow_digest step attempt expires_at = do
  check_text run_id
  check_text workflow_digest
  assert (is_object step || is_array step) "INVALID_CAPABILITY_ENVELOPE"
  assert (is_safe_positive attempt) "INVALID_CAPABILITY_ENVELOPE"
  check_text expires_at
  check_text (get step "id")
  check_text (get step "capability")
  check_text (get step "authority")
  check_text (get step "adapter")
  check_text (get step "effect")
  ok (
      object_of (
        ("format", str "agent-harness.adapter-invocation.v1")
        ∷ ("runId", run_id)
        ∷ ("stepId", get step "id")
        ∷ ("attempt", attempt)
        ∷ ("workflowDigest", workflow_digest)
        ∷ (
          "authorization",
          object_of (
              ("allowedCapability", get step "capability")
              ∷ ("allowedAuthority", get step "authority")
              ∷ ("allowedAdapter", get step "adapter")
              ∷ ("allowedEffect", get step "effect")
              ∷ ("maxEffects", num (nat (max_effects (get step "effect"))))
              ∷ ("expiresAt", expires_at)
              ∷ []),
        )
        ∷ ("idempotencyKey", get step "idempotencyKey")
        ∷ []))

-- /^\d{4}-\d{2}-\d{2}T\d{2}:\d{2}:\d{2}\.\d{3}Z$/, as a shape: a 0 of the shape is any digit.
unfoldable pub fits_shape : List ℕ → List ℕ → Bool
fits_shape [] [] = true
fits_shape (p ∷ ps) (c ∷ cs) = (if p == 48 then is_digit c else p == c) && fits_shape ps cs
fits_shape _ _ = false

unfoldable pub is_iso_instant : String → Bool
unfolding fits_shape is_digit
is_iso_instant s = fits_shape (codes "0000-00-00T00:00:00.000Z") (codes s)

-- `a === b` between two texts; a text that was checked is never equal to what is no text.
unfoldable pub same_text : Value → Value → Bool
same_text a b = is_string a && is_text b (text_of a)

-- `Date.parse(text) > now`; false for NaN.
unfoldable pub is_after : Option ℕ → ℕ → Bool
is_after none now = false
is_after (some t) now = ltb now t

abbrev auth_keys : List String
auth_keys =
    "allowedCapability" ∷ "allowedAuthority" ∷ "allowedAdapter" ∷ "allowedEffect" ∷ "maxEffects"
    ∷ "expiresAt" ∷ []

-- The checks of the envelope by itself.
unfoldable pub check_envelope : Host → ℕ → Value → Result (Unit {0})
check_envelope host now envelope = do
  assert (is_text (get envelope "format") "agent-harness.adapter-invocation.v1")
      "INVALID_CAPABILITY_ENVELOPE"
  check_text (get envelope "runId")
  check_text (get envelope "stepId")
  check_text (get envelope "workflowDigest")
  assert (is_safe_positive (get envelope "attempt")) "INVALID_CAPABILITY_ENVELOPE"
  assert (is_object (get envelope "authorization")) "INVALID_CAPABILITY_ENVELOPE"
  let auth = get envelope "authorization"
  for_each (λ key. assert (includes key auth_keys) "INVALID_CAPABILITY_ENVELOPE") (keys auth)
  check_text (get auth "allowedCapability")
  check_text (get auth "allowedAuthority")
  check_text (get auth "allowedAdapter")
  assert
      (is_string (get auth "allowedEffect")
        && includes (text_of (get auth "allowedEffect")) ("read" ∷ "local" ∷ "external" ∷ []))
      "INVALID_CAPABILITY_ENVELOPE"
  assert (is_safe_natural (get auth "maxEffects") && leb (nat_of (get auth "maxEffects")) 1)
      "INVALID_CAPABILITY_ENVELOPE"
  assert (is_string (get auth "expiresAt") && is_iso_instant (text_of (get auth "expiresAt")))
      "INVALID_CAPABILITY_ENVELOPE"
  assert (is_after (host.parse_date (text_of (get auth "expiresAt"))) now) "CAPABILITY_EXPIRED"

-- `if (handoff) { … }`.
unfoldable pub check_handoff : (envelope handoff : Value) → Result (Unit {0})
check_handoff envelope handoff =
    if is_truthy handoff
    then (do
      let auth = get envelope "authorization"
      assert (same_text (get envelope "runId") (get handoff "runId")) "CAPABILITY_MISMATCH"
      assert (same_text (get envelope "stepId") (get handoff "stepId")) "CAPABILITY_MISMATCH"
      assert (same_text (get envelope "workflowDigest") (get handoff "workflowDigest"))
          "CAPABILITY_MISMATCH"
      assert (same_text (get auth "allowedCapability") (get handoff "capability"))
          "CAPABILITY_MISMATCH"
      assert (same_text (get auth "allowedAuthority") (get handoff "authority"))
          "CAPABILITY_MISMATCH")
    else ok tt

unfoldable pub validate_capability_envelope :
    Host → (now : ℕ) → (envelope handoff adapter_id : Value) → Result Value
validate_capability_envelope host now envelope handoff adapter_id = do
  let auth = get envelope "authorization"
  check_envelope host now envelope
  check_handoff envelope handoff
  assert (not (is_truthy adapter_id) || same_text (get auth "allowedAdapter") adapter_id)
      "CAPABILITY_MISMATCH"
  assert (not (is_text (get auth "allowedEffect") "read") || nat_of (get auth "maxEffects") == 0)
      "CAPABILITY_MISMATCH"
  assert
      (not (is_text (get auth "allowedEffect") "external")
        || is_key (get envelope "idempotencyKey"))
      "CAPABILITY_MISMATCH"
  ok envelope
