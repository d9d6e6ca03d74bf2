-- ===== src/TokenEstimate.antt =====
-- src/token-capacity.mjs: the policy over its defaults, and the estimate of what a request takes. A ratio
-- is an exact fraction here, where the source computes in floating point.
use bounded_agent_harness.Prelude.{
  ℕ, ◌+◌, ◌-◌, ◌*◌, ◌/◌, String, Bool, not, ◌&&◌, ◌||◌, List, [], ◌∷◌, ltb, if◌then◌else◌, Result,
  ok, ◌>>◌, assert,
}
use bounded_agent_harness.Json.{
  Value, get, is_object, is_array, is_string, is_undefined, is_safe_natural, nat_of, text_of,
}
use bounded_agent_harness.Json.Text.{codes}
use bounded_agent_harness.Json.Canonical.{canonical_text}

-- A non-negative number as a fraction; `den` is positive.
pub record Ratio : Type 0 where
  pub numerator : ℕ
  pub denominator : ℕ

-- A normalized policy: the caller's numbers over DEFAULT_TOKEN_CAPACITY_POLICY.
pub record CapacityPolicy : Type 0 where
  pub chars_per_token : Ratio
  pub safety_margin : Ratio
  pub minimum_headroom_tokens : ℕ
  pub red_zone_tokens : ℕ
  pub max_observation_age_ms : ℕ

abbrev pub default_policy : CapacityPolicy
default_policy = record {
  chars_per_token = record { numerator = 4; denominator = 1 };
  safety_margin = record { numerator = 1; denominator = 5 };
  minimum_headroom_tokens = 256;
  red_zone_tokens = 4096;
  max_observation_age_ms = 120000;
}

unfoldable pub is_integer : ℕ → Bool
is_integer n = ltb n 9007199254740992

-- `normalizedPolicy(policy)`.
unfoldable pub check_policy : CapacityPolicy → Result (Unit {0})
check_policy p = do
  assert (ltb 0 p.chars_per_token.numerator && ltb 0 p.chars_per_token.denominator)
      "INVALID_TOKEN_CAPACITY"
  assert (ltb 0 p.safety_margin.denominator) "INVALID_TOKEN_CAPACITY"
  assert (is_integer p.minimum_headroom_tokens) "INVALID_TOKEN_CAPACITY"
  assert (is_integer p.red_zone_tokens) "INVALID_TOKEN_CAPACITY"
  assert (is_integer p.max_observation_age_ms) "INVALID_TOKEN_CAPACITY"

-- `Math.ceil(a / b)` for a positive b.
unfoldable pub ceil_div : ℕ → ℕ → ℕ
ceil_div a b = (a + (b - 1)) / b

-- `Buffer.byteLength(text, "utf8")`.
unfoldable pub byte_length : List ℕ → ℕ
byte_length [] = 0
byte_length (c ∷ cs) =
    (if ltb c 128 then 1 else if ltb c 2048 then 2 else if ltb c 65536 then 3 else 4)
    + byte_length cs

-- `estimateTokenCount(text, policy)`.
unfoldable pub estimate_token_count : String → CapacityPolicy → ℕ
unfolding ceil_div byte_length
estimate_token_count text p =
    let raw =
      ceil_div (byte_length (codes text) * p.chars_per_token.denominator)
        p.chars_per_token.numerator in
    ceil_div (raw * (p.safety_margin.denominator + p.safety_margin.numerator))
      p.safety_margin.denominator

pub record Estimate : Type 0 where
  pub prompt : ℕ
  pub response : ℕ
  pub reserve : ℕ
  pub required : ℕ
  pub from_provider : Bool

abbrev pub check_natural : Value → Result (Unit {0})
check_natural v = assert (is_safe_natural v) "INVALID_TOKEN_CAPACITY"

abbrev pub prompt_tokens : Value → CapacityPolicy → ℕ
prompt_tokens request p =
    if not (is_undefined (get request "promptTokens"))
    then nat_of (get request "promptTokens")
    else if is_undefined (get request "prompt")
    then estimate_token_count (canonical_text (get request "request")) p
    else estimate_token_count (text_of (get request "prompt")) p

-- `estimateTokenRequest(request, policy)`.
unfoldable pub estimate_token_request : Value → CapacityPolicy → Result Estimate
estimate_token_request request p = do
  let reserve = get request "reserveTokens"
  check_policy p
  assert
      (not (is_undefined (get request "prompt"))
        || not (is_undefined (get request "request"))
        || not (is_undefined (get request "promptTokens")))
      "TOKEN_PROMPT_REQUIRED"
  assert (is_undefined (get request "promptTokens") || is_safe_natural (get request "promptTokens"))
      "INVALID_TOKEN_CAPACITY"
  assert (is_undefined (get request "prompt") || is_string (get request "prompt"))
      "INVALID_TOKEN_INPUT"
  assert
      (is_undefined (get request "request")
        || is_object (get request "request")
        || is_array (get request "request"))
      "INVALID_TOKEN_INPUT"
  check_natural (get request "maxOutputTokens")
  assert (ltb 0 (nat_of (get request "maxOutputTokens"))) "TOKEN_RESPONSE_BUDGET_REQUIRED"
  assert (is_undefined reserve || is_safe_natural reserve) "INVALID_TOKEN_CAPACITY"
  ok (record {
    prompt = prompt_tokens request p;
    response = nat_of (get request "maxOutputTokens");
    reserve = nat_of reserve;
    required = prompt_tokens request p + nat_of (get request "maxOutputTokens") + nat_of reserve;
    from_provider = not (is_undefined (get request "promptTokens"));
  })
