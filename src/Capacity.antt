-- ===== src/Capacity.antt =====
-- src/token-capacity.mjs: whether a request fits the tokens that a provider reports, and the gate in
-- front of an adapter.
pub mod Laws
use bounded_agent_harness.Prelude.{
  ℕ, zero, suc, ◌+◌, ◌-◌, ◌*◌, ◌/◌, ◌≤◌, max, String, Bool, true, false, not, ◌&&◌, ◌||◌, Option,
  none, some, List, [], ◌∷◌, ◌++◌, ltb, leb, if◌then◌else◌, Result, ok, err, ◌>>=◌, ◌>>◌, assert,
}
use bounded_agent_harness.Json.{
  Value, get, is_object, is_array, is_string, is_undefined, is_null, is_safe_natural, is_truthy,
  nat_of, text_of,
}
use bounded_agent_harness.Json.Text.{codes, is_not_blank}
use bounded_agent_harness.Json.Canonical.{Host, canonical_text}
use bounded_agent_harness.Queue.Validate.{string_of}
use bounded_agent_harness.TokenEstimate.{
  Ratio, CapacityPolicy, default_policy, is_integer, check_policy, ceil_div, byte_length,
  estimate_token_count, Estimate, check_natural, prompt_tokens, estimate_token_request,
}

-- What `validateAvailability` makes of the report of the provider.
pub record Observed : Type 0 where
  pub provider : Value
  pub window : Value
  pub remaining : Option ℕ
  pub window_tokens : Option ℕ
  pub red_zone_tokens : Option ℕ
  pub observed_at : ℕ
  pub resets_at : ℕ

abbrev timestamp : Host → Value → Result ℕ
timestamp host v = elim (host.parse_date (string_of v)) [
  | none ↦ err "INVALID_TOKEN_CAPACITY"
  | some t ↦ ok t
]

abbrev is_name : Value → Bool
is_name v = is_string v && is_truthy v

abbrev optional : Value → Option ℕ
optional v = if is_undefined v || is_null v then none else some (nat_of v)

unfoldable pub validate_availability : Host → Value → Result Observed
validate_availability host v = do
  assert (is_object v) "INVALID_TOKEN_CAPACITY"
  assert (is_name (get v "provider")) "INVALID_TOKEN_CAPACITY"
  assert (is_name (get v "windowId")) "INVALID_TOKEN_CAPACITY"
  assert
      (is_undefined (get v "remainingTokens")
        || is_null (get v "remainingTokens")
        || is_safe_natural (get v "remainingTokens"))
      "INVALID_TOKEN_CAPACITY"
  assert
      (is_undefined (get v "windowTokens")
        || is_safe_natural (get v "windowTokens") && ltb 0 (nat_of (get v "windowTokens")))
      "INVALID_TOKEN_CAPACITY"
  assert (is_undefined (get v "redZoneTokens") || is_safe_natural (get v "redZoneTokens"))
      "INVALID_TOKEN_CAPACITY"
  observed_at ← timestamp host (get v "observedAt")
  resets_at ← timestamp host (get v "resetsAt")
  ok (record {
    provider = get v "provider";
    window = get v "windowId";
    remaining = optional (get v "remainingTokens");
    window_tokens = optional (get v "windowTokens");
    red_zone_tokens = optional (get v "redZoneTokens");
    observed_at = observed_at;
    resets_at = resets_at;
  })

pub data Reason : Type 0 where
  stale refresh_required capacity_unknown insufficient headroom_insufficient in_red_zone available :
      Reason

pub data Health : Type 0 where
  green red unknown : Health

pub record Decision : Type 0 where
  pub continues : Bool
  pub health : Health
  pub reason : Reason
  pub observed : Observed
  pub remaining_after : Option ℕ
  pub red_zone : Bool
  pub estimate : Estimate

unfoldable pub red_zone_of : CapacityPolicy → Observed → ℕ
unfolding ceil_div
red_zone_of p o = elim o.red_zone_tokens [
  | some n ↦ n
  | none ↦ elim o.window_tokens [
    | some w ↦ max p.red_zone_tokens (ceil_div w 10)
    | none ↦ p.red_zone_tokens
  ]
]

abbrev pub in_zone : Option ℕ → ℕ → Bool
in_zone none zone = true
in_zone (some n) zone = leb n zone

unfoldable pub refuse : Reason → Bool → Bool → Observed → Estimate → Decision
refuse reason outdated zone o e = record {
  continues = false;
  health = if outdated then unknown else if zone then red else green;
  reason = reason;
  observed = o;
  remaining_after = none;
  red_zone = zone;
  estimate = e;
}

-- The end of `evaluateTokenCapacity`, for what the provider reported.
unfoldable pub decide_remaining : CapacityPolicy → Observed → Estimate → Bool → Option ℕ → Decision
unfolding refuse
decide_remaining p o e zone none = refuse capacity_unknown false zone o e
decide_remaining p o e zone (some n) =
    if ltb n e.required
    then refuse insufficient false zone o e
    else if ltb n (e.required + p.minimum_headroom_tokens)
    then refuse headroom_insufficient false zone o e
    else (record {
      continues = true;
      health = if zone then red else green;
      reason = if zone then in_red_zone else available;
      observed = o;
      remaining_after = some (n - e.required);
      red_zone = zone;
      estimate = e;
    })

unfoldable pub is_stale : CapacityPolicy → Observed → ℕ → Bool
is_stale p o now = ltb (o.observed_at + p.max_observation_age_ms) now

unfoldable pub decide_capacity : CapacityPolicy → Observed → Estimate → ℕ → Decision
unfolding refuse
decide_capacity p o e now =
    let zone = in_zone o.remaining (red_zone_of p o) in
    if is_stale p o now
    then refuse stale true zone o e
    else if leb o.resets_at now
    then refuse refresh_required true zone o e
    else decide_remaining p o e zone o.remaining

-- `evaluateTokenCapacity({ availability, request, policy, now })`.
unfoldable pub evaluate_token_capacity :
    Host → (availability request : Value) → CapacityPolicy → ℕ → Result Decision
evaluate_token_capacity host availability request p now = do
  check_policy p
  o ← validate_availability host availability
  e ← estimate_token_request request p
  assert (is_integer now) "INVALID_TOKEN_CAPACITY"
  ok (decide_capacity p o e now)

-- A call that the gate makes to the host.
pub data Call : Type 0 where
  read_capacity : Value → Call
  reserve_capacity : Decision → Call
  invoke_adapter : (request : Value) → (decision : Decision) → (reservation : Value) → Call

-- What the gate did, and what it returns.
pub record Gated : Type 0 where
  pub calls : List Call
  pub answer : Result Value

-- The host behind the gate: the reader of the capacity, `requestFromInvocation`, the reservation and the adapter.
pub record GateHost : Type 0 where
  pub reader : Value → Result Value
  pub build_request : Value → Result Value
  pub reservation : (availability request : Value) → Decision → Result Value
  pub adapter : (request : Value) → Decision → (reservation : Value) → Result Value

abbrev pub is_reservation : Value → Bool
is_reservation v = is_string (get v "reservationId") && is_truthy (get v "reservationId")

abbrev pub code_of : Reason → String
code_of stale = "TOKEN_CAPACITY_STALE"
code_of refresh_required = "TOKEN_CAPACITY_REFRESH_REQUIRED"
code_of capacity_unknown = "TOKEN_CAPACITY_UNKNOWN"
code_of insufficient = "TOKEN_CAPACITY_INSUFFICIENT"
code_of headroom_insufficient = "TOKEN_HEADROOM_INSUFFICIENT"
code_of in_red_zone = "TOKEN_CAPACITY_RED_ZONE"
code_of available = "TOKEN_CAPACITY_AVAILABLE"

-- The decision of the gate, up to its assertion.
unfoldable pub admit :
    Host → GateHost → CapacityPolicy → ℕ → Value → Result (Value × Value × Decision)
admit host g p now request = do
  availability ← g.reader request
  token_request ← g.build_request request
  decision ← evaluate_token_capacity host availability token_request p now
  assert decision.continues (code_of decision.reason)
  ok (availability, token_request, decision)

abbrev after_reservation : GateHost → Value → Decision → List Call → Result Value → Gated
after_reservation g request d calls (err code) = record { calls = calls; answer = err code }
after_reservation g request d calls (ok r) =
    if is_reservation r
    then (record {
      calls = calls ++ invoke_adapter request d r ∷ [];
      answer = g.adapter request d r;
    })
    else (record { calls = calls; answer = err "TOKEN_CAPACITY_RESERVATION_FAILED" })

abbrev after_admission : GateHost → Value → Result (Value × Value × Decision) → Gated
after_admission g request (err code) = record {
  calls = read_capacity request ∷ [];
  answer = err code;
}
after_admission g request (ok (a, t, d)) =
    after_reservation g request d (read_capacity request ∷ reserve_capacity d ∷ [])
      (g.reservation a t d)

-- `invoke(request)` of `withTokenCapacityGate(adapter, …)`.
unfoldable pub gated_invoke : Host → GateHost → CapacityPolicy → ℕ → Value → Gated
unfolding admit
gated_invoke host g p now request = after_admission g request (admit host g p now request)
