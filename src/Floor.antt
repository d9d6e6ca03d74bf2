-- ===== src/Floor.antt =====
-- src/floor-policy.mjs: the project floor of autonomous work, and the plans that stay above it.
pub mod Laws
use bounded_agent_harness.Prelude.{
  ℕ, ◌≤◌, String, Bool, true, false, not, ◌&&◌, ◌||◌, List, [], ◌∷◌, ◌++◌, ltb, leb, if◌then◌else◌,
  str_eq, includes, distinct, all, Result, ok, ◌>>=◌, ◌>>◌, assert, for_each,
}
use bounded_agent_harness.Json.{
  Value, get, is_string, is_text, is_number, is_boolean, is_true, is_safe_integer, is_safe_positive,
  is_string_array, strings_of, elems, text_of, nat_of, closed_object,
}
use bounded_agent_harness.Json.Text.{is_stable_id, is_not_blank}
use bounded_agent_harness.Json.Canonical.{Host, digest_of}

abbrev effects : List String
effects =
    "read" ∷ "local-test" ∷ "local-reversible-artifact" ∷ "external-effect" ∷ "deploy" ∷ "dns"
    ∷ "payment" ∷ "email-send" ∷ "live-database-write" ∷ "customer-site-write" ∷ []

abbrev review_roles : List String
review_roles = "contract" ∷ "domain" ∷ "consistency" ∷ "reconciliation" ∷ "floor" ∷ "execution" ∷ []

unfoldable pub stable_id : Value → Result (Unit {0})
stable_id v = assert (is_string v && is_stable_id (text_of v)) "INVALID_ID"

-- `uniqueStrings(value, label)`.
unfoldable pub unique_strings : Value → Result (Unit {0})
unique_strings v =
    assert (is_string_array v) "INVALID_TYPE" >> assert (distinct (strings_of v)) "INVALID_TYPE"

-- `values.length > 0`, for the texts of an array.
unfoldable pub some_text : List String → Bool
some_text [] = false
some_text (t ∷ ts) = true

unfoldable pub validate_floor_manifest : Value → Result (Unit {0})
unfolding stable_id unique_strings some_text for_each
validate_floor_manifest floor = do
  closed_object floor (
      "format" ∷ "version" ∷ "project" ∷ "goal" ∷ "allowedEffects" ∷ "forbiddenEffects"
      ∷ "requiredReviewRoles" ∷ "maxCostUnits" ∷ "timeoutPolicy" ∷ "authorityMode" ∷ [])
  assert (is_text (get floor "format") "usb.autonomous-floor.v1") "UNSUPPORTED_FORMAT"
  assert (is_number (get floor "version") 1) "UNSUPPORTED_VERSION"
  stable_id (get floor "project")
  assert (is_string (get floor "goal") && is_not_blank (text_of (get floor "goal"))) "INVALID_TYPE"
  unique_strings (get floor "allowedEffects")
  unique_strings (get floor "forbiddenEffects")
  let allowed = strings_of (get floor "allowedEffects")
  let forbidden = strings_of (get floor "forbiddenEffects")
  for_each (λ effect. assert (includes effect effects) "INVALID_EFFECT") (allowed ++ forbidden)
  assert (some_text allowed) "INVALID_EFFECT"
  assert (all (λ effect. not (includes effect forbidden)) allowed) "CONTRADICTORY_FLOOR"
  unique_strings (get floor "requiredReviewRoles")
  let roles = strings_of (get floor "requiredReviewRoles")
  assert (some_text roles) "INVALID_REVIEW_ROLES"
  for_each (λ role. assert (includes role review_roles) "INVALID_REVIEW_ROLE") roles
  assert (is_safe_positive (get floor "maxCostUnits")) "INVALID_BUDGET"
  let policy = get floor "timeoutPolicy"
  closed_object policy ("forkAfterMinutes" ∷ "localOnly" ∷ [])
  assert
      (is_safe_positive (get policy "forkAfterMinutes")
        && leb (nat_of (get policy "forkAfterMinutes")) 1440)
      "INVALID_TIMEOUT"
  assert (is_boolean (get policy "localOnly")) "INVALID_TIMEOUT"
  assert (is_text (get floor "authorityMode") "NARROW_ONLY") "AUTHORITY_MODE_INVALID"

unfoldable pub floor_digest : Host → Value → Result String
floor_digest host floor = validate_floor_manifest floor >> ok (digest_of host floor)

-- The effect that the floor must permit for a step.
unfoldable pub required_effect : Value → String
required_effect step =
    if is_text (get step "effect") "read"
    then "read"
    else if is_text (get step "effect") "local"
    then "local-reversible-artifact"
    else "external-effect"

-- `requiredEffects(plan)`; the set is kept as the list it is made from, since it is only searched.
unfoldable pub required_effects : List Value → List String
unfolding required_effect
required_effects [] = []
required_effects (step ∷ steps) = required_effect step ∷ required_effects steps

unfoldable pub is_permitted : Value → String → Bool
is_permitted floor effect =
    (if str_eq effect "local-reversible-artifact"
      then includes "local-reversible-artifact" (strings_of (get floor "allowedEffects"))
        || includes "local-test" (strings_of (get floor "allowedEffects"))
      else includes effect (strings_of (get floor "allowedEffects")))
    && not (includes effect (strings_of (get floor "forbiddenEffects")))

-- A negative budget is below every floor, as 0 is.
unfoldable pub assert_plan_within_floor : (plan floor : Value) → Result (Unit {0})
unfolding for_each required_effects is_permitted
assert_plan_within_floor plan floor = do
  validate_floor_manifest floor
  let most = get (get plan "budget") "maxCostUnits"
  assert (is_safe_integer most) "INVALID_BUDGET"
  assert (leb (nat_of most) (nat_of (get floor "maxCostUnits"))) "FLOOR_BUDGET_EXCEEDED"
  let needed = required_effects (elems (get plan "steps"))
  for_each (λ effect. assert (is_permitted floor effect) "FLOOR_EFFECT_FORBIDDEN") needed
  assert
      (not (is_true (get (get floor "timeoutPolicy") "localOnly"))
        || all (λ effect. includes effect ("read" ∷ "local-reversible-artifact" ∷ [])) needed)
      "FLOOR_NOT_LOCAL_ONLY"
