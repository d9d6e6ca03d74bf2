-- ===== src/Review/Router.antt =====
-- src/specialist-router.mjs: the choice of a specialist by its record. A rate is the exact fraction of the accepted
-- outputs, where the source divides floating-point numbers.
pub mod Laws
use bounded_agent_harness.Prelude.{
  ℕ, ◌+◌, ◌*◌, String, Bool, true, false, not, ◌&&◌, Option, none, some, List, [], ◌∷◌, ◌++◌, map,
  ltb, ◌==◌, select, includes, if◌then◌else◌, str_eq, Result, ok, err, assert, ◌>>=◌, ◌>>◌,
  for_each, map_each,
}
use bounded_agent_harness.Json.{
  Value, num, nat, str, arr, get, is_string, is_text, elems, text_of, nat_of, strings_of, fields_of,
  object_of, to_items,
}
use bounded_agent_harness.Json.Text.{sort}
use bounded_agent_harness.Json.Canonical.{Host}
use bounded_agent_harness.Queue.Claim.{set_field}
use bounded_agent_harness.Contracts.{validate_specialist}

-- `record(profile)`: the profile with the accepted of its completed runs; there is no rate without runs.
pub record Ranked : Type 0 where
  pub profile : Value
  pub accepted : ℕ
  pub completed : ℕ

unfoldable pub rank_of : Value → Ranked
rank_of profile = record {
  profile = profile;
  accepted = nat_of (get (get profile "evidence") "acceptedOutputs");
  completed = nat_of (get (get profile "evidence") "completedRuns");
}

abbrev has_rate : Ranked → Bool
has_rate r = not (r.completed == 0)

abbrev id_of : Ranked → String
id_of r = text_of (get r.profile "id")

-- With equal rates: more completed runs first, then the id.
unfoldable pub by_experience : Host → Ranked → Ranked → Bool
by_experience host a b =
    if a.completed == b.completed
    then host.locale_le (id_of a) (id_of b)
    else ltb b.completed a.completed

-- Whether `a` may stand before `b`: the higher rate first, and no rate last.
unfoldable pub ranks_before : Host → Ranked → Ranked → Bool
ranks_before host a b =
    if has_rate a && has_rate b
    then (if a.accepted * b.completed == b.accepted * a.completed
        then by_experience host a b
        else ltb (b.accepted * a.completed) (a.accepted * b.completed))
    else if has_rate a
    then true
    else if has_rate b
    then false
    else by_experience host a b

unfoldable pub is_eligible : (capability authority : Value) → Value → Bool
is_eligible capability authority profile =
    is_string capability
    && includes (text_of capability) (strings_of (get profile "capabilities"))
    && (is_string authority && includes (text_of authority) (strings_of (get profile "authority")))

pub record Selection : Type 0 where
  pub specialist : Value
  pub has_history : Bool
  pub evidence : Value
  pub limitations : Value

unfoldable pub selection_of : Ranked → Selection
selection_of winner = record {
  specialist = get winner.profile "id";
  has_history = has_rate winner;
  evidence = get winner.profile "evidence";
  limitations = get winner.profile "limitations";
}

abbrev pub first_ranked : List Ranked → Result Ranked
first_ranked [] = err "NO_ELIGIBLE_SPECIALIST"
first_ranked (r ∷ rs) = ok r

unfoldable pub eligible_ranks : Host → (capability authority : Value) → List Value → List Ranked
eligible_ranks host capability authority specialists =
    sort (ranks_before host) (map rank_of (select (is_eligible capability authority) specialists))

-- `selectSpecialist({ capability, authority, specialists })`.
unfoldable pub select_specialist :
    Host → (capability authority : Value) → List Value → Result Selection
select_specialist host capability authority specialists = do
  for_each validate_specialist specialists
  winner ← first_ranked (eligible_ranks host capability authority specialists)
  ok (selection_of winner)

pub record Assignment : Type 0 where
  pub step : Value
  pub selection : Selection

abbrev pub assigned : Value → Selection → Value × List Assignment
assigned step selection = (
  object_of (set_field "specialist" selection.specialist (fields_of step)),
  record { step = get step "id"; selection = selection } ∷ [],
)

-- One round of the loop over the steps.
unfoldable pub assign_step : Host → List Value → Value → Result (Value × List Assignment)
assign_step host specialists step =
    if is_text (get step "specialist") "auto"
    then (select_specialist host (get step "capability") (get step "authority") specialists
        >>= λ selection. ok (assigned step selection))
    else ok (step, [])

abbrev joined :
    Value × List Assignment → List Value × List Assignment → List Value × List Assignment
joined (step, here) (steps, later) = (step ∷ steps, here ++ later)

unfoldable pub assign_steps : Host → List Value → List Value → Result (List Value × List Assignment)
assign_steps host specialists [] = ok ([], [])
assign_steps host specialists (step ∷ steps) = do
  first ← assign_step host specialists step
  rest ← assign_steps host specialists steps
  ok (joined first rest)

-- `assignSpecialists({ plan, specialists })`.
unfoldable pub assign_specialists :
    Host → (plan : Value) → List Value → Result (Value × List Assignment)
assign_specialists host plan specialists = do
  routed ← assign_steps host specialists (elems (get plan "steps"))
  ok (object_of (set_field "steps" (arr (to_items routed.0)) (fields_of plan)), routed.1)

abbrev count_if : Bool → Value → Value
count_if counts v = if counts then num (nat (nat_of v + 1)) else v

-- The evidence behind an outcome.
unfoldable pub counted : (evidence : Value) → (outcome : Value) → Value
counted evidence outcome = object_of (
    set_field "completedRuns" (count_if true (get evidence "completedRuns")) (
      set_field "acceptedOutputs"
        (count_if (is_text outcome "accepted") (get evidence "acceptedOutputs"))
        (set_field "rejectedOutputs"
          (count_if (is_text outcome "rejected") (get evidence "rejectedOutputs"))
          (fields_of evidence))))

-- `recordSpecialistOutcome(profile, outcome)`.
unfoldable pub record_specialist_outcome : (profile outcome : Value) → Result Value
record_specialist_outcome profile outcome = do
  let updated =
      object_of
        (set_field "evidence" (counted (get profile "evidence") outcome) (fields_of profile))
  validate_specialist profile
  assert
      (is_string outcome
        && includes (text_of outcome) ("accepted" ∷ "rejected" ∷ "completed-unreviewed" ∷ []))
      "INVALID_SPECIALIST_OUTCOME"
  validate_specialist updated
  ok updated
