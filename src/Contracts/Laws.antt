-- ===== src/Contracts/Laws.antt =====
-- What a plan that passed `validatePlan` is known to satisfy.
use bounded_agent_harness.Prelude.{
  String, ◌≡◌, ◌≢◌, refl, eq_refl, Bool, true, false, List, [], ◌∷◌, if◌then◌else◌, includes,
  distinct, All, ok, assert, arith, all-eq-true, eq_iff,
}
use bounded_agent_harness.Json.{
  Value, get, keys, is_text, is_undefined, is_safe_natural, strings_of, elems,
}
use bounded_agent_harness.Contracts.{
  step_id, step_ids, is_nonempty_array, check_step_fields, check_steps, check_idempotency, is_key,
  validate_plan,
}

-- What the checks of one step have established.
pub record IsSound (step : Value) : Type 0 where
  pub cost : is_safe_natural (get step "costUnits") ≡ true
  pub projected :
      All
        (λ dependency. includes dependency (keys (get step "contextProjection")) ≡ true)
        (strings_of (get step "dependsOn"))
  pub keyed :
      (if is_text (get step "effect") "external"
        then is_key (get step "idempotencyKey")
        else is_undefined (get step "idempotencyKey"))
      ≡ true

assert_if :
    (b c d : Bool) (e f : String)
    → (if b then assert c e else assert d f) ≡ ok tt
    → (if b then c else d) ≡ true
assert_if b c d e f h = ground arith

check_step_fields-IsSound : (step : Value) → check_step_fields step ≡ ok tt → IsSound step
unfolding check_step_fields check_idempotency
check_step_fields-IsSound step h = record {
  cost = ground arith;
  projected =
      all-eq-true (λ dependency. includes dependency (keys (get step "contextProjection")))
        (strings_of (get step "dependsOn")) (ground arith);
  keyed = ground arith;
}

-- The conclusions of one round of the loop.
check_steps_round :
    (seen : List String) (step : Value) (steps : List Value)
    → check_steps seen (step ∷ steps) ≡ ok tt
    → (includes (step_id step) seen ≡ false)
      × (check_step_fields step ≡ ok tt)
      × (check_steps (step_id step ∷ seen) steps ≡ ok tt)
unfolding check_steps
check_steps_round seen step steps h = (ground arith, ground arith, ground arith)

check_steps-All :
    (seen : List String) (steps : List Value) → check_steps seen steps ≡ ok tt → All IsSound steps
check_steps-All seen [] h = tt
check_steps-All seen (step ∷ steps) h =
    let (fresh, here, later) = check_steps_round seen step steps h in
    (check_step_fields-IsSound step here, check_steps-All (step_id step ∷ seen) steps later)

-- No step bears an id that was seen before it.
check_steps_fresh :
    (seen : List String) (steps : List Value) (x : String)
    → check_steps seen steps ≡ ok tt
    → includes x seen ≡ true
    → includes x (step_ids steps) ≡ false
check_steps_fresh seen [] x h m = refl
check_steps_fresh seen (step ∷ steps) x h m =
    let (fresh, here, later) = check_steps_round seen step steps h in
    ground (arith, eq_iff x (step_id step), check_steps_fresh (step_id step ∷ seen) steps x later)

check_steps-distinct :
    (seen : List String) (steps : List Value)
    → check_steps seen steps ≡ ok tt
    → distinct (step_ids steps) ≡ true
check_steps-distinct seen [] h = refl
check_steps-distinct seen (step ∷ steps) h =
    let (fresh, here, later) = check_steps_round seen step steps h in
    ground (
      arith,
      check_steps_fresh (step_id step ∷ seen) steps (step_id step) later,
      eq_refl (step_id step),
      check_steps-distinct (step_id step ∷ seen) steps later,
    )

validate_plan_parts :
    (plan : Value)
    → validate_plan plan ≡ ok tt
    → (is_safe_natural (get (get plan "budget") "maxCostUnits") ≡ true)
      × (is_nonempty_array (get plan "steps") ≡ true)
      × (check_steps [] (elems (get plan "steps")) ≡ ok tt)
unfolding validate_plan
validate_plan_parts plan h = (ground arith, ground arith, ground arith)

nonempty :
    (plan : Value) → is_nonempty_array (get plan "steps") ≡ true → elems (get plan "steps") ≢ []
unfolding is_nonempty_array
nonempty plan h e = cc

-- A plan that passes validation has a natural budget and at least one step; its steps have distinct
-- ids; and each step has a natural cost, projects all the dependencies that it declares, and bears
-- an idempotency key of eight or more characters if its effect is external and none otherwise.
pub validate_plan-IsSound :
    (plan : Value)
    → validate_plan plan ≡ ok tt
    → (is_safe_natural (get (get plan "budget") "maxCostUnits") ≡ true)
      × (elems (get plan "steps") ≢ [])
      × (distinct (step_ids (elems (get plan "steps"))) ≡ true)
      × All IsSound (elems (get plan "steps"))
validate_plan-IsSound plan h =
    let (budget, some_step, checked) = validate_plan_parts plan h in
    (
      budget,
      nonempty plan some_step,
      check_steps-distinct [] _ checked,
      check_steps-All [] _ checked,
    )
