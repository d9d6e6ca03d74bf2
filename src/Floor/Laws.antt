-- ===== src/Floor/Laws.antt =====
-- What the floor guarantees of a plan that it admits.
use bounded_agent_harness.Prelude.{
  ◌≤◌, String, ◌≡◌, refl, false≢true, Bool, true, false, not, ◌&&◌, ◌||◌, List, [], ◌∷◌,
  if◌then◌else◌, includes, all, All, ok, assert, for_each, arith, for_each-All,
}
use bounded_agent_harness.Json.{Value, get, is_text, is_true, elems, nat_of, strings_of}
use bounded_agent_harness.Queue.Equality.{is_text-str}
use bounded_agent_harness.Floor.{
  required_effect, required_effects, is_permitted, assert_plan_within_floor,
}

abbrev pub is_external : Value → Bool
is_external step =
    not (is_text (get step "effect") "read") && not (is_text (get step "effect") "local")

-- The name of the effect that a step needs, from its two tests.
not_external :
    (r l : Bool)
    → includes
        (if r then "read" else if l then "local-reversible-artifact" else "external-effect")
        ("read" ∷ "local-reversible-artifact" ∷ [])
      ≡ true
    → (not r && not l) ≡ false
not_external true l h = refl
not_external false true h = refl
not_external false false h = absurd (false≢true h)

module _ (plan floor : Value) where
  abbrev Permitted : String → Type 0
  Permitted effect = is_permitted floor effect ≡ true

  within_parts :
      assert_plan_within_floor plan floor ≡ ok tt
      → (nat_of (get (get plan "budget") "maxCostUnits") ≤ nat_of (get floor "maxCostUnits"))
        × (for_each
              (λ effect. assert (is_permitted floor effect) "FLOOR_EFFECT_FORBIDDEN")
              (required_effects (elems (get plan "steps")))
            ≡ ok tt)
        × (is_true (get (get floor "timeoutPolicy") "localOnly") ≡ true
            → all
                (λ effect. includes effect ("read" ∷ "local-reversible-artifact" ∷ []))
                (required_effects (elems (get plan "steps")))
              ≡ true)
  unfolding assert_plan_within_floor
  within_parts h = (ground arith, ground arith, λ l. ground arith)

  abbrev pub allowed : List String
  allowed = strings_of (get floor "allowedEffects")

  abbrev pub forbidden : List String
  forbidden = strings_of (get floor "forbiddenEffects")

  -- What the floor says of one step.
  pub record IsAdmitted (step : Value) : Type 0 where
    pub reads :
        is_text (get step "effect") "read" ≡ true
        → (includes "read" allowed ≡ true) × (includes "read" forbidden ≡ false)
    pub writes :
        is_text (get step "effect") "local" ≡ true
        → ((includes "local-reversible-artifact" allowed || includes "local-test" allowed) ≡ true)
          × (includes "local-reversible-artifact" forbidden ≡ false)
    pub acts :
        is_external step ≡ true
        → (includes "external-effect" allowed ≡ true)
          × (includes "external-effect" forbidden ≡ false)
    pub stays :
        is_true (get (get floor "timeoutPolicy") "localOnly") ≡ true → is_external step ≡ false

  local_effect :
      (step : Value)
      → includes (required_effect step) ("read" ∷ "local-reversible-artifact" ∷ []) ≡ true
      → is_external step ≡ false
  unfolding required_effect
  local_effect step h =
      not_external (is_text (get step "effect") "read") (is_text (get step "effect") "local") h

  -- A local effect is no reading effect.
  not_read :
      (step : Value)
      → is_text (get step "effect") "local" ≡ true
      → is_text (get step "effect") "read" ≡ false
  unfolding is_text
  not_read step h = rw (is_text-str (get step "effect") "local" h) refl

  admit_step :
      (step : Value)
      → Permitted (required_effect step)
      → (is_true (get (get floor "timeoutPolicy") "localOnly") ≡ true → is_external step ≡ false)
      → IsAdmitted step
  unfolding required_effect is_permitted
  admit_step step p l = record {
    reads = λ e.
        let named : required_effect step ≡ "read" = rw e refl in
        let q : is_permitted floor "read" ≡ true = rw named at p in (ground arith, ground arith);
    writes = λ e.
        let named : required_effect step ≡ "local-reversible-artifact" =
          rw (not_read step e, e) refl in
        let q : is_permitted floor "local-reversible-artifact" ≡ true = rw named at p in
        (ground arith, ground arith);
    acts = λ e.
        let read : is_text (get step "effect") "read" ≡ false = ground arith in
        let local : is_text (get step "effect") "local" ≡ false = ground arith in
        let named : required_effect step ≡ "external-effect" = rw (read, local) refl in
        let q : is_permitted floor "external-effect" ≡ true = rw named at p in
        (ground arith, ground arith);
    stays = l;
  }

  admit :
      (steps : List Value)
      → All Permitted (required_effects steps)
      → (is_true (get (get floor "timeoutPolicy") "localOnly") ≡ true
          → all
              (λ effect. includes effect ("read" ∷ "local-reversible-artifact" ∷ []))
              (required_effects steps)
            ≡ true)
      → All IsAdmitted steps
  unfolding required_effects
  admit [] p l = tt
  admit (step ∷ steps) (p, ps) l = (
    admit_step step p (λ e. local_effect step (ground (arith, l e))),
    admit steps ps (λ e. ground (arith, l e)),
  )

  -- A plan within a floor has no larger budget than the floor; the effect of each of its steps is
  -- allowed by the floor and not forbidden (a local effect is allowed by the entry for artifacts or the
  -- one for tests, and is forbidden by the one for artifacts); and under a floor that is local only no step has an external effect.
  pub assert_plan_within_floor_sound :
      assert_plan_within_floor plan floor ≡ ok tt
      → (nat_of (get (get plan "budget") "maxCostUnits") ≤ nat_of (get floor "maxCostUnits"))
        × All IsAdmitted (elems (get plan "steps"))
  assert_plan_within_floor_sound h =
      let (budget, permitted, local) = within_parts h in
      (
        budget,
        admit (elems (get plan "steps")) (for_each-All (is_permitted floor) _ _ permitted) local,
      )
