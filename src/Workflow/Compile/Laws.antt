-- ===== src/Workflow/Compile/Laws.antt =====
-- What a compiled workflow is known to satisfy.
use bounded_agent_harness.Prelude.{
  ◌≤◌, String, ◌≡◌, sym, ok-injective, true, false, List, ◌++◌, includes, all, ok, ◌>>=◌, for_each,
  arith, >>=-eq-ok, >>-left, >>-right,
}
use bounded_agent_harness.Json.{Value, get, is_undefined, strings_of, elems, text_of, nat_of}
use bounded_agent_harness.Json.Canonical.{Host}
use bounded_agent_harness.Registry.{Registry, has_contract, validate_contract}
use bounded_agent_harness.Contracts.{validate_plan, step_ids}
use bounded_agent_harness.Governance.{validate_governance_bundle, governance_digest}
use bounded_agent_harness.Floor.{validate_floor_manifest, assert_plan_within_floor, floor_digest}
use bounded_agent_harness.Workflow.Order.{order_steps}
use bounded_agent_harness.Workflow.Compile.{
  find_by_id, total_cost, depends_on, check_step, check_plan, bound_field, compile_workflow,
  artifact_of, sealed,
}

module _ (specialists steps : List Value) (registry : Registry) where
  abbrev specialist_of : Value → Value
  specialist_of step = find_by_id (text_of (get step "specialist")) specialists

  -- A step that its specialist may run and whose contracts and dependencies are known.
  pub record IsAssigned (step : Value) : Type 0 where
    pub capable :
        includes
          (text_of (get step "capability"))
          (strings_of (get (specialist_of step) "capabilities"))
        ≡ true
    pub authorized :
        includes
          (text_of (get step "authority"))
          (strings_of (get (specialist_of step) "authority"))
        ≡ true
    pub output : has_contract (text_of (get step "outputContract")) registry ≡ true
    pub input :
        validate_contract registry (text_of (get step "inputContract")) (get step "input") ≡ ok tt
    pub depends : all (λ d. includes d (step_ids steps)) (strings_of (get step "dependsOn")) ≡ true

module _ (plan : Value) (specialists : List Value) (registry : Registry)
    (governance floor : Value) where
  abbrev steps : List Value
  steps = elems (get plan "steps")

  pub check_plan_parts :
      check_plan plan specialists registry governance floor ≡ ok tt
      → (validate_plan plan ≡ ok tt)
        × (total_cost steps ≤ nat_of (get (get plan "budget") "maxCostUnits"))
        × (for_each (check_step specialists steps registry) steps ≡ ok tt)
        × (is_undefined governance ≡ false → validate_governance_bundle governance ≡ ok tt)
        × (is_undefined floor ≡ false
            → (validate_floor_manifest floor ≡ ok tt)
              × (assert_plan_within_floor plan floor ≡ ok tt))
  unfolding check_plan
  check_plan_parts h = (
    ground arith,
    ground arith,
    ground arith,
    λ e. ground arith,
    λ e. (ground arith, ground arith),
  )

  pub compile_parts :
      (host : Host) (w : Value)
      → compile_workflow host plan specialists registry governance floor ≡ ok w
      → (check_plan plan specialists registry governance floor ≡ ok tt)
        × ((ordered : List String) × (order_steps (depends_on steps) (step_ids steps) ≡ ok ordered)
            × ((governed : List (String × Value)) × (bound_field "governance" governance
                    (governance_digest host governance)
                  ≡ ok governed)
                × ((floored : List (String × Value)) × (bound_field "floor" floor
                        (floor_digest host floor)
                      ≡ ok floored)
                    × (w
                        ≡ sealed host (
                            artifact_of host plan specialists registry ordered
                            ++ (governed ++ floored))))))
  unfolding compile_workflow
  compile_parts host w h =
      let rest =
        >>-right (check_plan plan specialists registry governance floor)
          (order_steps (depends_on steps) (step_ids steps) >>= _) h in
      let (ordered, p, h1) = >>=-eq-ok (order_steps (depends_on steps) (step_ids steps)) _ rest in
      let (governed, q, h2) =
        >>=-eq-ok (bound_field "governance" governance (governance_digest host governance)) _ h1 in
      let (floored, r, h3) = >>=-eq-ok (bound_field "floor" floor (floor_digest host floor)) _ h2 in
      (
        >>-left (check_plan plan specialists registry governance floor) _ h,
        (ordered, p, (governed, q, (floored, r, sym (ok-injective h3)))),
      )

  -- Nothing is compiled under a floor that the plan does not keep, or under a bundle that is invalid.
  pub compile_workflow_gated :
      (host : Host) (w : Value)
      → compile_workflow host plan specialists registry governance floor ≡ ok w
      → (is_undefined governance ≡ false → validate_governance_bundle governance ≡ ok tt)
        × (is_undefined floor ≡ false → assert_plan_within_floor plan floor ≡ ok tt)
  compile_workflow_gated host w h =
      let (checked, rest) = compile_parts host w h in
      let (valid, cost, assigned, g, f) = check_plan_parts checked in (g, λ e. (f e).1)
