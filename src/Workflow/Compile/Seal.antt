-- ===== src/Workflow/Compile/Seal.antt =====
-- What `compileWorkflow` seals, `verifyWorkflowArtifact` accepts.
use bounded_agent_harness.Prelude.{
  String, ◌≡◌, refl, sym, ◌⊎◌, inl, inr, ok-injective, true, false, List, [], ◌∷◌, ◌++◌, includes,
  All, Result, ok, Bool-cases, eq_refl, >>-left, >>=-eq-ok, append-nil,
}
use bounded_agent_harness.Json.{
  Value, str, get, is_undefined, is_object, fields_of, object_of, omit, to_fields, without_keys,
  lookup_field, is_text,
}
use bounded_agent_harness.Json.Canonical.{Host, canonical_text, digest_of}
use bounded_agent_harness.Registry.{Registry}
use bounded_agent_harness.Governance.{validate_governance_bundle, governance_digest}
use bounded_agent_harness.Floor.{validate_floor_manifest, floor_digest}
use bounded_agent_harness.Workflow.Compile.{
  artifact_of, sealed, bound_field, check_bound, compile_workflow, verify_workflow_artifact,
}
use bounded_agent_harness.Workflow.Compile.Laws.{compile_parts}
use bounded_agent_harness.Workflow.Compile.Keys.{
  fields_of-object_of, object_of-fields_of, Lacks, without_keys-append, without_keys_none,
  lookup_last, closed-Lacks, without_keys_all, bundle_of,
}

-- A bundle with its digest appended gives the bundle and the digest back.
module _ (v : Value) (d : String) (is_obj : is_object v ≡ true)
    (lacks : Lacks "digest" (fields_of v)) where
  abbrev bundle : Value
  bundle = object_of (fields_of v ++ ("digest", str d) ∷ [])

  omit-bundle : omit ("digest" ∷ []) bundle ≡ v
  unfolding omit without_keys
  omit-bundle = rw (fields_of-object_of (fields_of v ++ ("digest", str d) ∷ [])) (
      rw (without_keys-append ("digest" ∷ []) (fields_of v) (("digest", str d) ∷ [])) (
        rw (without_keys_none "digest" (fields_of v) lacks)
          (rw (append-nil (fields_of v)) (object_of-fields_of v is_obj))))

  get-bundle : get bundle "digest" ≡ str d
  unfolding get object_of
  get-bundle = lookup_last "digest" (str d) (fields_of v) lacks

  defined_bundle : is_undefined bundle ≡ false
  unfolding is_undefined object_of
  defined_bundle = refl

  check_bound_sealed :
      (digest : Value → Result String) (code : String)
      → digest v ≡ ok d
      → check_bound bundle digest code ≡ ok tt
  unfolding is_text
  check_bound_sealed digest code h =
      rw defined_bundle (rw omit-bundle (rw h (rw get-bundle (rw eq_refl refl))))

lookup_skip :
    (key : String) (fs gs : List (String × Value))
    → Lacks key fs
    → lookup_field key (to_fields (fs ++ gs)) ≡ lookup_field key (to_fields gs)
unfolding lookup_field to_fields
lookup_skip key [] gs h = refl
lookup_skip key ((k, w) ∷ fs) gs (p, h) = rw p (lookup_skip key fs gs h)

-- The seal of an artifact gives its fields back.
module _ (host : Host) (fs : List (String × Value))
    (lacks : All (λ f. includes f.0 ("digest" ∷ "canonical" ∷ []) ≡ false) fs) where
  omit-sealed : omit ("digest" ∷ "canonical" ∷ []) (sealed host fs) ≡ object_of fs
  unfolding omit sealed without_keys
  omit-sealed =
      rw
        (fields_of-object_of (
          fs
          ++ ("digest", str (digest_of host (object_of fs)))
            ∷ ("canonical", str (canonical_text (object_of fs)))
            ∷ []))
        (rw
          (without_keys-append ("digest" ∷ "canonical" ∷ []) fs (
            ("digest", str (digest_of host (object_of fs)))
            ∷ ("canonical", str (canonical_text (object_of fs)))
            ∷ []))
          (rw (without_keys_all ("digest" ∷ "canonical" ∷ []) fs lacks) (rw (append-nil fs) refl)))

  get_digest :
      Lacks "digest" fs → get (sealed host fs) "digest" ≡ str (digest_of host (object_of fs))
  unfolding get sealed object_of lookup_field to_fields
  get_digest l = lookup_skip "digest" fs _ l

  get_canonical :
      Lacks "canonical" fs → get (sealed host fs) "canonical" ≡ str (canonical_text (object_of fs))
  unfolding get sealed object_of lookup_field to_fields
  get_canonical l = lookup_skip "canonical" fs _ l

  verify_sealed :
      Lacks "digest" fs
      → Lacks "canonical" fs
      → is_text (get (sealed host fs) "format") "agent-harness.workflow.v1" ≡ true
      → check_bound
          (get (sealed host fs) "governance")
          (governance_digest host)
          "GOVERNANCE_TAMPERED"
        ≡ ok tt
      → check_bound (get (sealed host fs) "floor") (floor_digest host) "FLOOR_TAMPERED" ≡ ok tt
      → verify_workflow_artifact host (sealed host fs) ≡ ok tt
  unfolding verify_workflow_artifact is_text
  verify_sealed l m f g h = rw f (
      rw g (
        rw h
          (rw omit-sealed (rw (get_canonical m) (rw (get_digest l) (rw (eq_refl, eq_refl) refl))))))

bound_cases :
    (key : String) (v : Value) (digest : Result String) (fs : List (String × Value))
    → bound_field key v digest ≡ ok fs
    → (fs ≡ []) ⊎ ((d : String) × (digest ≡ ok d) × (fs ≡ (key, bundle_of v d) ∷ []))
bound_cases key v digest fs h = elim (Bool-cases (is_undefined v)) [
  | inl e ↦ inl (sym (ok-injective (rw e at h)))
  | inr e ↦
      let (d, found, same) = >>=-eq-ok digest _ (rw e at h) in
      inr (d, found, sym (ok-injective same))
]

governance_shape :
    (host : Host) (v : Value) (d : String)
    → governance_digest host v ≡ ok d
    → (is_object v ≡ true) × Lacks "digest" (fields_of v)
unfolding governance_digest validate_governance_bundle
governance_shape host v d h =
    closed-Lacks "digest" ("version" ∷ "atoms" ∷ "requiredAtomIds" ∷ "authorityMode" ∷ []) v refl
      (>>-left _ _ (>>-left (validate_governance_bundle v) _ h))

floor_shape :
    (host : Host) (v : Value) (d : String)
    → floor_digest host v ≡ ok d
    → (is_object v ≡ true) × Lacks "digest" (fields_of v)
unfolding floor_digest validate_floor_manifest
floor_shape host v d h =
    closed-Lacks "digest"
      ("format" ∷ "version" ∷ "project" ∷ "goal" ∷ "allowedEffects" ∷ "forbiddenEffects"
        ∷ "requiredReviewRoles" ∷ "maxCostUnits" ∷ "timeoutPolicy" ∷ "authorityMode" ∷ [])
      v refl (>>-left _ _ (>>-left (validate_floor_manifest v) _ h))

module _ (host : Host) (plan : Value) (specialists : List Value) (registry : Registry)
    (ordered : List String) where
  abbrev base : List (String × Value)
  base = artifact_of host plan specialists registry ordered

  bound_governance :
      (v : Value) (d : String)
      → governance_digest host v ≡ ok d
      → check_bound (bundle_of v d) (governance_digest host) "GOVERNANCE_TAMPERED" ≡ ok tt
  bound_governance v d h =
      let (is_obj, lacks) = governance_shape host v d h in
      check_bound_sealed v d is_obj lacks (governance_digest host) "GOVERNANCE_TAMPERED" h

  bound_floor :
      (v : Value) (d : String)
      → floor_digest host v ≡ ok d
      → check_bound (bundle_of v d) (floor_digest host) "FLOOR_TAMPERED" ≡ ok tt
  bound_floor v d h =
      let (is_obj, lacks) = floor_shape host v d h in
      check_bound_sealed v d is_obj lacks (floor_digest host) "FLOOR_TAMPERED" h

  verify_cases :
      (governance floor : Value) (governed floored : List (String × Value))
      → (governed ≡ [])
        ⊎ ((d : String) × (governance_digest host governance ≡ ok d)
            × (governed ≡ ("governance", bundle_of governance d) ∷ []))
      → (floored ≡ [])
        ⊎ ((d : String) × (floor_digest host floor ≡ ok d)
            × (floored ≡ ("floor", bundle_of floor d) ∷ []))
      → verify_workflow_artifact host (sealed host (base ++ (governed ++ floored))) ≡ ok tt
  unfolding artifact_of sealed get object_of lookup_field to_fields is_text is_undefined
  verify_cases governance floor governed floored (inl g) (inl f) =
      rw (g, f)
        (verify_sealed host (base ++ []) (refl, (refl, (refl, (refl, (refl, (refl, (refl, tt)))))))
          (refl, (refl, (refl, (refl, (refl, (refl, (refl, tt)))))))
          (refl, (refl, (refl, (refl, (refl, (refl, (refl, tt))))))) refl refl refl)
  verify_cases governance floor governed floored (inl g) (inr (d, q, f)) =
      rw (g, f)
        (verify_sealed host (base ++ ("floor", bundle_of floor d) ∷ [])
          (refl, (refl, (refl, (refl, (refl, (refl, (refl, (refl, tt))))))))
          (refl, (refl, (refl, (refl, (refl, (refl, (refl, (refl, tt))))))))
          (refl, (refl, (refl, (refl, (refl, (refl, (refl, (refl, tt)))))))) refl refl
          (bound_floor floor d q))
  verify_cases governance floor governed floored (inr (d, p, g)) (inl f) =
      rw (g, f)
        (verify_sealed host (base ++ ("governance", bundle_of governance d) ∷ [])
          (refl, (refl, (refl, (refl, (refl, (refl, (refl, (refl, tt))))))))
          (refl, (refl, (refl, (refl, (refl, (refl, (refl, (refl, tt))))))))
          (refl, (refl, (refl, (refl, (refl, (refl, (refl, (refl, tt)))))))) refl
          (bound_governance governance d p) refl)
  verify_cases governance floor governed floored (inr (d, p, g)) (inr (d', q, f)) =
      rw (g, f)
        (verify_sealed host
          (base ++ ("governance", bundle_of governance d) ∷ ("floor", bundle_of floor d') ∷ [])
          (refl, (refl, (refl, (refl, (refl, (refl, (refl, (refl, (refl, tt)))))))))
          (refl, (refl, (refl, (refl, (refl, (refl, (refl, (refl, (refl, tt)))))))))
          (refl, (refl, (refl, (refl, (refl, (refl, (refl, (refl, (refl, tt))))))))) refl
          (bound_governance governance d p) (bound_floor floor d' q))

-- What is compiled passes verification: the bundles that it carries are valid and match their
-- digests, and the canonical text and the digest of the artifact are those of its other fields.
pub verify-compile :
    (host : Host) (plan : Value) (specialists : List Value) (registry : Registry)
    (governance floor : Value) (w : Value)
    → compile_workflow host plan specialists registry governance floor ≡ ok w
    → verify_workflow_artifact host w ≡ ok tt
verify-compile host plan specialists registry governance floor w h =
    let (checked, (ordered, p, (governed, q, (floored, r, same)))) =
      compile_parts plan specialists registry governance floor host w h in
    rw same (
      verify_cases host plan specialists registry ordered governance floor governed floored
        (bound_cases "governance" governance (governance_digest host governance) governed q)
        (bound_cases "floor" floor (floor_digest host floor) floored r))
