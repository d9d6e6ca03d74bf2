-- ===== src/Governance/Laws.antt =====
-- What a validated bundle, a clean standing and an eligible promotion mean.
use bounded_agent_harness.Prelude.{
  ◌≤◌, String, ◌≡◌, ◌≢◌, refl, inl, inr, Bool, true, not, ◌&&◌, ◌||◌, some, List, [], ◌∷◌, ◌++◌,
  any, select, all, ap₂, ◌∙◌, Option-cases, find-All, All, All_map, ok, for_each, arith, Bool-cases,
  str_eq, eq_iff, for_each-each,
}
use bounded_agent_harness.Json.{Value, get, is_text, is_true, is_number, elems, nat_of, strings_of}
use bounded_agent_harness.Governance.{
  is_empty, validate_governed_atom, atom_id, atom_ids, find_atom, is_empty_array, check_required,
  validate_governance_bundle, is_active, has_passed, missing_kinds, missing_bindings, defects_of,
  is_defect, standing_of, standing_governance_queries,
}
use bounded_agent_harness.Governance.Promotion.{Thresholds, Promotion, assess_promotion}

-- An atom of a list with a given id that is active, enforced, and keeps its human floor.
pub record IsBound (atoms : List Value) (id : String) : Type 0 where
  pub atom : Value
  pub found : find_atom id atoms ≡ some atom
  pub named : atom_id atom ≡ id
  pub active : is_text (get atom "status") "ACTIVE" ≡ true
  pub enforced : elems (get atom "enforcementPoints") ≢ []
  pub human_floor :
      (is_number (get atom "reviewLevel") 0 || is_text (get atom "blastRadius") "high") ≡ true
      → is_true (get atom "humanFloorRequired") ≡ true

atom_human_floor :
    (atom : Value)
    → validate_governed_atom atom ≡ ok tt
    → (is_number (get atom "reviewLevel") 0 || is_text (get atom "blastRadius") "high") ≡ true
    → is_true (get atom "humanFloorRequired") ≡ true
unfolding validate_governed_atom
atom_human_floor atom h e = ground arith

check_required-IsBound :
    (atoms : List Value) (id : String)
    → All (λ atom. validate_governed_atom atom ≡ ok tt) atoms
    → check_required atoms id ≡ ok tt
    → IsBound atoms id
unfolding check_required is_empty_array
check_required-IsBound atoms id valid h = elim (Option-cases (find_atom id atoms)) [
  | inl missing ↦ absurd (ground arith)
  | inr (atom, found) ↦
      let (sound, named) =
        find-All (λ a. validate_governed_atom a ≡ ok tt) (λ a. str_eq (atom_id a) id) atoms valid
          found in
      record {
        atom = atom;
        found = found;
        named = (eq_iff (atom_id atom) id).0 named;
        active = ground arith;
        enforced = λ e. ground arith;
        human_floor = atom_human_floor atom sound;
      }
]

bundle_parts :
    (bundle : Value)
    → validate_governance_bundle bundle ≡ ok tt
    → (for_each validate_governed_atom (elems (get bundle "atoms")) ≡ ok tt)
      × (for_each
            (check_required (elems (get bundle "atoms")))
            (strings_of (get bundle "requiredAtomIds"))
          ≡ ok tt)
unfolding validate_governance_bundle
bundle_parts bundle h = (ground arith, ground arith)

-- Every atom that a validated bundle requires is in the bundle under its id, is active, has an
-- enforcement point, and keeps the human floor if it is of level FLOOR or of high blast radius.
pub validate_governance_bundle-IsBound :
    (bundle : Value)
    → validate_governance_bundle bundle ≡ ok tt
    → All (IsBound (elems (get bundle "atoms"))) (strings_of (get bundle "requiredAtomIds"))
validate_governance_bundle-IsBound bundle h =
    let (atoms, required) = bundle_parts bundle h in
    let valid = for_each-each validate_governed_atom (elems (get bundle "atoms")) atoms in
    All_map (strings_of (get bundle "requiredAtomIds"))
      (λ id r. check_required-IsBound (elems (get bundle "atoms")) id valid r)
      (for_each-each (check_required (elems (get bundle "atoms")))
        (strings_of (get bundle "requiredAtomIds")) required)

is_empty-append {ℓ} :
    {A : Type ℓ} (xs ys : List A) → is_empty (xs ++ ys) ≡ (is_empty xs && is_empty ys)
is_empty-append [] ys = refl
is_empty-append (x ∷ xs) ys = refl

module _ (evidence : List Value) where
  is_empty-missing_kinds :
      (id : String) (kinds : List String)
      → is_empty (missing_kinds evidence id kinds) ≡ all (has_passed evidence id) kinds
  unfolding missing_kinds
  is_empty-missing_kinds id [] = refl
  is_empty-missing_kinds id (kind ∷ kinds) = ground (arith, is_empty-missing_kinds id kinds)

  -- All the kinds of evidence that an atom requires have passed.
  abbrev pub is_proved : Value → Bool
  is_proved atom =
      all (has_passed evidence (atom_id atom)) (strings_of (get atom "requiredEvidence"))

  -- An atom that is active is enforced and proved.
  abbrev pub is_settled : Value → Bool
  is_settled atom =
      not (is_active atom)
      || (not (is_empty_array (get atom "enforcementPoints")) && is_proved atom)

  is_empty-missing_bindings :
      (atoms : List Value) → is_empty (missing_bindings evidence atoms) ≡ all is_proved atoms
  unfolding missing_bindings
  is_empty-missing_bindings [] = refl
  is_empty-missing_bindings (atom ∷ atoms) =
      is_empty-append
        (missing_kinds evidence (atom_id atom) (strings_of (get atom "requiredEvidence")))
        (missing_bindings evidence atoms)
      ∙ ap₂ ◌&&◌ (is_empty-missing_kinds (atom_id atom) (strings_of (get atom "requiredEvidence")))
          (is_empty-missing_bindings atoms)

  is_empty-defects_of :
      (items : List Value) → is_empty (defects_of items) ≡ not (any is_defect items)
  unfolding defects_of
  is_empty-defects_of [] = refl
  is_empty-defects_of (item ∷ items) = ground (arith, is_empty-defects_of items)

  settled :
      (atoms : List Value)
      → (is_empty (
            atom_ids (
              select
                (λ atom. is_empty_array (get atom "enforcementPoints"))
                (select is_active atoms)))
          && all is_proved (select is_active atoms))
        ≡ all is_settled atoms
  settled [] = refl
  settled (atom ∷ atoms) = elim (Bool-cases (is_active atom)) [
    | inl e ↦ elim (Bool-cases (is_empty_array (get atom "enforcementPoints"))) [
      | inl f ↦ rw (e, f) refl
      | inr f ↦ rw (e, f) (ground (arith, settled atoms))
    ]
    | inr e ↦ rw e (settled atoms)
  ]

  -- The standing is clean exactly when every active atom has an enforcement point and a passed
  -- evidence of each kind that it requires, and no composition defect has passed as evidence.
  pub standing_of-clean :
      (atoms : List Value)
      → (standing_of atoms evidence).clean ≡ (all is_settled atoms && not (any is_defect evidence))
  unfolding standing_of
  standing_of-clean atoms = ground (
    arith,
    settled atoms,
    is_empty-missing_bindings (select is_active atoms),
    is_empty-defects_of evidence,
  )

-- An eligible promotion rests on a clean standing of a valid bundle, on at least the least number
-- of runs, and on a record with no rejection, violation, mismatch or overrun; it never lowers the
-- level, and it changes no authority by itself.
pub assess_promotion-eligible :
    (specialist current target outcomes bundle : Value) (evidence : List Value) (t : Thresholds)
    (p : Promotion)
    → assess_promotion specialist current target outcomes bundle evidence t ≡ ok p
    → (p.authority_change ≡ "FLOOR_APPROVAL_REQUIRED")
      × (nat_of current ≤ nat_of target)
      × (p.eligible ≡ true
          → (standing_governance_queries bundle evidence ≡ ok p.standing)
            × (p.standing.clean ≡ true)
            × (nat_of t.min_completed_runs ≤ nat_of (get outcomes "completedRuns"))
            × (is_number (get outcomes "rejectedOutputs") 0 ≡ true)
            × (is_number (get outcomes "contractViolations") 0 ≡ true)
            × (is_number (get outcomes "identityMismatches") 0 ≡ true)
            × (is_number (get outcomes "costOverruns") 0 ≡ true))
unfolding assess_promotion
assess_promotion-eligible specialist current target outcomes bundle evidence t p h = (
  ground arith,
  ground arith,
  λ e. (
    ground arith,
    ground arith,
    ground arith,
    ground arith,
    ground arith,
    ground arith,
    ground arith,
  ),
)
