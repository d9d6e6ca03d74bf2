-- ===== src/Impact/Analysis/Gaps.antt =====
-- What a report of src/change-impact.mjs without gaps covers.
use bounded_agent_harness.Prelude.{
  ◌≡◌, refl, subst, String, Bool, true, false, not, ◌&&◌, ◌||◌, List, [], ◌∷◌, ◌++◌, map, any, all,
  leb, length, select, All, all_of_All, ok, >>=-eq-ok, passed, ok-injective, Bool-cases, inl, inr,
  ◌>>=◌,
}
use bounded_agent_harness.Json.{Value, elems, is_array}
use bounded_agent_harness.Json.Text.{sort}
use bounded_agent_harness.Json.Sorting.{sort-All, sort-nil}
use bounded_agent_harness.Json.Canonical.{Host}
use bounded_agent_harness.Impact.{Paths}
use bounded_agent_harness.Impact.Request.{Request, normalize_request, Entry}
use bounded_agent_harness.Impact.Fields.{boundary, full, needs_boundary}
use bounded_agent_harness.Impact.Analysis.{
  covers_directly, covers_consumer, needs_test, path_gaps, gaps_of, gap_le, is_documentation,
  Impact, impact_of, analyze_change_impact, no_gaps, gap_unless, Gap, boundary_test_missing,
  full_suite_missing,
}
use bounded_agent_harness.Impact.Coverage.{
  verifiable, Consumer, SourceFile, read_files, consumer_of, is_consumer, consumers_of, path_le,
  selected_entries, focused_entries, has_tier,
}

pub append-nil_left : {A : Type 0} (xs ys : List A) → xs ++ ys ≡ [] → (xs ≡ []) × (ys ≡ [])
append-nil_left [] ys h = (refl, h)
append-nil_left (x ∷ xs) ys h = cc

-- Where nothing that passes is left without a cover, all that pass are covered.
pub covered_of_no_gap :
    {A B : Type 0} (f : A → B) (test cover : A → Bool) (xs : List A)
    → map f (select (λ x. not (cover x)) (select test xs)) ≡ []
    → All (λ x. (not (test x) || cover x) ≡ true) xs
covered_of_no_gap f test cover [] h = tt
covered_of_no_gap f test cover (x ∷ xs) h = elim (Bool-cases (test x)) [
  | inr e ↦ (rw e refl, covered_of_no_gap f test cover xs (rw e at h))
  | inl e ↦ elim (Bool-cases (cover x)) [
    | inl c ↦ (rw (e, c) refl, covered_of_no_gap f test cover xs (rw (e, c) at h))
    | inr c ↦
        let never : (f x ∷ map f (select (λ x. not (cover x)) (select test xs))) ≡ [] =
          rw (e, c) at h in
        cc
  ]
]

pub All-map_back :
    {A B : Type 0} (P : B → Type 0) (f : A → B) (xs : List A)
    → All P (map f xs)
    → All (λ x. P (f x)) xs
All-map_back P f [] h = tt
All-map_back P f (x ∷ xs) (p, h) = (p, All-map_back P f xs h)

pub All-select_back :
    {A : Type 0} (test good : A → Bool) (xs : List A)
    → All (λ x. good x ≡ true) (select test xs)
    → All (λ x. (not (test x) || good x) ≡ true) xs
All-select_back test good [] h = tt
All-select_back test good (x ∷ xs) h = elim (Bool-cases (test x)) [
  | inr e ↦ (rw e refl, All-select_back test good xs (rw e at h))
  | inl e ↦
      let (p, rest) : (good x ≡ true) × All (λ y. good y ≡ true) (select test xs) = rw e at h in
      (rw e p, All-select_back test good xs rest)
]

pub gap_unless-nil : (found : Bool) (gap : Gap) → gap_unless found gap ≡ [] → found ≡ true
gap_unless-nil true gap h = refl
gap_unless-nil false gap h = cc

pub no_gaps-nil : (gaps : List Gap) → no_gaps gaps ≡ true → gaps ≡ []
no_gaps-nil [] h = refl
no_gaps-nil (g ∷ gs) h = cc

-- A file that consumes a reference token and needs a test is covered by a focused entry.
abbrev pub file_covered : Paths → Request → List Entry → SourceFile → Bool
file_covered paths input selected file =
    not (is_consumer paths input file)
    || (not (needs_test paths (consumer_of paths input file))
        || covers_consumer (focused_entries selected) (consumer_of paths input file))

abbrev pub path_covered : Paths → Request → List Entry → String → Bool
path_covered paths input selected path =
    not (verifiable paths path) || covers_directly input selected path

module _ (host : Host) (paths : Paths) (input : Request) (files : List SourceFile) where
  abbrev consumers : List Consumer
  consumers = consumers_of host paths input files

  abbrev selected : List Entry
  selected = selected_entries host input consumers

  path_gaps-nil :
      path_gaps paths input consumers selected ≡ []
      → is_documentation input.kind ≡ false
      → (all (path_covered paths input selected) input.changed_paths ≡ true)
        × (all (file_covered paths input selected) files ≡ true)
  unfolding path_gaps consumers_of
  path_gaps-nil h d =
      let gaps = rw d at h in
      let (changed, consuming) = append-nil_left _ _ gaps in
      let covered =
        covered_of_no_gap _ (verifiable paths) (covers_directly input selected) input.changed_paths
          changed in
      let known =
        covered_of_no_gap _ (needs_test paths) (covers_consumer (focused_entries selected))
          consumers consuming in
      let by_file =
        All-map_back _ (consumer_of paths input) (select (is_consumer paths input) files) (
          sort-All _ (path_le host)
            (map (consumer_of paths input) (select (is_consumer paths input) files)) known) in
      (
        all_of_All (path_covered paths input selected) input.changed_paths covered,
        all_of_All (file_covered paths input selected) files
            (All-select_back (is_consumer paths input) _ files by_file),
      )

  impact_of-ready :
      (impact_of host paths input consumers).ready ≡ true
      → (path_gaps paths input consumers selected ≡ [])
        × ((not (needs_boundary input.kind) || any (has_tier boundary) selected) ≡ true)
        × ((not (needs_boundary input.kind) || any (has_tier full) selected) ≡ true)
  unfolding impact_of gaps_of
  impact_of-ready h =
      let by_path = path_gaps paths input consumers selected in
      let at_boundary =
        gap_unless (not (needs_boundary input.kind) || any (has_tier boundary) selected)
          boundary_test_missing in
      let at_full =
        gap_unless (not (needs_boundary input.kind) || any (has_tier full) selected)
          full_suite_missing in
      let none_left = no_gaps-nil (sort (gap_le host) (gaps_of paths input consumers selected)) h in
      let (rest, third) =
        append-nil_left (by_path ++ at_boundary) at_full
          (sort-nil (gap_le host) (gaps_of paths input consumers selected) none_left) in
      let (first, second) = append-nil_left by_path at_boundary rest in
      (
        first,
        gap_unless-nil (not (needs_boundary input.kind) || any (has_tier boundary) selected)
            boundary_test_missing second,
        gap_unless-nil (not (needs_boundary input.kind) || any (has_tier full) selected)
            full_suite_missing third,
      )

-- What is covered of a change, by the entries selected for it.
abbrev pub Covered : Paths → List SourceFile → Impact → Type 0
Covered paths files i =
    (all (path_covered paths i.request i.selected) i.request.changed_paths ≡ true)
    × (all (file_covered paths i.request i.selected) files ≡ true)
    × ((not (needs_boundary i.request.kind) || any (has_tier boundary) i.selected) ≡ true)
    × ((not (needs_boundary i.request.kind) || any (has_tier full) i.selected) ≡ true)

pub impact_of-Covered :
    (host : Host) (paths : Paths) (input : Request) (files : List SourceFile)
    → (impact_of host paths input (consumers_of host paths input files)).ready ≡ true
    → is_documentation input.kind ≡ false
    → Covered paths files (impact_of host paths input (consumers_of host paths input files))
unfolding impact_of
impact_of-Covered host paths input files h d =
    let (gaps, at_boundary, at_full) = impact_of-ready host paths input files h in
    let (changed, consuming) = path_gaps-nil host paths input files gaps d in
    (changed, consuming, at_boundary, at_full)

pub analyze_change_impact-Covered :
    (host : Host) (paths : Paths) (request repository : Value) (i : Impact)
    (files : List SourceFile)
    → analyze_change_impact host paths request repository ≡ ok i
    → read_files paths [] (elems repository) ≡ ok files
    → i.ready ≡ true
    → is_documentation i.request.kind ≡ false
    → Covered paths files i
unfolding analyze_change_impact impact_of
analyze_change_impact-Covered host paths request repository i files h r ready d =
    let (input, e, rest) = >>=-eq-ok (normalize_request paths request) _ h in
    let after = λ (files : List SourceFile).
      ok (impact_of host paths input (consumers_of host paths input files)) in
    let fits = is_array repository && leb (length (elems repository)) 20000 in
    let (checked, more) =
      passed fits "INVALID_REPOSITORY_INVENTORY" (read_files paths [] (elems repository) >>= after)
        rest in
    let same : impact_of host paths input (consumers_of host paths input files) ≡ i =
      ok-injective (rw r at more) in
    subst (λ j. j.ready ≡ true → is_documentation j.request.kind ≡ false → Covered paths files j)
      same (impact_of-Covered host paths input files) ready d
