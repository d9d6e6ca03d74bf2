-- ===== src/Impact/Analysis.antt =====
-- src/change-impact.mjs: `analyzeChangeImpact` on an inventory of the repository. The walk over the file system
-- that collects the inventory is left out.
pub mod Gaps
pub mod Laws
use bounded_agent_harness.Prelude.{
  ℕ, ◌+◌, String, Bool, true, false, not, ◌&&◌, ◌||◌, Option, none, some, List, [], ◌∷◌, ◌++◌, map,
  ltb, leb, ◌==◌, any, all, length, select, includes, str_eq, if◌then◌else◌, Result, ok, err,
  assert, ◌>>=◌, ◌>>◌,
}
use bounded_agent_harness.Json.{Value, get, is_array, is_object, is_string, elems, text_of}
use bounded_agent_harness.Json.Text.{codes, starts_with, is_upper, sort, sort_texts}
use bounded_agent_harness.Json.Canonical.{Host, ◌+++◌}
use bounded_agent_harness.Queue.Validate.{occurs}
use bounded_agent_harness.Workflow.Compile.{unique}
use bounded_agent_harness.Impact.{Paths}
use bounded_agent_harness.Impact.Request.{Entry, has_only, Request, normalize_request}
use bounded_agent_harness.Impact.Fields.{
  Tier, static, direct, boundary, full, ChangeKind, documentation, needs_boundary, split_at,
  same_codes, portable_path,
}
use bounded_agent_harness.Impact.Coverage.{
  PathKind, fold_case, is_word, is_test_part, has_test_suffix, classify, code_extensions,
  verifiable, has_prefix, entry_matches, Consumer, entry_covers_consumer, SourceFile, read_file,
  read_files, consumer_of, has_some, is_consumer, path_le, consumers_of, tier_order, runs_before,
  has_tier, impacted_paths, is_selected, selected_entries, focused_entries, test_file,
  documentation_file, source_file,
}

pub data Gap : Type 0 where
  direct_test_missing consumer_test_missing : (path : String) → Gap
  boundary_test_missing full_suite_missing : Gap

abbrev pub is_documentation : ChangeKind → Bool
is_documentation documentation = true
is_documentation kind = false

abbrev is_document : PathKind → Bool
is_document documentation_file = true
is_document kind = false

abbrev pub covers_directly : Request → List Entry → String → Bool
covers_directly input selected path =
    any (λ e. has_tier direct e && entry_matches e (path ∷ []) input.reference_tokens) selected

abbrev pub covers_consumer : List Entry → Consumer → Bool
covers_consumer focused c = any (λ e. entry_covers_consumer e c) focused

abbrev pub needs_test : Paths → Consumer → Bool
needs_test paths c = not (is_document c.kind) && verifiable paths c.path

unfoldable pub path_gaps : Paths → Request → List Consumer → List Entry → List Gap
path_gaps paths input consumers selected =
    if is_documentation input.kind
    then []
    else map direct_test_missing (
        select (λ path. not (covers_directly input selected path))
          (select (verifiable paths) input.changed_paths))
      ++ map (λ c. consumer_test_missing c.path)
          (select (λ c. not (covers_consumer (focused_entries selected) c))
            (select (needs_test paths) consumers))

abbrev pub gap_unless : Bool → Gap → List Gap
gap_unless found gap = if found then [] else gap ∷ []

-- The gaps before they are sorted.
unfoldable pub gaps_of : Paths → Request → List Consumer → List Entry → List Gap
gaps_of paths input consumers selected =
    path_gaps paths input consumers selected
    ++ gap_unless (not (needs_boundary input.kind) || any (has_tier boundary) selected)
        boundary_test_missing
    ++ gap_unless (not (needs_boundary input.kind) || any (has_tier full) selected)
        full_suite_missing

abbrev gap_code : Gap → String
gap_code (direct_test_missing path) = "DIRECT_TEST_MISSING"
gap_code (consumer_test_missing path) = "CONSUMER_TEST_MISSING"
gap_code boundary_test_missing = "BOUNDARY_TEST_MISSING"
gap_code full_suite_missing = "FULL_SUITE_MISSING"

abbrev gap_path : Gap → String
gap_path (direct_test_missing path) = path
gap_path (consumer_test_missing path) = path
gap_path gap = "null"

unfoldable pub gap_le : Host → Gap → Gap → Bool
gap_le host a b =
    if str_eq (gap_code a) (gap_code b)
    then host.locale_le (gap_path a) (gap_path b)
    else host.locale_le (gap_code a) (gap_code b)

pub data FullSuite : Type 0 where
  required_once required_unmapped not_required : FullSuite

pub record Impact : Type 0 where
  pub request : Request
  pub ready : Bool
  pub consumers : List Consumer
  pub selected : List Entry
  pub gaps : List Gap
  pub full_suite_required : Bool
  pub execution_order : List String
  pub current_change : String
  pub focused_proof : List String
  pub full_suite : FullSuite

-- `paths.join(", ")`.
abbrev listed : List String → String
listed [] = ""
listed (p ∷ []) = p
listed (p ∷ q ∷ ps) = p +++ ", " +++ listed (q ∷ ps)

abbrev pub no_gaps : List Gap → Bool
no_gaps [] = true
no_gaps (g ∷ gs) = false

abbrev entry_id : Entry → String
entry_id e = e.id

-- The result; the statuses and next actions are told by `ready`, which is whether there is no gap.
unfoldable pub impact_of : Host → Paths → Request → List Consumer → Impact
impact_of host paths input consumers =
    let selected = selected_entries host input consumers in
    let gaps = sort (gap_le host) (gaps_of paths input consumers selected) in
    (record {
      request = input;
      ready = no_gaps gaps;
      consumers = consumers;
      selected = selected;
      gaps = gaps;
      full_suite_required = needs_boundary input.kind;
      execution_order = map entry_id selected;
      current_change = input.kind_text +++ ": " +++ listed input.changed_paths;
      focused_proof = map entry_id (select (λ e. not (has_tier full e)) selected);
      full_suite =
          if needs_boundary input.kind
          then (if any (has_tier full) selected then required_once else required_unmapped)
          else not_required;
    })

-- `analyzeChangeImpact(request, repositoryEntries)`.
unfoldable pub analyze_change_impact : Host → Paths → (request repository : Value) → Result Impact
analyze_change_impact host paths request repository = do
  input ← normalize_request paths request
  assert (is_array repository && leb (length (elems repository)) 20000)
      "INVALID_REPOSITORY_INVENTORY"
  files ← read_files paths [] (elems repository)
  ok (impact_of host paths input (consumers_of host paths input files))
