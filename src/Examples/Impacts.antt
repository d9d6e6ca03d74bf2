-- ===== src/Examples/Impacts.antt =====
-- The theorem on the impact of a change, at a concrete repository.
use bounded_agent_harness.Impact
use bounded_agent_harness.Json
use bounded_agent_harness.Prelude
use bounded_agent_harness.Queue
use bounded_agent_harness.Workflow
use bounded_agent_harness.Prelude.{
  ℕ, ◌≡◌, refl, String, Bool, true, false, not, ◌&&◌, ◌||◌, none, some, List, [], ◌∷◌, All, Result,
  ok, err, if◌then◌else◌, str_eq,
}
use bounded_agent_harness.Json.{Value, str, bool, elems}
use bounded_agent_harness.Impact.{Paths}
use bounded_agent_harness.Impact.Request.{Request, Entry}
use bounded_agent_harness.Impact.Fields.{boundary, full, needs_boundary, documentation}
use bounded_agent_harness.Impact.Analysis.{Impact, analyze_change_impact, not_required, needs_test}
use bounded_agent_harness.Impact.Coverage.{
  SourceFile, read_files, verifiable, is_consumer, consumer_of,
}
use bounded_agent_harness.Impact.Analysis.Laws.{
  analyze_change_impact-ready, HasDirectTest, HasFocusedTest, Selected,
}
use bounded_agent_harness.Examples.Data.{object, array, texts, value_of}
use bounded_agent_harness.Examples.Memory.{clock_host}

-- Every path here has the extension of a module.
abbrev paths : Paths
paths = record { is_absolute = λ s. false; extname = λ s. ".mjs"; to_lower_case = λ s. s }

abbrev entry : String → String → List (String × Value) → Value
entry id tier covers = object (
    ("id", str id)
    ∷ ("tier", str tier)
    ∷ ("command", str "npm test")
    ∷ ("covers", object covers)
    ∷ [])

abbrev request : Value
request = object (
    ("schema_version", str "change-impact-request.v1")
    ∷ ("change_id", str "rename")
    ∷ ("outcome", str "a new name")
    ∷ ("change_kind", str "PUBLIC_INTERFACE")
    ∷ ("changed_paths", texts ("a.mjs" ∷ []))
    ∷ ("reference_tokens", texts ("run" ∷ []))
    ∷ (
      "verification_catalog",
      array (
          entry "unit" "TIER_1_DIRECT" (("paths", texts ("a.mjs" ∷ "b.mjs" ∷ [])) ∷ [])
          ∷ entry "edge" "TIER_2_BOUNDARY" (("tokens", texts ("run" ∷ [])) ∷ [])
          ∷ entry "all" "TIER_3_FULL" (("global", bool true) ∷ [])
          ∷ []),
    )
    ∷ [])

abbrev repository : Value
repository = array (
    object (("path", str "a.mjs") ∷ ("text", str "run") ∷ [])
    ∷ object (("path", str "b.mjs") ∷ ("text", str "x run") ∷ [])
    ∷ [])

abbrev no_request : Request
no_request = record {
  change_id = "";
  outcome = "";
  kind = documentation;
  kind_text = "";
  changed_paths = [];
  reference_tokens = [];
  catalog = [];
  external_gates = [];
  ignored_prefixes = [];
}

abbrev no_impact : Impact
no_impact = record {
  request = no_request;
  ready = false;
  consumers = [];
  selected = [];
  gaps = [];
  full_suite_required = false;
  execution_order = [];
  current_change = "";
  focused_proof = [];
  full_suite = not_required;
}

abbrev impact : Impact
impact = value_of no_impact (analyze_change_impact clock_host paths request repository)

abbrev files : List SourceFile
files = value_of [] (read_files paths [] (elems repository))

analyze_change_impact-ready_example :
    All
      (λ path. verifiable paths path ≡ true → HasDirectTest impact path)
      impact.request.changed_paths
    × All
        (λ file.
          is_consumer paths impact.request file ≡ true
          → needs_test paths (consumer_of paths impact.request file) ≡ true
          → HasFocusedTest impact (consumer_of paths impact.request file))
        files
    × (needs_boundary impact.request.kind ≡ true
        → Selected impact boundary (λ e. Unit {0}) × Selected impact full (λ e. Unit {0}))
unfolding analyze_change_impact Impact.Coverage.classify Impact.Coverage.consumer_of
    Impact.Coverage.consumers_of Impact.Coverage.entry_covers_consumer Impact.Coverage.entry_matches
    Impact.Coverage.focused_entries Impact.Analysis.gaps_of Impact.Coverage.has_test_suffix
    Impact.Analysis.impact_of Impact.Coverage.impacted_paths Impact.Coverage.is_consumer
    Impact.Analysis.path_gaps Impact.Coverage.read_file read_files Impact.Coverage.runs_before
    Impact.Coverage.selected_entries Impact.Coverage.tier_order Impact.Coverage.verifiable
    Impact.Request.check_entry Impact.Fields.check_token Impact.Request.has_only
    Impact.Fields.is_blank_or_control Impact.Fields.is_control Impact.Request.is_impact_id
    Impact.Fields.kind_of needs_boundary Impact.Request.normalize_catalog
    Impact.Request.normalize_entries Impact.Request.normalize_entry Impact.Request.normalize_request
    Impact.Fields.optional_sorted Impact.Fields.portable_path Impact.Fields.same_codes
    Impact.Fields.split_at Impact.Fields.tier_of Impact.Fields.unique_sorted elems Json.get
    Json.is_array Json.is_null Json.is_object Json.is_string Json.is_text Json.is_true
    Json.is_undefined Json.keys Json.text_of Json.Text.head_and_tail Json.Text.is_id_char
    Json.Text.is_upper Json.Text.sort_texts Json.Text.starts_with Json.Text.utf16_length
    Prelude.map_each Queue.Validate.has_drive Queue.Validate.occurs Queue.Validate.with_slashes
    Workflow.Compile.unique
analyze_change_impact-ready_example =
    analyze_change_impact-ready clock_host paths request repository impact files refl refl refl refl
