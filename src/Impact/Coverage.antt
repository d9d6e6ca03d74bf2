-- ===== src/Impact/Coverage.antt =====
-- src/change-impact.mjs: the files that consume a reference, and the entries of the catalog that are selected.
use bounded_agent_harness.Prelude.{
  ℕ, ◌+◌, String, Bool, true, false, not, ◌&&◌, ◌||◌, List, [], ◌∷◌, ◌++◌, map, ltb, ◌==◌, any,
  select, includes, if◌then◌else◌, Result, ok, assert, ◌>>=◌, ◌>>◌,
}
use bounded_agent_harness.Json.{Value, get, is_object, is_string, text_of}
use bounded_agent_harness.Json.Text.{codes, starts_with, is_upper, sort, sort_texts}
use bounded_agent_harness.Json.Canonical.{Host}
use bounded_agent_harness.Queue.Validate.{occurs}
use bounded_agent_harness.Workflow.Compile.{unique}
use bounded_agent_harness.Impact.{Paths}
use bounded_agent_harness.Impact.Request.{Entry, has_only, Request}
use bounded_agent_harness.Impact.Fields.{
  Tier, static, direct, boundary, full, needs_boundary, split_at, same_codes, portable_path,
}

pub data PathKind : Type 0 where
  test_file documentation_file source_file : PathKind

-- A letter without its case, as the flag `i` compares.
abbrev pub fold_case : ℕ → ℕ
fold_case c = if is_upper c then c + 32 else c

abbrev pub is_word : String → List ℕ → Bool
is_word word part = same_codes (map fold_case part) (codes word)

-- /(^|\/)(?:test|tests)(\/|$)/i
abbrev pub is_test_part : List ℕ → Bool
is_test_part part = is_word "test" part || is_word "tests" part

-- /\.(?:spec|test)\.[^.]+$/i on the parts between dots, of which the first has no dot before it.
unfoldable pub has_test_suffix : List (List ℕ) → Bool
has_test_suffix (a ∷ b ∷ c ∷ []) = (is_word "spec" b || is_word "test" b) && not (same_codes c [])
has_test_suffix (a ∷ b ∷ c ∷ d ∷ parts) = has_test_suffix (b ∷ c ∷ d ∷ parts)
has_test_suffix _ = false

-- `classify(path)`.
unfoldable pub classify : Paths → String → PathKind
classify paths path =
    if any is_test_part (split_at b'/' (codes path)) || has_test_suffix (split_at b'.' (codes path))
    then test_file
    else if includes (paths.to_lower_case (paths.extname path)) (".md" ∷ ".txt" ∷ [])
    then documentation_file
    else source_file

abbrev pub code_extensions : List String
code_extensions =
    ".cjs" ∷ ".css" ∷ ".html" ∷ ".js" ∷ ".json" ∷ ".mjs" ∷ ".ps1" ∷ ".ts" ∷ ".tsx" ∷ []

-- `verifiable(path)`.
unfoldable pub verifiable : Paths → String → Bool
verifiable paths path = includes (paths.to_lower_case (paths.extname path)) code_extensions

abbrev pub has_prefix : List String → String → Bool
has_prefix prefixes path = any (λ prefix. starts_with (codes prefix) (codes path)) prefixes

-- `entryMatches(entry, paths, tokens)`.
unfoldable pub entry_matches : Entry → (paths tokens : List String) → Bool
entry_matches entry paths tokens =
    entry.global
    || any (λ path. includes path entry.paths || has_prefix entry.prefixes path) paths
    || any (λ token. includes token entry.tokens) tokens

pub record Consumer : Type 0 where
  pub path : String
  pub kind : PathKind
  pub matched_tokens : List String

-- `entryCoversConsumer(entry, consumer)`.
unfoldable pub entry_covers_consumer : Entry → Consumer → Bool
entry_covers_consumer entry c =
    entry.global
    || includes c.path entry.paths
    || has_prefix entry.prefixes c.path
    || any (λ token. includes token entry.tokens) c.matched_tokens

-- A file of the inventory, with its path normalized.
pub record SourceFile : Type 0 where
  pub path : String
  pub text : String

unfoldable pub read_file : Paths → List String → Value → Result SourceFile
read_file paths seen item = do
  assert (is_object item) "INVALID_REPOSITORY_INVENTORY"
  assert (has_only ("path" ∷ "text" ∷ []) item) "INVALID_REPOSITORY_INVENTORY"
  path ← portable_path paths (get item "path")
  assert (not (includes path seen)) "INVALID_REPOSITORY_INVENTORY"
  assert (is_string (get item "text")) "INVALID_REPOSITORY_INVENTORY"
  ok (record { path = path; text = text_of (get item "text") })

unfoldable pub read_files : Paths → List String → List Value → Result (List SourceFile)
read_files paths seen [] = ok []
read_files paths seen (item ∷ items) = do
  file ← read_file paths seen item
  files ← read_files paths (file.path ∷ seen) items
  ok (file ∷ files)

unfoldable pub consumer_of : Paths → Request → SourceFile → Consumer
consumer_of paths input file = record {
  path = file.path;
  kind = classify paths file.path;
  matched_tokens = select (λ token. occurs (codes token) (codes file.text)) input.reference_tokens;
}

abbrev pub has_some : List String → Bool
has_some [] = false
has_some (x ∷ xs) = true

-- Whether the loop over the inventory takes a file for a consumer.
unfoldable pub is_consumer : Paths → Request → SourceFile → Bool
is_consumer paths input file =
    not (includes file.path input.changed_paths)
    && has_some (consumer_of paths input file).matched_tokens

abbrev pub path_le : Host → Consumer → Consumer → Bool
path_le host a b = host.locale_le a.path b.path

unfoldable pub consumers_of : Host → Paths → Request → List SourceFile → List Consumer
consumers_of host paths input files =
    sort (path_le host) (map (consumer_of paths input) (select (is_consumer paths input) files))

unfoldable pub tier_order : Tier → ℕ
tier_order static = 0
tier_order direct = 1
tier_order boundary = 2
tier_order full = 3

unfoldable pub runs_before : Host → Entry → Entry → Bool
runs_before host a b =
    if tier_order a.tier == tier_order b.tier
    then host.locale_le a.id b.id
    else ltb (tier_order a.tier) (tier_order b.tier)

abbrev pub has_tier : Tier → Entry → Bool
has_tier tier entry = tier_order entry.tier == tier_order tier

unfoldable pub impacted_paths : Request → List Consumer → List String
impacted_paths input consumers =
    sort_texts (unique (input.changed_paths ++ map (λ c. c.path) consumers))

abbrev pub is_selected : Request → List String → Entry → Bool
is_selected input impacted entry =
    (not (has_tier full entry) || needs_boundary input.kind)
    && entry_matches entry impacted input.reference_tokens

unfoldable pub selected_entries : Host → Request → List Consumer → List Entry
selected_entries host input consumers =
    sort (runs_before host)
      (select (is_selected input (impacted_paths input consumers)) input.catalog)

unfoldable pub focused_entries : List Entry → List Entry
focused_entries selected = select (λ e. has_tier direct e || has_tier boundary e) selected
