-- ===== src/Impact/Analysis/Laws.antt =====
-- The verdict of src/change-impact.mjs against the repository.
use bounded_agent_harness.Prelude.{
  ◌≡◌, String, true, false, not, ◌&&◌, ◌||◌, List, [], ◌∷◌, any, All, All_map, Listed, any-Listed,
  any-select, sym, ◌∙◌, ◌⊎◌, arith, All_of_all, ok, Bool-cases, inl, inr,
}
use bounded_agent_harness.Json.{Value, elems}
use bounded_agent_harness.Json.Canonical.{Host}
use bounded_agent_harness.Impact.{Paths}
use bounded_agent_harness.Impact.Request.{Entry}
use bounded_agent_harness.Impact.Fields.{Tier, direct, boundary, full, needs_boundary}
use bounded_agent_harness.Impact.Analysis.{
  covers_directly, covers_consumer, needs_test, is_documentation, Impact, analyze_change_impact,
}
use bounded_agent_harness.Impact.Coverage.{
  verifiable, Consumer, SourceFile, read_files, consumer_of, is_consumer, focused_entries, has_tier,
  tier_order, entry_matches, entry_covers_consumer,
}
use bounded_agent_harness.Impact.Analysis.Gaps.{
  file_covered, path_covered, analyze_change_impact-Covered,
}

has_tier-eq : (tier : Tier) (e : Entry) → has_tier tier e ≡ true → e.tier ≡ tier
unfolding tier_order
has_tier-eq tier e h = ground arith

-- A selected entry of a tier.
abbrev pub Selected : Impact → Tier → (Entry → Type 0) → Type 0
Selected i tier P = (e : Entry) × Listed i.selected e × (e.tier ≡ tier) × P e

-- A selected entry of tier 1 that matches the changed path, or a token of the request.
abbrev pub HasDirectTest : Impact → String → Type 0
HasDirectTest i path =
    Selected i direct (λ e. entry_matches e (path ∷ []) i.request.reference_tokens ≡ true)

-- A selected entry of tier 1 or 2 that covers the consumer.
abbrev pub HasFocusedTest : Impact → Consumer → Type 0
HasFocusedTest i c =
    (e : Entry) × Listed i.selected e
    × ((e.tier ≡ direct) ⊎ (e.tier ≡ boundary))
    × (entry_covers_consumer e c ≡ true)

covers_directly-HasDirectTest :
    (i : Impact) (path : String)
    → covers_directly i.request i.selected path ≡ true
    → HasDirectTest i path
covers_directly-HasDirectTest i path h =
    let (e, listed, both) = any-Listed _ i.selected h in
    (e, listed, has_tier-eq direct e (ground arith), ground arith)

covers_consumer-HasFocusedTest :
    (i : Impact) (c : Consumer)
    → covers_consumer (focused_entries i.selected) c ≡ true
    → HasFocusedTest i c
unfolding focused_entries
covers_consumer-HasFocusedTest i c h =
    let focused = λ (e : Entry). has_tier direct e || has_tier boundary e in
    let (e, listed, both) =
      any-Listed (λ e. focused e && entry_covers_consumer e c) i.selected
        (sym (any-select (λ e. entry_covers_consumer e c) focused i.selected) ∙ h) in
    let tier : ((has_tier direct e) || (has_tier boundary e)) ≡ true = ground arith in
    let covers : entry_covers_consumer e c ≡ true = ground arith in
    elim (Bool-cases (has_tier direct e)) [
      | inl d ↦ (e, listed, inl (has_tier-eq direct e d), covers)
      | inr d ↦ (e, listed, inr (has_tier-eq boundary e (rw d at tier)), covers)
    ]

-- A selected entry of a tier that a change at a boundary needs.
selected_of_any :
    (i : Impact) (tier : Tier)
    → (not (needs_boundary i.request.kind) || any (has_tier tier) i.selected) ≡ true
    → needs_boundary i.request.kind ≡ true
    → Selected i tier (λ e. Unit {0})
selected_of_any i tier h b =
    let (e, listed, holds) = any-Listed (has_tier tier) i.selected (rw b at h) in
    (e, listed, has_tier-eq tier e holds, tt)

-- A change other than of documentation is ready only when three things hold. Each changed path that can be
-- verified has a selected entry of tier 1 that matches it or a token of the request. Each file of the
-- repository that contains a reference token, is no changed path and no document, and can be verified has
-- a selected entry of tier 1 or 2 that covers it. And for a change at a boundary, an entry of the tier of
-- boundaries and one of the full suite are selected.
pub analyze_change_impact-ready :
    (host : Host) (paths : Paths) (request repository : Value) (i : Impact)
    (files : List SourceFile)
    → analyze_change_impact host paths request repository ≡ ok i
    → read_files paths [] (elems repository) ≡ ok files
    → i.ready ≡ true
    → is_documentation i.request.kind ≡ false
    → All (λ path. verifiable paths path ≡ true → HasDirectTest i path) i.request.changed_paths
      × All
          (λ file.
            is_consumer paths i.request file ≡ true
            → needs_test paths (consumer_of paths i.request file) ≡ true
            → HasFocusedTest i (consumer_of paths i.request file))
          files
      × (needs_boundary i.request.kind ≡ true
          → Selected i boundary (λ e. Unit {0}) × Selected i full (λ e. Unit {0}))
analyze_change_impact-ready host paths request repository i files h r ready d =
    let (changed, consuming, at_boundary, at_full) =
      analyze_change_impact-Covered host paths request repository i files h r ready d in
    (
      All_map i.request.changed_paths (λ path c v. covers_directly-HasDirectTest i path (rw v at c))
          (All_of_all (path_covered paths i.request i.selected) i.request.changed_paths changed),
      All_map files
          (λ file c u n.
            covers_consumer-HasFocusedTest i (consumer_of paths i.request file) (rw (u, n) at c))
          (All_of_all (file_covered paths i.request i.selected) files consuming),
      λ b. (selected_of_any i boundary at_boundary b, selected_of_any i full at_full b),
    )
