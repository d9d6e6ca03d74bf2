-- ===== src/Tokens/Pruning/Laws.antt =====
-- The budget of src/token-efficiency.mjs against what is selected.
use bounded_agent_harness.Prelude.{
  ℕ, ◌+◌, ◌≤◌, ◌≡◌, refl, ◌∙◌, false≢true, sym, subst, String, Bool, true, false, not, List, [],
  ◌∷◌, map, leb, ltb, leb→le, select, includes, ok, >>=-eq-ok, >>-right, assert, ok-injective, All,
  All-select, All_map, All_map2, arith, Bool-cases, inl, inr, eq_refl, ◌>>◌, ◌>>=◌, not-true,
  passed,
}
use bounded_agent_harness.Json.{Value, nat_of, elems, is_array}
use bounded_agent_harness.Tokens.{check_integer}
use bounded_agent_harness.Json.Text.{sort}
use bounded_agent_harness.Json.Sorting.{All-sort}
use bounded_agent_harness.Json.Canonical.{Host}
use bounded_agent_harness.TokenEstimate.{CapacityPolicy}
use bounded_agent_harness.Tokens.Pruning.{
  ContextRecord, normalize_record, normalize_records, total_tokens, goes_before, choose,
  is_required, id_of, is_selected, Pruning, pruning_of, prune_normalized, prune_context_records,
}
use bounded_agent_harness.Tokens.Pruning.Weight.{
  weight-selected, Apart, IsAlone, weight-required, choose-within, Apart-IsAlone,
}

normalize_record-fresh :
    (host : Host) (policy : CapacityPolicy) (seen : List String) (v : Value) (r : ContextRecord)
    → normalize_record host policy seen v ≡ ok r
    → includes r.id seen ≡ false
unfolding normalize_record
normalize_record-fresh host policy seen v r h = ground arith

normalize_records-Apart :
    (host : Host) (policy : CapacityPolicy) (seen : List String) (vs : List Value)
    (rs : List ContextRecord)
    → normalize_records host policy seen vs ≡ ok rs
    → Apart seen rs
unfolding normalize_records
normalize_records-Apart host policy seen [] rs h = subst (λ xs. Apart seen xs) (ok-injective h) tt
normalize_records-Apart host policy seen (v ∷ vs) rs h =
    let (r, e, rest) =
      >>=-eq-ok (normalize_record host policy seen v)
        (λ r. normalize_records host policy (r.id ∷ seen) vs >>= λ xs. ok (r ∷ xs)) h in
    let (xs, f, last) =
      >>=-eq-ok (normalize_records host policy (r.id ∷ seen) vs) (λ xs. ok (r ∷ xs)) rest in
    subst (λ ys. Apart seen ys) (ok-injective last)
      (
        normalize_record-fresh host policy seen v r e,
        normalize_records-Apart host policy (r.id ∷ seen) vs xs f,
      )

choose-keeps :
    (max used : ℕ) (id : String) (ids : List String) (rs : List ContextRecord)
    → includes id ids ≡ true
    → includes id (choose max used ids rs).0 ≡ true
unfolding choose
choose-keeps max used id ids [] h = h
choose-keeps max used id ids (r ∷ rs) h = elim (Bool-cases (leb (used + r.token_count) max)) [
  | inr e ↦ rw (e, choose) (choose-keeps max used id ids rs h)
  | inl e ↦
      rw (e, choose) (choose-keeps max (used + r.token_count) id (r.id ∷ ids) rs (ground arith))
]

select-holds : {A : Type 0} (p : A → Bool) (xs : List A) → All (λ x. p x ≡ true) (select p xs)
select-holds p [] = tt
select-holds p (x ∷ xs) = elim (Bool-cases (p x)) [
  | inl e ↦ rw e (e, select-holds p xs)
  | inr e ↦ rw e (select-holds p xs)
]

abbrev IsKept : List String → ContextRecord → Type 0
IsKept ids r = r.required ≡ true → includes r.id ids ≡ true

listed-later :
    (x : String) (r : ContextRecord) (rs : List ContextRecord)
    → includes x (map id_of (select is_required rs)) ≡ true
    → includes x (map id_of (select is_required (r ∷ rs))) ≡ true
listed-later x r rs h = ground arith

listed-here :
    (r : ContextRecord) (rs : List ContextRecord)
    → IsKept (map id_of (select is_required (r ∷ rs))) r
listed-here r rs k = let same = eq_refl r.id in ground arith

required-listed : (rs : List ContextRecord) → All (IsKept (map id_of (select is_required rs))) rs
required-listed [] = tt
required-listed (r ∷ rs) =
    (listed-here r rs, All_map rs (λ x f k. listed-later x.id r rs (f k)) (required-listed rs))

-- What is not selected is not required, where the required records are among the selected.
unrequired :
    (ids : List String) (r : ContextRecord)
    → IsKept ids r
    → not (is_selected ids r) ≡ true
    → r.required ≡ false
unrequired ids r f h = elim (Bool-cases r.required) [
  | inr e ↦ e
  | inl e ↦ absurd (false≢true (sym (not-true (includes r.id ids) h) ∙ f e))
]

abbrev IsWithin : ℕ → Pruning → Type 0
IsWithin max p =
    (total_tokens p.selected ≤ p.estimated_tokens)
    × (p.estimated_tokens ≤ max)
    × (p.max_tokens ≡ max)
    × All (λ r. r.required ≡ false) p.omitted

prune_normalized-IsWithin :
    (host : Host) (max : ℕ) (rs : List ContextRecord) (p : Pruning)
    → Apart [] rs
    → prune_normalized host max rs ≡ ok p
    → IsWithin max p
unfolding prune_normalized pruning_of
prune_normalized-IsWithin host max rs p apart h =
    let required = select is_required rs in
    let ids = map id_of (select is_required rs) in
    let optional = sort (goes_before host) (select (λ r. not r.required) rs) in
    let chosen = choose max (total_tokens (select is_required rs)) ids optional in
    let (fits, made) =
      passed (leb (total_tokens required) max) "TOKEN_CONTEXT_REQUIRED_OVERFLOW"
        (ok (pruning_of host max rs chosen)) h in
    let alone = Apart-IsAlone [] rs apart in
    let start = weight-required rs required (All-select (IsAlone rs) is_required rs alone) in
    let (weighs, within) =
      choose-within max (total_tokens required) ids rs optional
        (All-sort (IsAlone rs) (goes_before host) (select (λ r. not r.required) rs)
          (All-select (IsAlone rs) (λ r. not r.required) rs alone))
        start (leb→le (total_tokens required) max fits) in
    let kept : All (IsKept chosen.0) rs =
      All_map rs (λ x f k. choose-keeps max (total_tokens required) x.id ids optional (f k))
        (required-listed rs) in
    let dropped = select (λ r. not (is_selected chosen.0 r)) rs in
    subst (IsWithin max) (ok-injective made) (
      rw (weight-selected chosen.0 rs) weighs,
      within,
      refl,
      All_map2 dropped (λ x f k. unrequired chosen.0 x f k)
          (All-select (IsKept chosen.0) (λ r. not (is_selected chosen.0 r)) rs kept)
          (select-holds (λ r. not (is_selected chosen.0 r)) rs),
    )

-- What is pruned to a budget stays within it: the selected records weigh at most the tokens that are reported
-- as used, these are at most the tokens that the caller allows, which is the maximum that is reported, and
-- no required record is omitted.
pub prune_context_records-within :
    (host : Host) (records max_tokens : Value) (policy : CapacityPolicy) (p : Pruning)
    → prune_context_records host records max_tokens policy ≡ ok p
    → (total_tokens p.selected ≤ p.estimated_tokens)
      × (p.estimated_tokens ≤ nat_of max_tokens)
      × (p.max_tokens ≡ nat_of max_tokens)
      × All (λ r. r.required ≡ false) p.omitted
unfolding prune_context_records
prune_context_records-within host records max_tokens policy p h =
    let prune = λ (rs : List ContextRecord). prune_normalized host (nat_of max_tokens) rs in
    let read = normalize_records host policy [] (elems records) >>= prune in
    let positive = assert (ltb 0 (nat_of max_tokens)) "INVALID_CONTEXT_RECORDS" >> read in
    let counted =
      >>-right (assert (is_array records) "INVALID_CONTEXT_RECORDS")
        (check_integer max_tokens >> positive) h in
    let rest =
      >>-right (assert (ltb 0 (nat_of max_tokens)) "INVALID_CONTEXT_RECORDS") read
        (>>-right (check_integer max_tokens) positive counted) in
    let (rs, normalized, pruned) =
      >>=-eq-ok (normalize_records host policy [] (elems records)) prune rest in
    prune_normalized-IsWithin host (nat_of max_tokens) rs p
      (normalize_records-Apart host policy [] (elems records) rs normalized) pruned
