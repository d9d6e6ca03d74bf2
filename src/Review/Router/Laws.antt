-- ===== src/Review/Router/Laws.antt =====
-- The choice of src/specialist-router.mjs against the profiles.
use bounded_agent_harness.Prelude.{
  ◌≡◌, refl, subst, true, List, [], ◌∷◌, map, select, All, ok, >>=-eq-ok, >>-left, >>-right,
  for_each, for_each-each, ok-injective, ◌>>=◌, Bool-cases, inl, inr,
}
use bounded_agent_harness.Json.{Value, get}
use bounded_agent_harness.Json.Sorting.{All-sort}
use bounded_agent_harness.Json.Canonical.{Host}
use bounded_agent_harness.Contracts.{validate_specialist}
use bounded_agent_harness.Review.Router.{
  Ranked, rank_of, ranks_before, is_eligible, Selection, selection_of, first_ranked, eligible_ranks,
  select_specialist,
}

-- A valid profile with the capability and the authority.
abbrev pub IsChoice : (capability authority : Value) → Value → Type 0
IsChoice capability authority profile =
    (validate_specialist profile ≡ ok tt) × (is_eligible capability authority profile ≡ true)

choices :
    (capability authority : Value) (specialists : List Value)
    → All (λ p. validate_specialist p ≡ ok tt) specialists
    → All
        (λ r. IsChoice capability authority r.profile)
        (map rank_of (select (is_eligible capability authority) specialists))
unfolding rank_of
choices capability authority [] h = tt
choices capability authority (p ∷ ps) (v, h) =
    elim (Bool-cases (is_eligible capability authority p)) [
      | inl e ↦ rw e ((v, e), choices capability authority ps h)
      | inr e ↦ rw e (choices capability authority ps h)
    ]

first_ranked-All :
    (P : Ranked → Type 0) (rs : List Ranked) (r : Ranked) → All P rs → first_ranked rs ≡ ok r → P r
first_ranked-All P [] r h e = cc
first_ranked-All P (x ∷ rs) r (p, h) e = subst P (ok-injective e) p

-- The specialist that is selected is one of a valid profile with the capability and the authority.
pub select_specialist-IsChoice :
    (host : Host) (capability authority : Value) (specialists : List Value) (s : Selection)
    → select_specialist host capability authority specialists ≡ ok s
    → (profile : Value) × IsChoice capability authority profile × (s.specialist ≡ get profile "id")
unfolding select_specialist eligible_ranks selection_of
select_specialist-IsChoice host capability authority specialists s h =
    let ranks = eligible_ranks host capability authority specialists in
    let chosen = first_ranked ranks >>= λ winner. ok (selection_of winner) in
    let valid =
      for_each-each validate_specialist specialists
        (>>-left (for_each validate_specialist specialists) chosen h) in
    let (winner, e, made) =
      >>=-eq-ok (first_ranked ranks) (λ winner. ok (selection_of winner))
        (>>-right (for_each validate_specialist specialists) chosen h) in
    let all_choices =
      All-sort (λ r. IsChoice capability authority r.profile) (ranks_before host)
        (map rank_of (select (is_eligible capability authority) specialists))
        (choices capability authority specialists valid) in
    (
      winner.profile,
      first_ranked-All (λ r. IsChoice capability authority r.profile) ranks winner all_choices e,
      subst (λ x. x.specialist ≡ get winner.profile "id") (ok-injective made) refl,
    )
