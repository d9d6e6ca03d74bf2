-- ===== src/Capacity/Laws.antt =====
-- When a request may begin, and that the gate calls its adapter only then.
use bounded_agent_harness.Prelude.{
  ℕ, ◌+◌, ◌≤◌, ◌<◌, ◌≡◌, ◌↔◌, refl, inl, inr, Bool, false≢true, true, false, Option, none, some, [],
  ◌∷◌, any, ok, arith, Bool-cases, Result-cases,
}
use bounded_agent_harness.Json.{Value}
use bounded_agent_harness.Json.Canonical.{Host}
use bounded_agent_harness.Capacity.{
  in_zone, red_zone_of, Observed, Decision, refuse, decide_remaining, is_stale, decide_capacity,
  evaluate_token_capacity, Call, read_capacity, reserve_capacity, invoke_adapter, GateHost,
  is_reservation, admit, gated_invoke,
}
use bounded_agent_harness.TokenEstimate.{CapacityPolicy, Estimate}

remaining_covers :
    (p : CapacityPolicy) (o : Observed) (e : Estimate) (zone : Bool) (r : Option ℕ)
    → ((decide_remaining p o e zone r).continues ≡ true)
      ↔ ((n : ℕ) × (r ≡ some n) × (e.required + p.minimum_headroom_tokens ≤ n))
unfolding decide_remaining refuse
remaining_covers p o e zone none = (λ h. cc, λ h. ground arith)
remaining_covers p o e zone (some n) = (λ h. (n, refl, ground arith), λ (m, q, h). ground arith)

-- A request may continue exactly when the observation is fresh, the window has not been reset, and the
-- provider reports tokens that cover what the request needs and the headroom on top of it.
pub decide_capacity-continues :
    (p : CapacityPolicy) (o : Observed) (e : Estimate) (now : ℕ)
    → ((decide_capacity p o e now).continues ≡ true) ↔ (
        (now ≤ o.observed_at + p.max_observation_age_ms)
        × (now < o.resets_at)
        × ((n : ℕ) × (o.remaining ≡ some n) × (e.required + p.minimum_headroom_tokens ≤ n)))
unfolding decide_capacity refuse is_stale
decide_capacity-continues p o e now =
    let zone = in_zone o.remaining (red_zone_of p o) in
    let covers = remaining_covers p o e zone o.remaining in
    (
      λ h. (ground arith, ground arith, covers.0 (ground arith)),
      λ (fresh, open', enough). let k = covers.1 enough in ground arith,
    )

abbrev is_invoke : Call → Bool
is_invoke (invoke_adapter request d r) = true
is_invoke _ = false

admitted :
    (host : Host) (g : GateHost) (p : CapacityPolicy) (now : ℕ) (request a t : Value) (d : Decision)
    → admit host g p now request ≡ ok (a, t, d)
    → (g.reader request ≡ ok a)
      × (g.build_request request ≡ ok t)
      × (evaluate_token_capacity host a t p now ≡ ok d)
      × (d.continues ≡ true)
unfolding admit
admitted host g p now request a t d h = (ground arith, ground arith, ground arith, ground arith)

-- The gate calls its adapter only with a decision to continue, taken on what the host's reader reported for
-- the request and on what its builder made of the request, and with a reservation that the host gave for
-- these two and the decision. It reads the capacity once, reserves once and calls once, in this order.
pub gated_invoke-invokes :
    (host : Host) (g : GateHost) (p : CapacityPolicy) (now : ℕ) (request : Value)
    → any is_invoke (gated_invoke host g p now request).calls ≡ true
    → (availability token_request : Value) × (d : Decision) × (r : Value) × (g.reader request
        ≡ ok availability)
      × (g.build_request request ≡ ok token_request)
      × (evaluate_token_capacity host availability token_request p now ≡ ok d)
      × (d.continues ≡ true)
      × (g.reservation availability token_request d ≡ ok r)
      × (is_reservation r ≡ true)
      × ((gated_invoke host g p now request).calls
          ≡ read_capacity request ∷ reserve_capacity d ∷ invoke_adapter request d r ∷ [])
unfolding gated_invoke
gated_invoke-invokes host g p now request h = elim (Result-cases (admit host g p now request)) [
  | inr (code, e) ↦ absurd (false≢true (rw e at h))
  | inl ((a, t, d), e) ↦ elim (Result-cases (g.reservation a t d)) [
    | inr (code, r) ↦ absurd (false≢true (rw (e, r) at h))
    | inl (v, r) ↦ elim (Bool-cases (is_reservation v)) [
      | inr unnamed ↦ absurd (false≢true (rw (e, r, unnamed) at h))
      | inl named ↦
          let (reported, asked, decided, go) = admitted host g p now request a t d e in
          (a, t, d, v, reported, asked, decided, go, r, named, rw (e, r, named) refl)
    ]
  ]
]
