-- ===== src/Envelope/Laws.antt =====
-- What an accepted envelope guarantees.
use bounded_agent_harness.Prelude.{ℕ, ◌≤◌, ◌<◌, ◌≡◌, refl, true, Option, none, some, ok, arith}
use bounded_agent_harness.Json.{Value, get, is_text, is_truthy, text_of, nat_of}
use bounded_agent_harness.Json.Canonical.{Host}
use bounded_agent_harness.Contracts.{is_key}
use bounded_agent_harness.Envelope.{
  same_text, is_after, check_envelope, check_handoff, validate_capability_envelope,
}

module _ (host : Host) (now : ℕ) (envelope : Value) where
  envelope_parts :
      check_envelope host now envelope ≡ ok tt
      → (nat_of (get (get envelope "authorization") "maxEffects") ≤ 1)
        × (is_after (host.parse_date (text_of (get (get envelope "authorization") "expiresAt"))) now
            ≡ true)
  unfolding check_envelope
  envelope_parts h = (ground arith, ground arith)

  not_expired : (o : Option ℕ) → is_after o now ≡ true → (t : ℕ) × (o ≡ some t) × (now < t)
  unfolding is_after
  not_expired none h = cc
  not_expired (some t) h = (t, refl, ground arith)

  -- An accepted envelope allows at most one effect and none for a read, expires after the present
  -- instant, and bears an idempotency key if its effect is external; with a handoff it names the
  -- run, the step, the workflow, the capability and the authority of the handoff.
  pub validate_capability_envelope_sound :
      (handoff adapter_id : Value) (accepted : Value)
      → validate_capability_envelope host now envelope handoff adapter_id ≡ ok accepted
      → (accepted ≡ envelope)
        × (nat_of (get (get envelope "authorization") "maxEffects") ≤ 1)
        × ((t : ℕ) × (host.parse_date (text_of (get (get envelope "authorization") "expiresAt"))
              ≡ some t)
            × (now < t))
        × (is_text (get (get envelope "authorization") "allowedEffect") "read" ≡ true
            → nat_of (get (get envelope "authorization") "maxEffects") ≡ 0)
        × (is_text (get (get envelope "authorization") "allowedEffect") "external" ≡ true
            → is_key (get envelope "idempotencyKey") ≡ true)
        × (is_truthy adapter_id ≡ true
            → same_text (get (get envelope "authorization") "allowedAdapter") adapter_id ≡ true)
        × (is_truthy handoff ≡ true
            → (same_text (get envelope "runId") (get handoff "runId") ≡ true)
              × (same_text (get envelope "stepId") (get handoff "stepId") ≡ true)
              × (same_text (get envelope "workflowDigest") (get handoff "workflowDigest") ≡ true)
              × (same_text
                    (get (get envelope "authorization") "allowedCapability")
                    (get handoff "capability")
                  ≡ true)
              × (same_text
                    (get (get envelope "authorization") "allowedAuthority")
                    (get handoff "authority")
                  ≡ true))
  unfolding validate_capability_envelope check_handoff
  validate_capability_envelope_sound handoff adapter_id accepted h =
      let checked : check_envelope host now envelope ≡ ok tt = ground arith in
      let (few, alive) = envelope_parts checked in
      (
        ground arith,
        few,
        not_expired _ alive,
        λ e. ground arith,
        λ e. ground arith,
        λ e. ground arith,
        λ e. (ground arith, ground arith, ground arith, ground arith, ground arith),
      )
