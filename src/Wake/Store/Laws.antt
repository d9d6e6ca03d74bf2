-- ===== src/Wake/Store/Laws.antt =====
-- What calls of src/file-wake-store.mjs and src/owner-timeout-runner.mjs do to the stored wake.
use bounded_agent_harness.Prelude.{
  err≢ok, ℕ, ◌≡◌, ◌⊎◌, refl, ap, sym, ◌∙◌, String, true, false, List, [], ◌∷◌, str_eq, Result, ok,
  err, Result-cases, inl, inr, ok-injective, Bool-cases, eq_refl, eq_iff,
}
use bounded_agent_harness.Json.{
  Value, get, str, is_text, is_truthy, fields_of, object_of, lookup_field, to_fields,
}
use bounded_agent_harness.Json.Canonical.{Host}
use bounded_agent_harness.Queue.Claim.{set_field}
use bounded_agent_harness.Wake.Store.{
  WakeStore, read_pending_wake, check_acknowledge, consumed, acknowledge_wake, Poll, idle,
  dispatched, run_dispatcher, dispatch_wake, after_acknowledge, poll_owner_wake, calling,
}
use bounded_agent_harness.Wake.Store.Calls.{
  Dispatcher, Calls, IsConsumed, idle≢dispatched, poll_owner_wake-consumed, Calls-consumed,
}

lookup_field-set_same :
    (name : String) (v : Value) (fs : List (String × Value))
    → lookup_field name (to_fields (set_field name v fs)) ≡ v
unfolding lookup_field to_fields set_field
lookup_field-set_same name v [] = rw (eq_refl name) refl
lookup_field-set_same name v ((k, w) ∷ fs) = elim (Bool-cases (str_eq k name)) [
  | inl e ↦ rw (e, lookup_field, to_fields, set_field) (rw e refl)
  | inr e ↦ rw (e, lookup_field, to_fields, set_field) (rw e (lookup_field-set_same name v fs))
]

lookup_field-set_other :
    (name other : String) (v : Value) (fs : List (String × Value))
    → str_eq name other ≡ false
    → lookup_field other (to_fields (set_field name v fs)) ≡ lookup_field other (to_fields fs)
unfolding lookup_field to_fields set_field
lookup_field-set_other name other v [] h = rw h refl
lookup_field-set_other name other v ((k, w) ∷ fs) h = elim (Bool-cases (str_eq k name)) [
  | inl e ↦
      let apart : str_eq k other ≡ false = rw ((eq_iff k name).0 e) h in
      rw (e, lookup_field, to_fields, set_field) (rw apart refl)
  | inr e ↦
      rw (e, lookup_field, to_fields, set_field)
        (rw (lookup_field-set_other name other v fs h) refl)
]

consumed-status :
    (host : Host) (at : ℕ) (v : Value) → get (consumed host at v) "status" ≡ str "CONSUMED"
unfolding consumed get object_of
consumed-status host at v =
    lookup_field-set_other "consumedAt" "status" (str (host.iso_text at))
      (set_field "status" (str "CONSUMED") (fields_of v)) refl
    ∙ lookup_field-set_same "status" (str "CONSUMED") (fields_of v)

pub consumed-IsConsumed :
    (host : Host) (at : ℕ) (s : WakeStore)
    → IsConsumed (record s { schedule = consumed host at s.schedule })
unfolding is_truthy consumed object_of is_text
consumed-IsConsumed host at s = (rw (consumed-status host at s.schedule) refl, refl)

acknowledge_wake-ok :
    (host : Host) (at : ℕ) (digest : Value) (s s' : WakeStore)
    → acknowledge_wake host at digest s ≡ (s', ok tt)
    → IsConsumed s'
unfolding acknowledge_wake
acknowledge_wake-ok host at digest s s' h = elim (Result-cases (check_acknowledge digest s)) [
  | inr (code, c) ↦
      let never : (s, err code) ≡ (s', ok tt) = rw (c, acknowledge_wake) at h in
      absurd (err≢ok (ap (λ p. p.1) never))
  | inl (u, c) ↦
      let same = rw (c, acknowledge_wake) at h in
      rw (sym (ap (λ p. p.0) same)) (consumed-IsConsumed host at s)
]

after_acknowledge-ok :
    (decision : Value) (acknowledged : WakeStore × Result (Unit {0})) (s' : WakeStore) (p : Poll)
    → after_acknowledge decision acknowledged ≡ (s', ok p)
    → acknowledged ≡ (s', ok tt)
after_acknowledge-ok decision (s, ok u) s' p h = ap (λ x. (x.0, ok tt)) h
after_acknowledge-ok decision (s, err code) s' p h = absurd (err≢ok (ap (λ x. x.1) h))

dispatch_wake-consumes :
    (host : Host) (at : ℕ) (dispatch : Dispatcher) (s s' : WakeStore) (digest decision : Value)
    → dispatch_wake host at dispatch s ≡ (s', ok (dispatched digest decision))
    → IsConsumed s'
unfolding dispatch_wake
dispatch_wake-consumes host at dispatch s s' digest decision h =
    elim (Result-cases (run_dispatcher dispatch s)) [
      | inr (code, c) ↦
          let never : (s, err code) ≡ (s', ok (dispatched digest decision)) =
            rw (c, dispatch_wake) at h in
          absurd (err≢ok (ap (λ p. p.1) never))
      | inl (d, c) ↦
          let acknowledged = acknowledge_wake host at (get s.wake "wakeDigest") s in
          acknowledge_wake-ok host at (get s.wake "wakeDigest") s s' (
            after_acknowledge-ok d acknowledged s' (dispatched digest decision)
              (rw (c, dispatch_wake) at h))
    ]

poll_owner_wake-consumes :
    (host : Host) (now at : ℕ) (dispatch : Dispatcher) (s : WakeStore) (digest decision : Value)
    → (poll_owner_wake host now at dispatch s).outcome ≡ ok (dispatched digest decision)
    → IsConsumed (poll_owner_wake host now at dispatch s).store
unfolding poll_owner_wake
poll_owner_wake-consumes host now at dispatch s digest decision h =
    elim (Result-cases (read_pending_wake host now s)) [
      | inr (code, c) ↦
          let never : err code ≡ ok (dispatched digest decision) = rw (c, poll_owner_wake) at h in
          absurd (err≢ok never)
      | inl (false, c) ↦
          let never : ok idle ≡ ok (dispatched digest decision) = rw (c, poll_owner_wake) at h in
          absurd (idle≢dispatched (ok-injective never))
      | inl (true, c) ↦
          let result = dispatch_wake host at dispatch s in
          let ended : result.1 ≡ ok (dispatched digest decision) = rw (c, poll_owner_wake) at h in
          rw (c, poll_owner_wake)
            (dispatch_wake-consumes host at dispatch s result.0 digest decision
              (ap (λ r. (result.0, r)) ended))
    ]

-- A wake is dispatched at most once: behind a poll that dispatched it, and any calls of the store, a
-- further poll does not call its dispatcher, changes nothing, and is idle or refused.
pub poll_owner_wake-once :
    (host : Host) (now at now' at' : ℕ) (dispatch dispatch' : Dispatcher) (s t : WakeStore)
    (digest decision : Value)
    → (poll_owner_wake host now at dispatch s).outcome ≡ ok (dispatched digest decision)
    → Calls host (poll_owner_wake host now at dispatch s).store t
    → ((poll_owner_wake host now' at' dispatch' t).calls ≡ [])
      × ((poll_owner_wake host now' at' dispatch' t).store ≡ t)
      × (((poll_owner_wake host now' at' dispatch' t).outcome ≡ ok idle)
          ⊎ ((code : String) × ((poll_owner_wake host now' at' dispatch' t).outcome ≡ err code)))
poll_owner_wake-once host now at now' at' dispatch dispatch' s t digest decision h calls =
    let s' = (poll_owner_wake host now at dispatch s).store in
    let consumed = poll_owner_wake-consumes host now at dispatch s digest decision h in
    elim (poll_owner_wake-consumed host now' at' dispatch' t
      (rw (Calls-consumed host s' t calls consumed) consumed)) [
        | inl e ↦ (ap (λ p. p.calls) e, ap (λ p. p.store) e, inl (ap (λ p. p.outcome) e))
        | inr (code, e) ↦
            (ap (λ p. p.calls) e, ap (λ p. p.store) e, inr (code, ap (λ p. p.outcome) e))
      ]

-- A dispatch that fails leaves the wake pending: the store is as before, and a poll at that instant with a
-- dispatcher that succeeds reaches the dispatch.
pub poll_owner_wake-retry :
    (host : Host) (now at at' : ℕ) (failing dispatch : Dispatcher) (s : WakeStore) (code : String)
    → read_pending_wake host now s ≡ ok true
    → run_dispatcher failing s ≡ err code
    → (poll_owner_wake host now at failing s ≡ calling s (s, err code))
      × (poll_owner_wake host now at' dispatch (poll_owner_wake host now at failing s).store
          ≡ calling s (dispatch_wake host at' dispatch s))
unfolding poll_owner_wake dispatch_wake
poll_owner_wake-retry host now at at' failing dispatch s code h k =
    let failed : poll_owner_wake host now at failing s ≡ calling s (s, err code) =
      rw (h, poll_owner_wake) (rw (k, dispatch_wake) refl) in
    (failed, rw failed (rw (h, poll_owner_wake) refl))
