-- ===== src/Memory/Lock/Laws.antt =====
-- The loops on the lock of src/memory-store.mjs end, and appends in order.
use bounded_agent_harness.Prelude.{
  ℕ, zero, suc, ◌+◌, ◌-◌, ◌*◌, ◌≤◌, ◌<◌, String, Bool, ltb, Option, none, some, List, [], ◌∷◌, ◌++◌,
  ◌⊎◌, Result-cases, ◌≡◌, refl, Result, ok, err, arith, Bool-cases, ltb→lt, inl, inr, Option-cases,
}
use bounded_agent_harness.Json.Canonical.{Host}
use bounded_agent_harness.Json.{Value, is_object}
use bounded_agent_harness.Memory.Log.{MemoryStore, read_events, append_locked}
use bounded_agent_harness.Memory.Log.Laws.{append_locked-reads}
use bounded_agent_harness.Memory.Lock.{
  Tries, LockPolicy, retry_from, take_lock, release_lock, append_event, finish_append,
  is_retriable_lock_contention, is_held_open,
}

-- A pause lasts at least as long as it was asked to.
abbrev pub Advances : ℕ → Tries → Type 0
Advances ms tries = (attempt : ℕ) → tries.started + attempt * ms ≤ tries.clock attempt

module _ (contention : String → Bool) (late : String) (policy : LockPolicy) (tries : Tries) where
  abbrev pub Ends : ℕ → ℕ → Type 0
  Ends fuel attempt =
      (r : Result (Unit {0})) × (retry_from contention late policy tries fuel attempt ≡ some r)

  retry_from-round :
      (fuel attempt : ℕ)
      → (tries.clock attempt - tries.started < policy.timeout_ms → Ends fuel (suc attempt))
      → Ends (suc fuel) attempt
  unfolding retry_from
  retry_from-round fuel attempt later = elim (Option-cases (tries.answer attempt)) [
    | inl e ↦ rw (e, retry_from) (ok tt, refl)
    | inr (code, e) ↦
        rw (e, retry_from)
          (elim (Bool-cases (contention code)) [
            | inr c ↦ rw (c, retry_from) (err code, refl)
            | inl c ↦
                rw (c, retry_from)
                  (elim (Bool-cases (ltb (tries.clock attempt - tries.started) policy.timeout_ms)) [
                    | inr l ↦ rw (l, retry_from) (err late, refl)
                    | inl l ↦
                        rw (l, retry_from)
                          (later (ltb→lt (tries.clock attempt - tries.started) policy.timeout_ms l))
                  ])
          ])
  ]

  -- A loop on the lock ends when the tries that its fuel allows take as long as the timeout.
  pub retry_from-Ends :
      (fuel attempt : ℕ)
      → Advances policy.retry_ms tries
      → policy.timeout_ms ≤ (fuel + attempt) * policy.retry_ms
      → Ends (suc fuel) attempt
  retry_from-Ends zero attempt h k =
      retry_from-round zero attempt (λ l. let m = h attempt in absurd (omega arith))
  retry_from-Ends (suc fuel) attempt h k =
      let shift : suc fuel + attempt ≡ fuel + suc attempt = omega arith in
      retry_from-round (suc fuel) attempt
        (λ l. retry_from-Ends fuel (suc attempt) h (rw shift at k))

-- What an append comes to: it ends, with the log unchanged or longer by the event, and longer when it
-- succeeds.
abbrev pub EndsWell :
    Host → Value → MemoryStore → List Value → Option (MemoryStore × Result Value) → Type 0
EndsWell host event s events none = ⊥
EndsWell host event s events (some (s', err code)) =
    (s' ≡ s) ⊎ (read_events host s' ≡ ok (events ++ event ∷ []))
EndsWell host event s events (some (s', ok v)) = read_events host s' ≡ ok (events ++ event ∷ [])

pub finish_append-ok :
    (event : Value) (p : MemoryStore × Result (Unit {0})) (u : Unit {0})
    → p.1 ≡ ok tt
    → finish_append event p (ok u) ≡ (p.0, ok event)
unfolding finish_append
finish_append-ok event (s, ok v) u h = refl
finish_append-ok event (s, err code) u h = cc

pub finish_append-err :
    (event : Value) (p : MemoryStore × Result (Unit {0})) (code : String)
    → finish_append event p (err code) ≡ (p.0, err code)
unfolding finish_append
finish_append-err event (s, r) code = refl

-- With as much fuel as the timeout takes, an append to a log that reads as a list of events ends: the log
-- is then unchanged or has the event behind it, and it has when the append succeeds.
pub append_event-ends :
    (host : Host) (policy : LockPolicy) (opening closing : Tries) (fuel : ℕ) (event : Value)
    (s : MemoryStore) (events : List Value)
    → Advances policy.retry_ms opening
    → Advances policy.retry_ms closing
    → policy.timeout_ms ≤ fuel * policy.retry_ms
    → read_events host s ≡ ok events
    → EndsWell host event s events (append_event host policy opening closing (suc fuel) event s)
unfolding append_event take_lock release_lock
append_event-ends host policy opening closing fuel event s events h k l m =
    elim (Bool-cases (is_object event)) [
      | inr o ↦ rw (o, append_event) (inl refl)
      | inl o ↦
          let start : fuel + 0 ≡ fuel = omega arith in
          let (taken, t) =
            retry_from-Ends (is_retriable_lock_contention policy.windows) "EVENT_LOG_LOCKED" policy
              opening fuel 0 h (rw start l) in
          let (freed, f) =
            retry_from-Ends (is_held_open policy.windows) "EVENT_LOG_LOCK_RELEASE_FAILED" policy
              closing fuel 0 k (rw start l) in
          let (done, read) = append_locked-reads host event s events m in
          elim (Result-cases taken) [
            | inr (code, c) ↦ rw (o, rw c at t, append_event) (inl refl)
            | inl (u, c) ↦ elim (Result-cases freed) [
              | inr (code, g) ↦
                  rw (o, rw c at t, rw g at f, append_event)
                    (rw (finish_append-err event (append_locked host event s) code) (inr read))
              | inl (v, g) ↦
                  rw (o, rw c at t, rw g at f, append_event)
                    (rw (finish_append-ok event (append_locked host event s) v done) read)
            ]
          ]
    ]
