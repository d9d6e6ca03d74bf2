-- ===== src/Memory/Lock/Serial.antt =====
-- The appends of one process to the log of src/memory-store.mjs, in the order of their calls.
use bounded_agent_harness.Prelude.{
  ℕ, suc, ◌+◌, ◌*◌, ◌≤◌, String, true, false, some, List, [], ◌∷◌, ◌++◌, append-nil, append_assoc,
  ◌∙◌, ap, All, Result-cases, ◌≡◌, refl, Result, ok, err, arith, Bool-cases, inl, inr,
}
use bounded_agent_harness.Json.{Value, is_object}
use bounded_agent_harness.Json.Canonical.{Host}
use bounded_agent_harness.Memory.Log.{MemoryStore, read_events, append_locked}
use bounded_agent_harness.Memory.Log.Laws.{append_locked-reads}
use bounded_agent_harness.Memory.Lock.{
  LockPolicy, take_lock, release_lock, append_event, AppendCall, with_result,
  serialize_local_append, is_retriable_lock_contention, is_held_open,
}
use bounded_agent_harness.Memory.Lock.Laws.{
  Advances, retry_from-Ends, finish_append-ok, finish_append-err,
}

-- The result of a call, and what it adds to the log. A call that is refused by its check or by the lock adds
-- nothing; any other adds its event, also where the lock is not released.
pub data Outcome (policy : LockPolicy) (fuel : ℕ)
    : AppendCall → Result Value → List Value → Type 0 where
  invalid :
      {c : AppendCall} → is_object c.event ≡ false → Outcome policy fuel c (err "INVALID_EVENT") []
  locked_out :
      {c : AppendCall} (code : String)
      → is_object c.event ≡ true
      → take_lock policy c.opening fuel ≡ some (err code)
      → Outcome policy fuel c (err code) []
  appended :
      {c : AppendCall}
      → is_object c.event ≡ true
      → take_lock policy c.opening fuel ≡ some (ok tt)
      → release_lock policy c.closing fuel ≡ some (ok tt)
      → Outcome policy fuel c (ok c.event) (c.event ∷ [])
  not_released :
      {c : AppendCall} (code : String)
      → is_object c.event ≡ true
      → take_lock policy c.opening fuel ≡ some (ok tt)
      → release_lock policy c.closing fuel ≡ some (err code)
      → Outcome policy fuel c (err code) (c.event ∷ [])

-- The outcomes of calls, in their order, and what they add together.
pub data Outcomes (policy : LockPolicy) (fuel : ℕ)
    : List AppendCall → List (Result Value) → List Value → Type 0 where
  no_calls : Outcomes policy fuel [] [] []
  next :
      {c : AppendCall} {cs : List AppendCall} {r : Result Value} {rs : List (Result Value)}
      {added more : List Value}
      → Outcome policy fuel c r added
      → Outcomes policy fuel cs rs more
      → Outcomes policy fuel (c ∷ cs) (r ∷ rs) (added ++ more)

abbrev pub Paused : LockPolicy → AppendCall → Type 0
Paused policy c = Advances policy.retry_ms c.opening × Advances policy.retry_ms c.closing

module _ (host : Host) (policy : LockPolicy) (fuel : ℕ)
    (enough : policy.timeout_ms ≤ fuel * policy.retry_ms) where
  -- What one call makes of a log that reads as a list of events.
  abbrev Served : AppendCall → MemoryStore → List Value → Type 0
  Served c s events =
      (s' : MemoryStore) × (r : Result Value) × (added : List Value) × (append_event host policy
          c.opening c.closing (suc fuel) c.event s
        ≡ some (s', r))
      × Outcome policy (suc fuel) c r added
      × (read_events host s' ≡ ok (events ++ added))

  append_event-Served :
      (c : AppendCall) (s : MemoryStore) (events : List Value)
      → Paused policy c
      → read_events host s ≡ ok events
      → Served c s events
  unfolding append_event take_lock release_lock
  append_event-Served c s events (h, k) m = elim (Bool-cases (is_object c.event)) [
    | inr o ↦
        (s, err "INVALID_EVENT", [], rw (o, append_event) refl, invalid o, rw (append-nil events) m)
    | inl o ↦
        let start : fuel + 0 ≡ fuel = omega arith in
        let (taken, t) =
          retry_from-Ends (is_retriable_lock_contention policy.windows) "EVENT_LOG_LOCKED" policy
            c.opening fuel 0 h (rw start enough) in
        let (freed, f) =
          retry_from-Ends (is_held_open policy.windows) "EVENT_LOG_LOCK_RELEASE_FAILED" policy
            c.closing fuel 0 k (rw start enough) in
        let (done, read) = append_locked-reads host c.event s events m in
        let written = append_locked host c.event s in
        elim (Result-cases taken) [
          | inr (code, e) ↦ (
            s,
            err code,
            [],
            rw (o, rw e at t, append_event) refl,
            locked_out code o (rw e at t),
            rw (append-nil events) m,
          )
          | inl (u, e) ↦ elim (Result-cases freed) [
            | inr (code, g) ↦ (
              written.0,
              err code,
              c.event ∷ [],
              rw (o, rw e at t, rw g at f, append_event)
                  (rw (finish_append-err c.event written code) refl),
              not_released code o (rw e at t) (rw g at f),
              read,
            )
            | inl (v, g) ↦ (
              written.0,
              ok c.event,
              c.event ∷ [],
              rw (o, rw e at t, rw g at f, append_event)
                  (rw (finish_append-ok c.event written v done) refl),
              appended o (rw e at t) (rw g at f),
              read,
            )
          ]
        ]
  ]

  serialize_step :
      (c : AppendCall) (cs : List AppendCall) (s s' end : MemoryStore) (r : Result Value)
      (rs : List (Result Value))
      → append_event host policy c.opening c.closing (suc fuel) c.event s ≡ some (s', r)
      → serialize_local_append host policy (suc fuel) cs s' ≡ some (end, rs)
      → serialize_local_append host policy (suc fuel) (c ∷ cs) s ≡ some (end, r ∷ rs)
  unfolding serialize_local_append
  serialize_step c cs s s' end r rs h k = rw (h, serialize_local_append) (ap (with_result r) k)

-- The calls of `append` of one process all end, when the pauses last as long as asked and the fuel allows as
-- many tries as the timeout takes. A log that reads as a list of events then reads as that list with the
-- events of those calls behind it, in the order of the calls, that were neither refused by the check of
-- the event nor failed to take the lock; and each call gets the result of its own outcome.
pub serialize_local_append-reads :
    (host : Host) (policy : LockPolicy) (fuel : ℕ) (calls : List AppendCall) (s : MemoryStore)
    (events : List Value)
    → policy.timeout_ms ≤ fuel * policy.retry_ms
    → All (Paused policy) calls
    → read_events host s ≡ ok events
    → (s' : MemoryStore) × (results : List (Result Value)) × (added : List Value)
      × (serialize_local_append host policy (suc fuel) calls s ≡ some (s', results))
      × Outcomes policy (suc fuel) calls results added
      × (read_events host s' ≡ ok (events ++ added))
unfolding serialize_local_append
serialize_local_append-reads host policy fuel [] s events enough h m =
    (s, [], [], refl, no_calls, rw (append-nil events) m)
serialize_local_append-reads host policy fuel (c ∷ cs) s events enough (p, h) m =
    let (s', r, added, ran, outcome, read) =
      append_event-Served host policy fuel enough c s events p m in
    let (s'', rs, more, rest, outcomes, end) =
      serialize_local_append-reads host policy fuel cs s' (events ++ added) enough h read in
    (
      s'',
      r ∷ rs,
      added ++ more,
      serialize_step host policy fuel enough c cs s s' s'' r rs ran rest,
      next outcome outcomes,
      end ∙ ap (λ xs. ok xs) (append_assoc events added more),
    )
