-- ===== src/Wake/Store/Calls.antt =====
-- The calls of src/file-wake-store.mjs and src/owner-timeout-runner.mjs as a relation, and what a consumed wake is left as.
use bounded_agent_harness.Prelude.{
  ℕ, ◌≡◌, ◌≢◌, ◌⊎◌, refl, ap, ◌∙◌, String, true, false, Result, ok, err, Result-cases, inl, inr,
  arith, Bool-cases,
}
use bounded_agent_harness.Json.{Value, get, is_text, is_truthy}
use bounded_agent_harness.Json.Canonical.{Host}
use bounded_agent_harness.Queue.Equality.{is_text-str}
use bounded_agent_harness.Wake.Store.{
  WakeStore, check_persist, write_wake, persist_wake, check_schedule, write_schedule, schedule_wake,
  read_pending_wake, read_schedule, check_acknowledge, acknowledge_wake, idle, dispatched,
  poll_owner_wake, resting,
}

abbrev pub Dispatcher : Type 0
Dispatcher = Value → Value → Result Value

-- A call of the store, at an instant of the host's clock.
pub data Call (host : Host) : WakeStore → WakeStore → Type 0 where
  persist : {s : WakeStore} (r : Value) → Call host s (persist_wake r s).0
  schedule : {s : WakeStore} (r : Value) → Call host s (schedule_wake r s).0
  acknowledge :
      {s : WakeStore} (at : ℕ) (digest : Value) → Call host s (acknowledge_wake host at digest s).0
  poll :
      {s : WakeStore} (now at : ℕ) (dispatch : Dispatcher)
      → Call host s (poll_owner_wake host now at dispatch s).store

-- Any sequence of calls.
pub data Calls (host : Host) : WakeStore → WakeStore → Type 0 where
  done : {s : WakeStore} → Calls host s s
  call : {s t u : WakeStore} → Call host s t → Calls host t u → Calls host s u

abbrev pub IsConsumed : WakeStore → Type 0
IsConsumed s = (is_text (get s.schedule "status") "CONSUMED" ≡ true) × (is_truthy s.schedule ≡ true)

pub idle≢dispatched : {digest decision : Value} → idle ≢ dispatched digest decision
idle≢dispatched h = cc

pub persist_wake-schedule : (r : Value) (s : WakeStore) → (persist_wake r s).0.schedule ≡ s.schedule
unfolding persist_wake write_wake
persist_wake-schedule r s = elim (Result-cases (check_persist r s)) [
  | inr (code, c) ↦ rw (c, persist_wake) refl
  | inl (u, c) ↦
      rw (c, persist_wake)
        (elim (Bool-cases (is_truthy s.wake)) [
          | inl w ↦ rw (w, write_wake) refl
          | inr w ↦ rw (w, write_wake) refl
        ])
]

pub schedule_wake-kept :
    (r : Value) (s : WakeStore) → is_truthy s.schedule ≡ true → (schedule_wake r s).0 ≡ s
unfolding schedule_wake write_schedule
schedule_wake-kept r s h = elim (Result-cases (check_schedule r s)) [
  | inr (code, c) ↦ rw (c, schedule_wake) refl
  | inl (u, c) ↦ rw (c, schedule_wake) (rw (h, write_schedule) refl)
]

-- The status of a schedule is one text.
pub not_scheduled : (v : Value) → is_text v "CONSUMED" ≡ true → is_text v "SCHEDULED" ≡ false
unfolding is_text
not_scheduled v h = rw (is_text-str v "CONSUMED" h) refl

pub check_acknowledge-consumed :
    (digest : Value) (s : WakeStore)
    → IsConsumed s
    → (code : String) × (check_acknowledge digest s ≡ err code)
unfolding check_acknowledge
check_acknowledge-consumed digest s (h, t) = elim (Result-cases (check_acknowledge digest s)) [
  | inr (code, c) ↦ (code, c)
  | inl (u, c) ↦ let never = not_scheduled (get s.schedule "status") h in absurd (ground arith)
]

pub acknowledge_wake-consumed :
    (host : Host) (at : ℕ) (digest : Value) (s : WakeStore)
    → IsConsumed s
    → (code : String) × (acknowledge_wake host at digest s ≡ (s, err code))
unfolding acknowledge_wake
acknowledge_wake-consumed host at digest s h =
    let (code, c) = check_acknowledge-consumed digest s h in (code, rw (c, acknowledge_wake) refl)

pub read_pending_wake-consumed :
    (host : Host) (now : ℕ) (s : WakeStore) → IsConsumed s → read_pending_wake host now s ≢ ok true
unfolding read_pending_wake read_schedule
read_pending_wake-consumed host now s (h, t) e =
    let apart = not_scheduled (get s.schedule "status") h in ground arith

-- A consumed wake is not dispatched: a poll leaves the store as it is, makes no call of its dispatcher, and
-- is idle or refused.
pub poll_owner_wake-consumed :
    (host : Host) (now at : ℕ) (dispatch : Dispatcher) (s : WakeStore)
    → IsConsumed s
    → (poll_owner_wake host now at dispatch s ≡ resting s (ok idle))
      ⊎ ((code : String) × (poll_owner_wake host now at dispatch s ≡ resting s (err code)))
unfolding poll_owner_wake
poll_owner_wake-consumed host now at dispatch s h =
    elim (Result-cases (read_pending_wake host now s)) [
      | inr (code, c) ↦ inr (code, rw (c, poll_owner_wake) refl)
      | inl (true, c) ↦ absurd (read_pending_wake-consumed host now s h c)
      | inl (false, c) ↦ inl (rw (c, poll_owner_wake) refl)
    ]

pub Call-consumed :
    (host : Host) (s t : WakeStore) → Call host s t → IsConsumed s → t.schedule ≡ s.schedule
Call-consumed host s t (persist r) h = persist_wake-schedule r s
Call-consumed host s t (schedule r) h = ap (λ x. x.schedule) (schedule_wake-kept r s h.1)
Call-consumed host s t (acknowledge at digest) h =
    let (code, e) = acknowledge_wake-consumed host at digest s h in ap (λ x. x.0.schedule) e
Call-consumed host s t (poll now at dispatch) h =
    elim (poll_owner_wake-consumed host now at dispatch s h) [
      | inl e ↦ ap (λ x. x.store.schedule) e
      | inr (code, e) ↦ ap (λ x. x.store.schedule) e
    ]

pub Calls-consumed :
    (host : Host) (s t : WakeStore) → Calls host s t → IsConsumed s → t.schedule ≡ s.schedule
Calls-consumed host s t done h = refl
Calls-consumed host s t (call {t = u} c cs) h =
    let e = Call-consumed host s u c h in Calls-consumed host u t cs (rw e h) ∙ e
