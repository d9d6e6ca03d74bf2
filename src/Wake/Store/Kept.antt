-- ===== src/Wake/Store/Kept.antt =====
-- The wake of src/file-wake-store.mjs behind any calls: it is never replaced, and its schedule waits or is consumed.
use bounded_agent_harness.Prelude.{
  ℕ, ◌≡◌, ◌⊎◌, refl, ap, ap₂, ◌∙◌, true, false, Result-cases, inl, inr,
}
use bounded_agent_harness.Json.{Value, get, is_truthy}
use bounded_agent_harness.Json.Canonical.{Host}
use bounded_agent_harness.Wake.Store.{
  WakeStore, check_persist, write_wake, persist_wake, read_pending_wake, check_acknowledge,
  acknowledge_wake, run_dispatcher, dispatch_wake, poll_owner_wake,
}
use bounded_agent_harness.Wake.Store.Calls.{
  Dispatcher, Call, persist, schedule, acknowledge, poll, Calls, done, call, IsConsumed,
  schedule_wake-kept,
}
use bounded_agent_harness.Wake.Store.Laws.{consumed-IsConsumed}

abbrev pub IsArmed : WakeStore → Type 0
IsArmed s = (is_truthy s.wake ≡ true) × (is_truthy s.schedule ≡ true)

-- The wake is the same, and the schedule is the same or that of a consumed wake.
abbrev pub Kept : WakeStore → WakeStore → Type 0
Kept s t = (t.wake ≡ s.wake) × ((t.schedule ≡ s.schedule) ⊎ IsConsumed t)

Kept-same : (s t : WakeStore) → t ≡ s → Kept s t
Kept-same s t e = (ap (λ x. x.wake) e, inl (ap (λ x. x.schedule) e))

persist_wake-kept : (r : Value) (s : WakeStore) → is_truthy s.wake ≡ true → (persist_wake r s).0 ≡ s
unfolding persist_wake write_wake
persist_wake-kept r s h = elim (Result-cases (check_persist r s)) [
  | inr (code, c) ↦ rw (c, persist_wake) refl
  | inl (u, c) ↦ rw (c, persist_wake) (rw (h, write_wake) refl)
]

acknowledge_wake-Kept :
    (host : Host) (at : ℕ) (digest : Value) (s : WakeStore)
    → Kept s (acknowledge_wake host at digest s).0
unfolding acknowledge_wake
acknowledge_wake-Kept host at digest s = elim (Result-cases (check_acknowledge digest s)) [
  | inr (code, c) ↦ rw (c, acknowledge_wake) (refl, inl refl)
  | inl (u, c) ↦ rw (c, acknowledge_wake) (refl, inr (consumed-IsConsumed host at s))
]

dispatch_wake-Kept :
    (host : Host) (at : ℕ) (dispatch : Dispatcher) (s : WakeStore)
    → Kept s (dispatch_wake host at dispatch s).0
unfolding dispatch_wake
dispatch_wake-Kept host at dispatch s = elim (Result-cases (run_dispatcher dispatch s)) [
  | inr (code, c) ↦ rw (c, dispatch_wake) (refl, inl refl)
  | inl (d, c) ↦ rw (c, dispatch_wake) (acknowledge_wake-Kept host at (get s.wake "wakeDigest") s)
]

poll_owner_wake-Kept :
    (host : Host) (now at : ℕ) (dispatch : Dispatcher) (s : WakeStore)
    → Kept s (poll_owner_wake host now at dispatch s).store
unfolding poll_owner_wake
poll_owner_wake-Kept host now at dispatch s = elim (Result-cases (read_pending_wake host now s)) [
  | inr (code, c) ↦ rw (c, poll_owner_wake) (refl, inl refl)
  | inl (false, c) ↦ rw (c, poll_owner_wake) (refl, inl refl)
  | inl (true, c) ↦ rw (c, poll_owner_wake) (dispatch_wake-Kept host at dispatch s)
]

Call-Kept : (host : Host) (s t : WakeStore) → Call host s t → IsArmed s → Kept s t
Call-Kept host s t (persist r) h = Kept-same s t (persist_wake-kept r s h.0)
Call-Kept host s t (schedule r) h = Kept-same s t (schedule_wake-kept r s h.1)
Call-Kept host s t (acknowledge at digest) h = acknowledge_wake-Kept host at digest s
Call-Kept host s t (poll now at dispatch) h = poll_owner_wake-Kept host now at dispatch s

Kept-IsArmed : (s t : WakeStore) → Kept s t → IsArmed s → IsArmed t
Kept-IsArmed s t (same, inl e) (w, c) = (rw same w, rw e c)
Kept-IsArmed s t (same, inr e) (w, c) = (rw same w, e.1)

Kept-trans : (s t u : WakeStore) → Kept s t → Kept t u → Kept s u
Kept-trans s t u (w, c) (w', inr e) = (w' ∙ w, inr e)
Kept-trans s t u (w, inl c) (w', inl e) = (w' ∙ w, inl (e ∙ c))
Kept-trans s t u (w, inr c) (w', inl e) = (w' ∙ w, inr (rw e c))

pub Calls-Kept : (host : Host) (s t : WakeStore) → Calls host s t → IsArmed s → Kept s t
Calls-Kept host s t done h = (refl, inl refl)
Calls-Kept host s t (call {t = u} c cs) h =
    let first = Call-Kept host s u c h in
    Kept-trans s u t first (Calls-Kept host u t cs (Kept-IsArmed s u first h))

-- What a store with the same wake and schedule answers.
pub read_pending_wake-same :
    (host : Host) (later : ℕ) (s t : WakeStore)
    → t.wake ≡ s.wake
    → t.schedule ≡ s.schedule
    → read_pending_wake host later t ≡ read_pending_wake host later s
read_pending_wake-same host later s t w c =
    ap₂ (λ x y. read_pending_wake host later (record { wake = x; schedule = y })) w c
