-- ===== src/Wake/Schedule/Laws.antt =====
-- An armed wake of src/continuation-scheduler.mjs against the store that it was armed on.
use bounded_agent_harness.Prelude.{
  err≢ok, ℕ, ◌<◌, ◌≡◌, ◌⊎◌, ◌∙◌, refl, ap, sym, subst, String, true, false, ◌||◌, some, leb, ok,
  err, >>-right, Result-cases, inl, inr, ok-injective, Option-cases, arith, eq_refl,
}
use bounded_agent_harness.Json.{
  Value, null, get, str, is_truthy, is_null, is_undefined, is_text, is_number,
}
use bounded_agent_harness.Queue.Validate.{strict_equal, string_of}
use bounded_agent_harness.Json.Canonical.{ReadsBack, Host, digest_of}
use bounded_agent_harness.Queue.Claim.{date_of}
use bounded_agent_harness.Wake.Store.{
  WakeStore, persist_wake, schedule_wake, new_schedule, read_pending_wake, read_schedule,
  check_pending, unsigned_wake, check_persist, check_same_wake, write_wake, check_schedule,
  write_schedule,
}
use bounded_agent_harness.Wake.Store.Calls.{Calls, IsConsumed}
use bounded_agent_harness.Wake.Store.Kept.{IsArmed, Calls-Kept, read_pending_wake-same}
use bounded_agent_harness.Wake.Schedule.{
  wake_record, build_owner_wake_record, record_of_decision, Armed, arm_record, arm_owner_timeout,
  check_decision, valid_timestamp,
}

abbrev pub empty_store : WakeStore
empty_store = record { wake = null; schedule = null }

-- A record with a digest, armed on an empty store.
module _ (r : Value) (d : String) (digest : get r "wakeDigest" ≡ str d)
    (format : get r "format" ≡ str "agent-harness.owner-wake.v1") (truthy : is_truthy r ≡ true)
    (present : (is_null r || is_undefined r) ≡ false) where
  abbrev persisted : WakeStore
  persisted = record { wake = r; schedule = null }

  abbrev scheduled : WakeStore
  scheduled = record { wake = r; schedule = new_schedule r }

  check_persist-empty : check_persist r empty_store ≡ ok tt
  unfolding check_persist check_same_wake is_truthy is_text
  check_persist-empty = rw format refl

  persist_wake-empty : persist_wake r empty_store ≡ (persisted, ok r)
  unfolding persist_wake write_wake is_truthy
  persist_wake-empty = rw (check_persist-empty, persist_wake) refl

  check_schedule-persisted : check_schedule r persisted ≡ ok tt
  unfolding check_schedule check_same_wake is_truthy strict_equal
  check_schedule-persisted = rw (digest, check_schedule) (rw (eq_refl d, present) refl)

  schedule_wake-persisted : schedule_wake r persisted ≡ (scheduled, ok tt)
  unfolding schedule_wake write_schedule is_truthy
  schedule_wake-persisted = rw (check_schedule-persisted, schedule_wake) refl

  arm_record-empty : arm_record r empty_store ≡ (
    scheduled,
    ok (record {
      action = get r "action";
      next_wake_at = get r "nextWakeAt";
      wake_digest = get r "wakeDigest";
    }),
  )
  unfolding arm_record strict_equal
  arm_record-empty =
      rw (persist_wake-empty, arm_record)
        (rw (digest, eq_refl d) (rw persist_wake-empty (rw (schedule_wake-persisted, digest) refl)))

module _ (host : Host) (workflow run checkpoint : Value) (t : ℕ) where
  abbrev wake : Value
  wake = wake_record host workflow run checkpoint t

  abbrev armed_store : WakeStore
  armed_store = record {
    wake = wake_record host workflow run checkpoint t;
    schedule = new_schedule (wake_record host workflow run checkpoint t);
  }

  wake_digest :
      (d : String) × (get wake "wakeDigest" ≡ str d) × (d ≡ digest_of host (unsigned_wake wake))
  unfolding wake_record bounded_agent_harness.Queue.Validate.seal get
      bounded_agent_harness.Json.object_of unsigned_wake
  wake_digest = (digest_of host (unsigned_wake wake), refl, refl)

  wake_next : get wake "nextWakeAt" ≡ str (host.iso_text t)
  unfolding wake_record bounded_agent_harness.Queue.Validate.seal get
      bounded_agent_harness.Json.object_of
  wake_next = refl

  wake_action : get wake "action" ≡ str "RECHECK_OWNER_TIMEOUT"
  unfolding wake_record bounded_agent_harness.Queue.Validate.seal get
      bounded_agent_harness.Json.object_of
  wake_action = refl

  wake_format : get wake "format" ≡ str "agent-harness.owner-wake.v1"
  unfolding wake_record bounded_agent_harness.Queue.Validate.seal get
      bounded_agent_harness.Json.object_of
  wake_format = refl

  wake_truthy : is_truthy wake ≡ true
  unfolding wake_record bounded_agent_harness.Queue.Validate.seal is_truthy
      bounded_agent_harness.Json.object_of
  wake_truthy = refl

  wake_present : (is_null wake ≡ false) × (is_undefined wake ≡ false)
  unfolding wake_record bounded_agent_harness.Queue.Validate.seal is_null is_undefined
      bounded_agent_harness.Json.object_of
  wake_present = (refl, refl)

  store-IsArmed : IsArmed armed_store
  unfolding wake_record bounded_agent_harness.Queue.Validate.seal is_truthy
      bounded_agent_harness.Json.object_of new_schedule
  store-IsArmed = (refl, refl)

  read_pending-armed :
      (later : ℕ) → ReadsBack host → read_pending_wake host later armed_store ≡ ok (leb t later)
  unfolding read_pending_wake read_schedule check_pending new_schedule get strict_equal is_text
      is_number is_truthy string_of bounded_agent_harness.Json.object_of
  read_pending-armed later back =
      let (d, digest, same) = wake_digest in
      rw (wake_truthy, wake_next, wake_action, digest, back t, eq_refl d, eq_refl (host.iso_text t))
        (rw (sym same, eq_refl d) refl)

build_owner_wake_record-parts :
    (host : Host) (workflow run checkpoint next : Value) (now : ℕ) (r : Value)
    → build_owner_wake_record host workflow run checkpoint next now ≡ ok r
    → (t : ℕ) × (date_of host next ≡ some t)
      × (now < t)
      × (r ≡ wake_record host workflow run checkpoint t)
unfolding build_owner_wake_record valid_timestamp
build_owner_wake_record-parts host workflow run checkpoint next now r h =
    elim (Option-cases (date_of host next)) [
      | inl e ↦ ground arith
      | inr (t, e) ↦ (t, e, ground arith, ground arith)
    ]

arm_owner_timeout-record :
    (host : Host) (decision : Value) (now : ℕ) (s s' : WakeStore) (armed : Armed)
    → arm_owner_timeout host decision now s ≡ (s', ok armed)
    → (r : Value) × (build_owner_wake_record host
          (get decision "workflowDigest")
          (get decision "parentRunId")
          (get decision "checkpointDigest")
          (get (get decision "watchdog") "nextWakeAt")
          now
        ≡ ok r)
      × (arm_record r s ≡ (s', ok armed))
unfolding arm_owner_timeout record_of_decision
arm_owner_timeout-record host decision now s s' armed h =
    elim (Result-cases (record_of_decision host decision now)) [
      | inr (code, c) ↦
          let never : (s, err code) ≡ (s', ok armed) = rw (c, arm_owner_timeout) at h in
          absurd (err≢ok (ap (λ p. p.1) never))
      | inl (r, c) ↦ (
        r,
        >>-right (check_decision decision)
            (build_owner_wake_record host (get decision "workflowDigest")
              (get decision "parentRunId") (get decision "checkpointDigest")
              (get (get decision "watchdog") "nextWakeAt") now)
            c,
        rw (c, arm_owner_timeout) at h,
      )
    ]

-- A wake that is armed on an empty store lies in the future, at the instant that the watchdog named, and is
-- pending exactly from its instant on. Behind any calls of the store it is still the persisted wake, and
-- either it is still pending exactly from its instant on, or its schedule is consumed.
pub arm_owner_timeout-pending :
    (host : Host) (decision : Value) (now later : ℕ) (s u : WakeStore) (armed : Armed)
    → ReadsBack host
    → arm_owner_timeout host decision now empty_store ≡ (s, ok armed)
    → Calls host s u
    → (t : ℕ) × (date_of host (get (get decision "watchdog") "nextWakeAt") ≡ some t)
      × (now < t)
      × (armed.wake_digest ≡ get s.wake "wakeDigest")
      × (read_pending_wake host later s ≡ ok (leb t later))
      × (u.wake ≡ s.wake)
      × ((read_pending_wake host later u ≡ ok (leb t later)) ⊎ IsConsumed u)
arm_owner_timeout-pending host decision now later s u armed back h calls =
    let workflow = get decision "workflowDigest" in
    let run = get decision "parentRunId" in
    let checkpoint = get decision "checkpointDigest" in
    let next = get (get decision "watchdog") "nextWakeAt" in
    let (r, built, stored) = arm_owner_timeout-record host decision now empty_store s armed h in
    let (t, instant, future, same) =
      build_owner_wake_record-parts host workflow run checkpoint next now r built in
    let (d, digest, sealed) = wake_digest host workflow run checkpoint t in
    let (null_, undefined_) = wake_present host workflow run checkpoint t in
    let ended =
      arm_record-empty (wake_record host workflow run checkpoint t) d digest
        (wake_format host workflow run checkpoint t) (wake_truthy host workflow run checkpoint t)
        (rw (null_, undefined_) refl) in
    let result = sym ended ∙ (rw same at stored) in
    let report = ok-injective (ap (λ p. p.1) result) in
    let pending =
      subst (λ x. read_pending_wake host later x ≡ ok (leb t later)) (ap (λ p. p.0) result)
        (read_pending-armed host workflow run checkpoint t later back) in
    let (kept, status) =
      Calls-Kept host s u calls
        (subst IsArmed (ap (λ p. p.0) result) (store-IsArmed host workflow run checkpoint t)) in
    (
      t,
      instant,
      future,
      sym (ap (λ a. a.wake_digest) report) ∙ ap (λ p. get p.0.wake "wakeDigest") result,
      pending,
      kept,
      elim status [
        | inl e ↦ inl (read_pending_wake-same host later s u kept e ∙ pending)
        | inr e ↦ inr e
      ],
    )
