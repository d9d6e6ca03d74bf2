-- ===== src/Memory/Heartbeat/Laws.antt =====
-- Heartbeats of src/heartbeat.mjs: what an accepted log of them keeps, and the summary against the log.
use bounded_agent_harness.Prelude.{
  err≢ok, ℕ, ◌≡◌, refl, ap, sym, String, true, ◌&&◌, Option, none, some, List, [], ◌∷◌, ◌++◌,
  append-nil, select, select-append, last, leb, str_eq, ok, err, ◌>>=◌, ◌>>◌, >>-left, >>-right,
  Bool-cases, Result-cases, inl, inr, find_entry, set_entry, find_entry-set_same,
  find_entry-set_other, ok-injective, arith, if◌then◌else◌, eq_iff,
}
use bounded_agent_harness.Json.{Value, get, nat_of, str, text_of}
use bounded_agent_harness.Json.Canonical.{ReadsBack, Host}
use bounded_agent_harness.Queue.Claim.{date_of}
use bounded_agent_harness.Queue.Validate.{strict_equal, string_of}
use bounded_agent_harness.Memory.Log.{MemoryStore, read_events}
use bounded_agent_harness.Memory.Log.Laws.{append_locked-reads}
use bounded_agent_harness.Queue.Equality.{strict_equal-eq}
use bounded_agent_harness.Memory.Heartbeat.{
  is_beat, is_beat_of, is_until, check_prior, new_beat, check_beat, admit_beat, record_heartbeat,
  latest_beats, beat_key,
}

abbrev instant : Option ℕ → ℕ
instant none = 0
instant (some t) = t

-- One heartbeat behind another: of the same workflow, no earlier, and at no less cost.
abbrev pub Follows : Host → Value → Value → Type 0
Follows host p e =
    (strict_equal (get p "workflowDigest") (get e "workflowDigest") ≡ true)
    × (is_until (date_of host (get p "at")) (instant (date_of host (get e "at"))) ≡ true)
    × (leb (nat_of (get p "spentCostUnits")) (nat_of (get e "spentCostUnits")) ≡ true)

abbrev pub Steady : Host → List Value → Type 0
Steady host [] = Unit
Steady host (x ∷ []) = Unit
Steady host (x ∷ y ∷ xs) = Follows host x y × Steady host (y ∷ xs)

Steady-append :
    (host : Host) (xs : List Value) (e : Value)
    → Steady host xs
    → ((p : Value) → last xs ≡ some p → Follows host p e)
    → Steady host (xs ++ e ∷ [])
Steady-append host [] e h f = tt
Steady-append host (x ∷ []) e h f = (f x refl, tt)
Steady-append host (x ∷ y ∷ xs) e (k, h) f = (k, Steady-append host (y ∷ xs) e h f)

check_prior-Follows :
    (host : Host) (run_id worker_id digest spent : Value) (at : ℕ) (p : Value)
    → ReadsBack host
    → check_prior host digest spent at (some p) ≡ ok tt
    → Follows host p (new_beat host run_id worker_id digest spent at)
unfolding check_prior new_beat get bounded_agent_harness.Json.object_of string_of
check_prior-Follows host run_id worker_id digest spent at p back h =
    (ground arith, rw (back at) (ground arith), ground arith)

admit_beat-parts :
    (host : Host) (run_id worker_id digest spent : Value) (at : ℕ) (s : MemoryStore) (e : Value)
    (events : List Value)
    → read_events host s ≡ ok events
    → admit_beat host run_id worker_id digest spent at s ≡ ok e
    → (check_prior host digest spent at (last (select (is_beat_of run_id worker_id) events))
        ≡ ok tt)
      × (e ≡ new_beat host run_id worker_id digest spent at)
unfolding admit_beat
admit_beat-parts host run_id worker_id digest spent at s e events h k =
    let rest =
      >>-right (check_beat run_id worker_id digest spent)
        (read_events host s >>= λ events.
          (check_prior host digest spent at (last (select (is_beat_of run_id worker_id) events))
            >> ok (new_beat host run_id worker_id digest spent at)))
        k in
    let checked = rw h at rest in
    let prior =
      check_prior host digest spent at (last (select (is_beat_of run_id worker_id) events)) in
    let done = ok (new_beat host run_id worker_id digest spent at) in
    (>>-left prior done checked, sym (ok-injective (>>-right prior done checked)))

record_heartbeat-ok :
    (host : Host) (run_id worker_id digest spent : Value) (at : ℕ) (s s' : MemoryStore) (e : Value)
    (events : List Value)
    → read_events host s ≡ ok events
    → record_heartbeat host run_id worker_id digest spent at s ≡ (s', ok e)
    → (admit_beat host run_id worker_id digest spent at s ≡ ok e)
      × (read_events host s' ≡ ok (events ++ e ∷ []))
unfolding record_heartbeat
record_heartbeat-ok host run_id worker_id digest spent at s s' e events h m =
    elim (Result-cases (admit_beat host run_id worker_id digest spent at s)) [
      | inr (code, c) ↦
          let never : (s, err code) ≡ (s', ok e) = rw (c, record_heartbeat) at m in
          absurd (err≢ok (ap (λ p. p.1) never))
      | inl (f, c) ↦
          let (done, read) = append_locked-reads host f s events h in
          let ended = rw (c, done, record_heartbeat) at m in
          let same : f ≡ e = ok-injective (ap (λ p. p.1) ended) in
          (rw (sym same) c, rw (sym (ap (λ p. p.0) ended), sym same) read)
    ]

new_beat-is_beat_of :
    (host : Host) (run_id worker_id digest spent : Value) (at : ℕ) (run worker : Value)
    → is_beat_of run worker (new_beat host run_id worker_id digest spent at) ≡ true
    → (run_id ≡ run) × (worker_id ≡ worker)
unfolding is_beat_of new_beat get bounded_agent_harness.Json.object_of
new_beat-is_beat_of host run_id worker_id digest spent at run worker h =
    (strict_equal-eq run_id run (ground arith), strict_equal-eq worker_id worker (ground arith))

-- A recorded heartbeat is the last event of the log, and the heartbeats of each worker in each run stay
-- steady: of one workflow, and never back in time or in cost.
pub record_heartbeat-Steady :
    (host : Host) (run_id worker_id digest spent : Value) (at : ℕ) (s s' : MemoryStore) (e : Value)
    (events : List Value) (run worker : Value)
    → ReadsBack host
    → read_events host s ≡ ok events
    → Steady host (select (is_beat_of run worker) events)
    → record_heartbeat host run_id worker_id digest spent at s ≡ (s', ok e)
    → (read_events host s' ≡ ok (events ++ e ∷ []))
      × Steady host (select (is_beat_of run worker) (events ++ e ∷ []))
record_heartbeat-Steady host run_id worker_id digest spent at s s' e events run worker back h k m =
    let (admitted, read) =
      record_heartbeat-ok host run_id worker_id digest spent at s s' e events h m in
    let (prior, same) =
      admit_beat-parts host run_id worker_id digest spent at s e events h admitted in
    (
      read,
      rw (select-append (is_beat_of run worker) events (e ∷ []))
          (elim (Bool-cases (is_beat_of run worker e)) [
            | inr c ↦ rw (c, append-nil (select (is_beat_of run worker) events)) k
            | inl c ↦
                let (r, w) =
                  new_beat-is_beat_of host run_id worker_id digest spent at run worker
                    (rw same at c) in
                rw c (
                  Steady-append host (select (is_beat_of run worker) events) e k (λ p l. rw same (
                    check_prior-Follows host run_id worker_id digest spent at p back
                      (rw (r, w, l) at prior))))
          ]),
    )

-- The last event of the list with a key, or else the one that the map holds.
abbrev pub last_of : String → Option Value → List Value → Option Value
last_of key found [] = found
last_of key found (event ∷ events) =
    last_of key (if is_beat event && str_eq (beat_key event) key then some event else found) events

-- For each run and worker the summary is built from the last of its heartbeats in the log.
pub latest_beats-last :
    (key : String) (latest : List (String × Value)) (events : List Value)
    → find_entry key (latest_beats latest events) ≡ last_of key (find_entry key latest) events
unfolding latest_beats
latest_beats-last key latest [] = refl
latest_beats-last key latest (event ∷ events) =
    rw
      (latest_beats-last key
        (if is_beat event then set_entry (beat_key event) event latest else latest) events)
      (elim (Bool-cases (is_beat event)) [
        | inr b ↦ rw b refl
        | inl b ↦ elim (Bool-cases (str_eq (beat_key event) key)) [
          | inl k ↦
              let same = (eq_iff (beat_key event) key).0 k in
              rw (b, k, same, find_entry-set_same key event latest) refl
          | inr k ↦ rw (b, k, find_entry-set_other (beat_key event) key event latest k) refl
        ]
      ])
