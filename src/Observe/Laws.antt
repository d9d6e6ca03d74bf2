-- ===== src/Observe/Laws.antt =====
-- The summaries of src/observability.mjs, run by run.
use bounded_agent_harness.Prelude.{
  ◌≡◌, refl, subst, String, Bool, true, false, ◌&&◌, Option, some, List, [], ◌∷◌, select, str_eq,
  eq_iff, find_entry, find_entry-set_same, find_entry-set_other, Bool-cases, inl, inr,
}
use bounded_agent_harness.Json.{Value, get, is_truthy}
use bounded_agent_harness.Observe.{
  RunView, apply_event, view_or_unknown, run_key, observe, observe_all,
}

-- The events of a run.
abbrev pub is_of_run : String → Value → Bool
is_of_run key event = is_truthy (get event "runId") && str_eq (run_key event) key

-- The view of a run from its own events alone.
abbrev pub view_after : Option RunView → List Value → Option RunView
view_after run [] = run
view_after run (event ∷ events) =
    view_after (some (apply_event event (view_or_unknown (get event "runId") run))) events

-- What a round leaves of the run of its event, and of another run.
abbrev Updated : Value → List (String × RunView) → String → Type 0
Updated event runs key =
    find_entry key (observe event runs)
    ≡ some (apply_event event (view_or_unknown (get event "runId") (find_entry key runs)))

observe-none :
    (event : Value) (runs : List (String × RunView))
    → is_truthy (get event "runId") ≡ false
    → observe event runs ≡ runs
unfolding observe
observe-none event runs t = rw (t, observe) refl

observe-own :
    (event : Value) (runs : List (String × RunView))
    → is_truthy (get event "runId") ≡ true
    → Updated event runs (run_key event)
unfolding observe
observe-own event runs t =
    rw (t, observe)
      (find_entry-set_same (run_key event)
        (apply_event event (view_or_unknown (get event "runId") (find_entry (run_key event) runs)))
        runs)

observe-other :
    (key : String) (event : Value) (runs : List (String × RunView))
    → is_truthy (get event "runId") ≡ true
    → str_eq (run_key event) key ≡ false
    → find_entry key (observe event runs) ≡ find_entry key runs
unfolding observe
observe-other key event runs t k =
    rw (t, observe)
      (find_entry-set_other (run_key event) key
        (apply_event event (view_or_unknown (get event "runId") (find_entry (run_key event) runs)))
        runs k)

-- What is told of a run depends on its own events alone, in their order: it is what these events make of
-- it one after the other, whatever the events of other runs between them.
pub observe_all-own_events :
    (key : String) (events : List Value) (runs : List (String × RunView))
    → find_entry key (observe_all events runs)
      ≡ view_after (find_entry key runs) (select (is_of_run key) events)
unfolding observe_all
observe_all-own_events key [] runs = refl
observe_all-own_events key (event ∷ events) runs =
    rw (observe_all-own_events key events (observe event runs))
      (elim (Bool-cases (is_truthy (get event "runId"))) [
        | inr t ↦ rw (observe-none event runs t) (rw t refl)
        | inl t ↦ elim (Bool-cases (str_eq (run_key event) key)) [
          | inl k ↦
              let same = (eq_iff (run_key event) key).0 k in
              let updated = subst (Updated event runs) same (observe-own event runs t) in
              rw updated (rw (t, k) refl)
          | inr k ↦ rw (observe-other key event runs t k) (rw (t, k) refl)
        ]
      ])
