-- ===== src/Examples/Continuations.antt =====
-- The theorems on forks, the gate and the watchdog, at concrete values.
use bounded_agent_harness.Continuation
use bounded_agent_harness.Floor
use bounded_agent_harness.Json
use bounded_agent_harness.Prelude.{
  ◌+◌, ◌*◌, ◌≤◌, String, ◌≡◌, ◌↔◌, refl, true, false, none, some, [], ◌∷◌, ok,
}
use bounded_agent_harness.Json.{Value, str, bool, is_text, get, text_of}
use bounded_agent_harness.Continuation.Fork.{Forked, create_continuation_fork}
use bounded_agent_harness.Continuation.Fork.Laws.{create_continuation_fork-again}
use bounded_agent_harness.Continuation.Gate.{report_of}
use bounded_agent_harness.Continuation.Gate.Laws.{report_of-continues}
use bounded_agent_harness.Continuation.Watchdog.{
  WatchReport, due, armed, owner_timeout_watchdog, owner_timeout_watchdog_lem,
}
use bounded_agent_harness.Policy.Model.{ModelDecision, escalate, select_model_tier}
use bounded_agent_harness.Continuation.Controller.{Situation, is_high_risk, decide_continuation}
use bounded_agent_harness.Continuation.Controller.Laws.{decide_continuation-fork}
use bounded_agent_harness.Examples.Data.{
  object, array, texts, number, value_of, morning, evening, host, floor,
}

abbrev digest : Value
digest = str "sha256:0123456789abcdef0123456789abcdef0123456789abcdef0123456789abcdef"

abbrev forked : Forked
forked =
    value_of (record { fork = digest; created = false })
      (create_continuation_fork host morning (str "run-1") digest digest floor [])

create_continuation_fork-again_example :
    create_continuation_fork host evening (str "run-1") digest digest floor (forked.fork ∷ [])
    ≡ ok (record { fork = forked.fork; created = false })
unfolding Continuation.Fork.check_fork_digest Continuation.Fork.check_identifier
    create_continuation_fork Continuation.Fork.fork_key Continuation.Fork.validate_continuation_fork
    Floor.floor_digest Floor.validate_floor_manifest Json.closed_object get Json.is_boolean
    Json.is_number Json.is_safe_positive Json.is_string_array is_text Json.is_true Json.nat_of
    Json.object_of Json.strings_of Json.Canonical.digest_of Json.Text.is_bounded_id
    Json.Text.is_digest Json.Text.is_not_blank Json.Text.is_stable_id
create_continuation_fork-again_example =
    (create_continuation_fork-again host morning evening (str "run-1") digest digest floor [] forked
      refl refl).0

abbrev review : String → Value
review role = object (
    ("role", str role)
    ∷ ("status", str "PASS")
    ∷ ("workflowDigest", str "w")
    ∷ ("floorDigest", str "f")
    ∷ [])

report_of-continues_example :
    (report_of "w" "f" (review "contract" ∷ review "domain" ∷ []) ("domain" ∷ [])).continues ≡ true
unfolding get is_text text_of
report_of-continues_example =
    report_of-continues "w" "f" (review "contract" ∷ review "domain" ∷ []) ("domain" ∷ [])

abbrev report : WatchReport
report = record {
  state = armed;
  terminal = false;
  next_wake_at = some 121000;
  remaining_ms = 119000;
}

owner_timeout_watchdog_lem_example : (armed ≡ due) ↔ (1000 + 2 * 60000 ≤ 2000)
unfolding owner_timeout_watchdog
owner_timeout_watchdog_lem_example = (owner_timeout_watchdog_lem 1000 2000 2 report refl).1

abbrev role_review : String → Value
role_review role = object (
    ("format", str "agent-harness.review-record.v1")
    ∷ ("version", number 1)
    ∷ ("role", str role)
    ∷ ("reviewerId", str "reviewer")
    ∷ ("status", str "PASS")
    ∷ ("workflowDigest", digest)
    ∷ ("floorDigest", digest)
    ∷ ("scope", str "all")
    ∷ ("evidence", str "log")
    ∷ ("findings", texts [])
    ∷ ("checkedAt", str morning)
    ∷ [])

abbrev situation : Situation
situation = record {
  workflow_digest = digest;
  floor = floor;
  reviews = array (
      role_review "contract"
      ∷ role_review "domain"
      ∷ role_review "consistency"
      ∷ role_review "reconciliation"
      ∷ []);
  owner_available = bool false;
  last_owner_prompt_at = some 1000;
  now = 1801000;
  parent_run_id = str "run-1";
  checkpoint_digest = digest;
  existing_forks = [];
  risk_class = str "B";
  requested_tier = str "standard";
}

abbrev late_fork : Forked
late_fork =
    value_of (record { fork = digest; created = false })
      (create_continuation_fork host evening (str "run-1") digest digest floor [])

abbrev economy : ModelDecision
economy =
    value_of
      (record {
        decision = escalate;
        selected_tier = none;
        reason = "";
        risk_class = "B";
        fork = true;
        estimated_cost_units = 0;
        max_cost_units = 0;
      })
      (select_model_tier (str "B") (str "standard") true
        (get (get late_fork.fork "budget") "maxCostUnits"))

decide_continuation-fork_example : is_high_risk (str "B") ≡ false
unfolding decide_continuation Continuation.Fork.check_fork_digest Continuation.Fork.check_identifier
    create_continuation_fork Continuation.Fork.fork_key Continuation.Fork.validate_continuation_fork
    Continuation.Gate.check_gate_digest Continuation.Gate.evaluate_continuation_gate
    Continuation.Gate.validate_review_record owner_timeout_watchdog Floor.floor_digest
    Floor.validate_floor_manifest Json.closed_object get Json.is_boolean Json.is_number
    Json.is_safe_positive Json.is_string_array is_text Json.is_true Json.nat_of Json.object_of
    Json.strings_of Json.Canonical.digest_of Json.Text.is_bounded_id Json.Text.is_digest
    Json.Text.is_not_blank Json.Text.is_stable_id select_model_tier
decide_continuation-fork_example =
    (decide_continuation-fork host situation late_fork economy refl).3
