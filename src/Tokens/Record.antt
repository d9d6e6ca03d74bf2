-- ===== src/Tokens/Record.antt =====
-- src/token-efficiency.mjs: records of the tokens used, and their sums per run.
use bounded_agent_harness.Prelude.{
  ℕ, ◌+◌, ◌-◌, String, Bool, true, false, ◌&&◌, Option, none, some, List, [], ◌∷◌, ◌++◌, ltb, leb,
  includes, find_entry, set_entry, values, Result, ok, err, assert, ◌>>=◌, ◌>>◌,
}
use bounded_agent_harness.Json.{
  Value, num, nat, str, get, is_array, is_text, is_string, elems, text_of, nat_of,
}
use bounded_agent_harness.Json.Text.{sort}
use bounded_agent_harness.Json.Canonical.{Host}
use bounded_agent_harness.Queue.Claim.{date_of}
use bounded_agent_harness.Queue.Validate.{or_default, string_of, seal, is_sealed}
use bounded_agent_harness.Tokens.{check_text, check_integer, if_given, field_if_given}

abbrev pub number : ℕ → Value
number n = num (nat n)

abbrev pub check_date : Host → Value → Result (Unit {0})
check_date host v = elim (date_of host v) [ none ↦ err "INVALID_TOKEN_USAGE" | some t ↦ ok tt ]

-- The checks of `buildTokenUsageRecord` on its arguments with their defaults.
unfoldable pub check_usage :
    Host → Value → (attempt cached reasoning reserved outcome : Value) → Result (Unit {0})
check_usage host args attempt cached reasoning reserved outcome = do
  check_text (get args "runId")
  check_text (get args "stepId")
  check_text (get args "provider")
  if_given check_text (get args "model")
  check_integer attempt
  assert (ltb 0 (nat_of attempt)) "INVALID_TOKEN_USAGE"
  check_integer (get args "inputTokens")
  check_integer cached
  check_integer (get args "outputTokens")
  check_integer reasoning
  check_integer reserved
  assert (leb (nat_of cached) (nat_of (get args "inputTokens"))) "INVALID_TOKEN_USAGE"
  assert
      (is_string outcome
        && includes (text_of outcome) ("accepted" ∷ "rejected" ∷ "failed" ∷ "unreviewed" ∷ []))
      "INVALID_TOKEN_USAGE"
  if_given (check_date host) (get args "recordedAt")

-- `buildTokenUsageRecord(args)`; the uncached tokens are natural by the check above.
unfoldable pub build_token_usage_record : Host → Value → Result Value
build_token_usage_record host args = do
  let attempt = or_default (get args "attempt") (number 1)
  let cached = or_default (get args "cachedInputTokens") (number 0)
  let reasoning = or_default (get args "reasoningTokens") (number 0)
  let reserved = or_default (get args "reservedTokens") (number 0)
  let outcome = or_default (get args "outcome") (str "unreviewed")
  let input = nat_of (get args "inputTokens")
  let output = nat_of (get args "outputTokens")
  check_usage host args attempt cached reasoning reserved outcome
  ok (
      seal host "digest" (
        ("format", str "agent-harness.token-usage.v1")
          ∷ ("version", number 1)
          ∷ ("runId", get args "runId")
          ∷ ("stepId", get args "stepId")
          ∷ ("provider", get args "provider")
          ∷ field_if_given "model" (get args "model")
        ++ ("attempt", attempt)
          ∷ ("inputTokens", number input)
          ∷ ("cachedInputTokens", cached)
          ∷ ("uncachedInputTokens", number (input - nat_of cached))
          ∷ ("outputTokens", number output)
          ∷ ("reasoningTokens", reasoning)
          ∷ ("reservedTokens", reserved)
          ∷ ("totalTokens", number (input + output))
          ∷ ("savedByCacheTokens", cached)
          ∷ ("outcome", outcome)
          ∷ field_if_given "recordedAt" (get args "recordedAt")))

-- The sums of a run; the amounts of a record are natural, as `buildTokenUsageRecord` writes them.
pub record UsageSum : Type 0 where
  pub run_id : Value
  pub calls : ℕ
  pub retries : ℕ
  pub input : ℕ
  pub cached : ℕ
  pub uncached : ℕ
  pub output : ℕ
  pub reasoning : ℕ
  pub total : ℕ
  pub reserved : ℕ
  pub saved : ℕ
  pub accepted : ℕ
  pub failed : ℕ

abbrev pub no_usage : Value → UsageSum
no_usage run_id = record {
  run_id = run_id;
  calls = 0;
  retries = 0;
  input = 0;
  cached = 0;
  uncached = 0;
  output = 0;
  reasoning = 0;
  total = 0;
  reserved = 0;
  saved = 0;
  accepted = 0;
  failed = 0;
}

abbrev pub one_if : Bool → ℕ
one_if true = 1
one_if false = 0

abbrev pub amount : Value → String → ℕ
amount r name = nat_of (get r name)

unfoldable pub add_usage : Value → UsageSum → UsageSum
add_usage r u = record u {
  calls = u.calls + 1;
  retries = u.retries + one_if (ltb 1 (amount r "attempt"));
  input = u.input + amount r "inputTokens";
  cached = u.cached + amount r "cachedInputTokens";
  uncached = u.uncached + amount r "uncachedInputTokens";
  output = u.output + amount r "outputTokens";
  reasoning = u.reasoning + amount r "reasoningTokens";
  total = u.total + amount r "totalTokens";
  reserved = u.reserved + amount r "reservedTokens";
  saved = u.saved + amount r "savedByCacheTokens";
  accepted = u.accepted + one_if (is_text (get r "outcome") "accepted");
  failed = u.failed + one_if (is_text (get r "outcome") "failed");
}

unfoldable pub check_usage_record : Host → Value → Result (Unit {0})
check_usage_record host r = do
  assert (is_text (get r "format") "agent-harness.token-usage.v1") "INVALID_TOKEN_USAGE"
  assert (is_sealed host "digest" r) "TOKEN_USAGE_TAMPERED"

abbrev pub sum_of : Value → Option UsageSum → UsageSum
sum_of run_id none = no_usage run_id
sum_of run_id (some u) = u

-- The loop of `summarizeTokenUsage`; runs are told apart by the text of their id.
unfoldable pub sum_usage :
    Host → List (String × UsageSum) → List Value → Result (List (String × UsageSum))
sum_usage host runs [] = ok runs
sum_usage host runs (r ∷ rs) = do
  let run = string_of (get r "runId")
  check_usage_record host r
  sum_usage host (set_entry run (add_usage r (sum_of (get r "runId") (find_entry run runs))) runs)
      rs

abbrev pub run_le : Host → UsageSum → UsageSum → Bool
run_le host a b = host.locale_le (text_of a.run_id) (text_of b.run_id)

-- `summarizeTokenUsage(records)`.
unfoldable pub summarize_token_usage : Host → Value → Result (List UsageSum)
summarize_token_usage host records = do
  assert (is_array records) "INVALID_TOKEN_USAGE"
  runs ← sum_usage host [] (elems records)
  ok (sort (run_le host) (values runs))
