-- ===== src/Tokens/Usage.antt =====
-- src/token-efficiency.mjs: sums of the tokens used that callers pass, and the comparison of two of them.
use bounded_agent_harness.Prelude.{
  ℕ, suc, ◌+◌, ◌-◌, Bool, not, ◌&&◌, ◌||◌, Option, none, some, List, [], ◌∷◌, map_each, leb, ◌==◌,
  all, if◌then◌else◌, Result, ok, err, assert, ◌>>=◌, ◌>>◌,
}
use bounded_agent_harness.Json.{
  Value, Number, nat, neg, get, is_array, is_text, is_undefined, is_null, undefined, elems,
}
use bounded_agent_harness.Json.Canonical.{Host}
use bounded_agent_harness.Tokens.Record.{UsageSum, no_usage, amount, summarize_token_usage}

-- A summary that a caller passes, with 0 for what it lacks.
unfoldable pub given_usage : Value → UsageSum
given_usage v = record {
  run_id = get v "runId";
  calls = amount v "calls";
  retries = amount v "retries";
  input = amount v "inputTokens";
  cached = amount v "cachedInputTokens";
  uncached = amount v "uncachedInputTokens";
  output = amount v "outputTokens";
  reasoning = amount v "reasoningTokens";
  total = amount v "totalTokens";
  reserved = amount v "reservedTokens";
  saved = amount v "savedByCacheTokens";
  accepted = amount v "acceptedCalls";
  failed = amount v "failedCalls";
}

-- A property of null or undefined cannot be read.
unfoldable pub read_usage : Value → Result UsageSum
read_usage v = do assert (not (is_null v || is_undefined v)) "UNEXPECTED_ERROR"; ok (given_usage v)

unfoldable pub merge_usage : UsageSum → UsageSum → UsageSum
merge_usage u w = record u {
  calls = u.calls + w.calls;
  retries = u.retries + w.retries;
  input = u.input + w.input;
  cached = u.cached + w.cached;
  uncached = u.uncached + w.uncached;
  output = u.output + w.output;
  reasoning = u.reasoning + w.reasoning;
  total = u.total + w.total;
  reserved = u.reserved + w.reserved;
  saved = u.saved + w.saved;
  accepted = u.accepted + w.accepted;
  failed = u.failed + w.failed;
}

unfoldable pub add_all : UsageSum → List UsageSum → UsageSum
add_all u [] = u
add_all u (w ∷ ws) = add_all (merge_usage u w) ws

-- `aggregateSummary(value)` on its list of summaries.
unfoldable pub aggregate_summary : List UsageSum → Result UsageSum
aggregate_summary [] = err "INVALID_TOKEN_EFFICIENCY"
aggregate_summary (u ∷ us) = ok (add_all (no_usage undefined) (u ∷ us))

abbrev is_usage_record : Value → Bool
is_usage_record v = is_text (get v "format") "agent-harness.token-usage.v1"

-- The summaries of `baseline` or `candidate`: of records, or as they were given.
unfoldable pub summaries_of : Host → Value → Result (List UsageSum)
summaries_of host v =
    if is_array v && all is_usage_record (elems v)
    then summarize_token_usage host v
    else if is_array v
    then map_each read_usage (elems v)
    else map_each read_usage (v ∷ [])

-- `a - b`.
unfoldable pub difference : ℕ → ℕ → Number
difference a b = if leb b a then nat (a - b) else neg (b - suc a)

-- The percentage is the exact fraction of `saved` over `before`.
pub record Savings : Type 0 where
  pub before : ℕ
  pub after : ℕ
  pub delta : Number
  pub saved : Number
  pub percent_saved : Option (Number × ℕ)

-- `metricSavings(before, after, field)`.
unfoldable pub metric_savings : (before after : ℕ) → Savings
metric_savings before after = record {
  before = before;
  after = after;
  delta = difference after before;
  saved = difference before after;
  percent_saved = if before == 0 then none else some (difference before after, before);
}

pub record EfficiencyReport : Type 0 where
  pub baseline : UsageSum
  pub candidate : UsageSum
  pub input : Savings
  pub cached : Savings
  pub uncached : Savings
  pub output : Savings
  pub total : Savings
  pub reserved : Savings
  pub retries : Savings

unfoldable pub report_of : (before after : UsageSum) → EfficiencyReport
report_of before after = record {
  baseline = before;
  candidate = after;
  input = metric_savings before.input after.input;
  cached = metric_savings before.cached after.cached;
  uncached = metric_savings before.uncached after.uncached;
  output = metric_savings before.output after.output;
  total = metric_savings before.total after.total;
  reserved = metric_savings before.reserved after.reserved;
  retries = metric_savings before.retries after.retries;
}

-- `compareTokenEfficiency({ baseline, candidate })`.
unfoldable pub compare_token_efficiency :
    Host → (baseline candidate : Value) → Result EfficiencyReport
compare_token_efficiency host baseline candidate = do
  olds ← summaries_of host baseline
  before ← aggregate_summary olds
  news ← summaries_of host candidate
  after ← aggregate_summary news
  ok (report_of before after)
