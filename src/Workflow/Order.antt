-- ===== src/Workflow/Order.antt =====
-- The ordering loop of `compileWorkflow` in src/workflow-compiler.mjs: in each round the steps
-- whose dependencies are all ordered are sorted and appended.
pub mod Lists
pub mod Laws
pub mod Counting
use bounded_agent_harness.Prelude.{
  ℕ, zero, suc, String, Bool, true, false, not, List, [], ◌∷◌, ◌++◌, all, includes, select, length,
  Result, ok, err, ◌>>=◌, ◌>>◌, assert,
}
use bounded_agent_harness.Json.Text.{sort_texts}

-- `steps.get(stepId).dependsOn.every((dependency) => ordered.includes(dependency))`.
abbrev pub is_ready : (String → List String) → List String → String → Bool
is_ready depends_on ordered id = all (λ d. includes d ordered) (depends_on id)

abbrev pub ready_steps : (String → List String) → List String → List String → List String
ready_steps depends_on ordered remaining =
    sort_texts (select (is_ready depends_on ordered) remaining)

abbrev pub has_some : List String → Bool
has_some [] = false
has_some (x ∷ xs) = true

-- `while (remaining.size) { … }`. A round removes at least one step, so as many rounds as there are
-- steps are enough: `round_limit` is not returned by `order_steps`.
abbrev pub round_limit : String
round_limit = "ROUND_LIMIT"

unfoldable pub order_rounds :
    ℕ → (String → List String) → (remaining ordered : List String) → Result (List String)
order_rounds fuel depends_on [] ordered = ok ordered
order_rounds zero depends_on (id ∷ ids) ordered = err round_limit
order_rounds (suc fuel) depends_on (id ∷ ids) ordered =
    let ready = ready_steps depends_on ordered (id ∷ ids) in
    let rest =
      order_rounds fuel depends_on (select (λ x. not (includes x ready)) (id ∷ ids))
        (ordered ++ ready) in
    assert (has_some ready) "DEPENDENCY_CYCLE" >> rest

unfoldable pub order_steps : (String → List String) → List String → Result (List String)
unfolding order_rounds
order_steps depends_on ids = order_rounds (length ids) depends_on ids []
