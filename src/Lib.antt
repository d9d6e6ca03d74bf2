-- ===== src/Lib.antt =====
-- Bounded Agent Harness: the deterministic control plane that compiles a plan of agent work, runs it
-- under budgets and approvals, and keeps what happened in a log.
--
-- A plan of steps, the profiles of specialists, a governance bundle and a project floor are JSON values.
-- `src/workflow-compiler.mjs` checks them (`src/contracts.mjs`, `src/governance.mjs`,
-- `src/floor-policy.mjs`, `src/contract-registry.mjs`), orders the steps and seals the result with its
-- canonical text and digest (`src/canonical-json.mjs`). `src/executor.mjs` verifies that artifact and
-- runs its steps through adapters, each call with an envelope (`src/capability-envelope.mjs`); it
-- appends events to a log, writes checkpoints (`src/heartbeat.mjs`) and resumes a run from its log.
-- Beside it stand pure decisions (`src/model-policy.mjs`, `src/recovery-policy.mjs`,
-- `src/work-loop-policy.mjs`, `src/step-state-machine.mjs`), a gate on the tokens of a provider
-- (`src/token-capacity.mjs`), a queue of tasks that agents claim (`src/shared-task-queue.mjs`), and
-- the continuation of work while the owner is away (`src/continuation-fork.mjs` and its neighbours),
-- which `src/continuation-scheduler.mjs` and `src/owner-timeout-runner.mjs` wake through the store of
-- `src/file-wake-store.mjs`. Events go to the log of `src/memory-store.mjs`, a chain of hashed
-- envelopes behind a lock file; heartbeats (`src/heartbeat.mjs`) and the records of
-- `src/shared-memory.mjs` are events of it. `src/token-efficiency.mjs` prunes and seals contexts and
-- sums the use of tokens, and `src/observability.mjs` sums the events of each run. Beside them stand the
-- checks of an external review (`src/sandy-review.mjs`), the choice of specialists
-- (`src/specialist-router.mjs`), and the impact of a change (`src/change-impact.mjs`).
--
-- Files and code:
--   Prelude                 the helpers that all files share; Prelude/Errors is `src/errors.mjs`
--   Prelude/Maps            the `Map` of JavaScript
--   Json, Json/Text         JSON values, and the tests on values and texts that the source writes out
--   Json/Sorting            facts on `sort`
--   Json/Canonical          `canonicalize`, `sha256` and `JSON.stringify`; `Host`, the platform
--   Contracts, Floor, Governance, Registry, Envelope
--                           the five validators; the `Laws` below each hold their theorems,
--                           and Governance/Promotion is `assessPromotion`
--   Workflow/Order          the ordering loop; Counting, Lists and Laws are its proofs
--   Workflow/Compile        `compileWorkflow` and `verifyWorkflowArtifact`; Laws, and Keys and Seal for
--                           the round trip
--   Executor/Log            the events, `reconstruct` and `recoveryCheckpoint`
--   Executor/Steps          the parts of a step of `executeWorkflow`
--   Executor/Run            `executeWorkflow`: its loop, the events around it and its end
--   Executor/Reconstruct, Executor/Resume
--                           the log against the state of the loop
--   Step                    the state machine of a step
--   Policy/Model, Policy/Recovery, Policy/WorkLoop
--                           the decision modules
--   TokenEstimate           the policy over its defaults and `estimateTokenRequest`
--   Capacity                `evaluateTokenCapacity` and `withTokenCapacityGate`
--   Queue/Validate, Queue/Claim, Queue/Store
--                           the fields, the claims and ledger, and the operations of the queue
--   Queue/Disjoint, Queue/Parts, Queue/Laws, Queue/Failures, Queue/Completion
--                           reservations, granted and refused claims, completions
--   Queue/Report, Queue/Inspect
--                           `buildTaskResult` and `inspectSharedTasks`
--   Queue/Equality          the test `===` against equality
--   Continuation/Fork, Continuation/Gate, Continuation/Watchdog, Continuation/Controller
--                           `src/continuation-fork.mjs`, `src/continuation-gate.mjs`,
--                           `src/owner-timeout-watchdog.mjs`, `src/continuation-controller.mjs`
--   Memory/Log, Memory/Lock `src/memory-store.mjs`: the chain of envelopes, and the lock;
--                           Memory/Lock/Serial is the chain of appends of one process
--   Memory/Heartbeat, Memory/Shared
--                           `src/heartbeat.mjs` and `src/shared-memory.mjs`
--   Wake/Store, Wake/Schedule
--                           `src/file-wake-store.mjs` with `src/owner-timeout-runner.mjs`, and
--                           `src/continuation-scheduler.mjs`
--   Tokens                  `src/token-efficiency.mjs`: Packet, Pruning and Usage are its parts
--   Observe                 `src/observability.mjs`
--   Review/Sandy, Review/Router
--                           `src/sandy-review.mjs` and `src/specialist-router.mjs`
--   Impact/Request, Impact/Analysis
--                           `src/change-impact.mjs`
--   Examples                concrete values, and the theorems applied to them
--
-- A function that may throw returns a `Result` with the code of the error; the messages are left out, and
-- an error without a code has one of its own. A JSON object is its list of fields; what an object inherits
-- from its prototype is left out. The platform is a parameter: the hash, `Date.parse`, `toISOString` and
-- the order of `localeCompare`; so are adapters, validators, the abort signal and the clock, which may
-- answer as they like. The model leaves out time stamps of events, stores that fail to append, and the
-- formats of results that no code reads. Sums of costs are exact, where the source adds numbers that
-- validation has bounded by 2^53; ratios are exact fractions where the source uses floating point. Dates
-- before 1970 do not occur.
--
-- The ordering loop runs on fuel, one round for each step; a round takes at least one step away, so
-- as many rounds as steps are enough. The decimal digits of a number run on as much fuel as
-- the number counts. All else is recursion on lists and values.
--
-- The queue is its three directories, its ledger and its lock; two writers are kept apart by the lock, so
-- an operation is one step. A file that is to be new fails to be written when it exists, or when the
-- platform cannot write it; a removal that fails is left out. The executor has its own store of events,
-- typed and without hashes. The log of Memory is what the lines of its file parse to; what `open` and
-- `unlink` answer on its lock file, and the clock, are parameters, and the two loops on the lock run on
-- fuel, of which as many tries as fill the timeout are enough. A store of JSON files holds values, read back
-- as they were written; `node:path` is a parameter. A poll records the calls of its dispatcher. The other
-- modules (scopes and materializing of a project context, takeover checkpoints, adapters, the command line, the website) are not modelled.
pub mod Prelude
pub mod Json
pub mod Policy
pub mod Contracts
pub mod Floor
pub mod Governance
pub mod Registry
pub mod Workflow
pub mod Envelope
pub mod Executor
pub mod Step
pub mod Queue
pub mod TokenEstimate
pub mod Capacity
pub mod Continuation
pub mod Examples
pub mod Memory
pub mod Wake
pub mod Tokens
pub mod Impact
pub mod Observe
pub mod Review
