-- ===== src/Memory/Lock.antt =====
-- src/memory-store.mjs: the lock file of the log, and an append under it. What the file system answers at
-- each try, and the clock, are parameters; a loop that has not ended after its fuel is `none`.
pub mod Laws
pub mod Serial
use bounded_agent_harness.Prelude.{
  ℕ, zero, suc, ◌+◌, ◌-◌, String, Bool, true, false, not, ◌&&◌, ◌||◌, Option, none, some, List, [],
  ◌∷◌, ltb, if◌then◌else◌, str_eq, Result, ok, err, assert, ◌>>=◌, ◌>>◌,
}
use bounded_agent_harness.Json.{
  Value, undefined, get, is_safe_positive, is_object, text_of, nat_of, is_null,
}
use bounded_agent_harness.Json.Canonical.{Host}
use bounded_agent_harness.Queue.Claim.{date_of}
use bounded_agent_harness.Memory.Log.{MemoryStore, parse_line, append_locked}

-- What `open(path, "wx")` with the write behind it, or `unlink(path)`, answers at a try: `none` when it
-- is done, or the code of the error. `clock` is `Date.now()` after a try.
pub record Tries : Type 0 where
  pub answer : ℕ → Option String
  pub started : ℕ
  pub clock : ℕ → ℕ

pub record LockPolicy : Type 0 where
  pub windows : Bool
  pub timeout_ms : ℕ
  pub retry_ms : ℕ

-- `isRetriableLockContention`.
unfoldable pub is_retriable_lock_contention : (windows : Bool) → String → Bool
is_retriable_lock_contention windows code = str_eq code "EEXIST" || (windows && str_eq code "EPERM")

abbrev pub is_held_open : (windows : Bool) → String → Bool
is_held_open windows code = windows && str_eq code "EPERM"

-- `while (true) { try … catch … pause }`, from the given try on: an error that is no contention is
-- thrown, and so is `code` when the time is over.
unfoldable pub retry_from :
    (contention : String → Bool) (late : String)
    → LockPolicy
    → Tries
    → (fuel attempt : ℕ) → Option (Result (Unit {0}))
retry_from contention late policy tries zero attempt = none
retry_from contention late policy tries (suc fuel) attempt =
    let rest = retry_from contention late policy tries fuel (suc attempt) in
    elim (tries.answer attempt) [
      | none ↦ some (ok tt)
      | some code ↦
          if contention code
          then if ltb (tries.clock attempt - tries.started) policy.timeout_ms
            then rest
            else some (err late)
          else some (err code)
    ]

-- The loop of `append` that takes the lock, and `releaseLock`.
unfoldable pub take_lock : LockPolicy → Tries → ℕ → Option (Result (Unit {0}))
take_lock policy tries fuel =
    retry_from (is_retriable_lock_contention policy.windows) "EVENT_LOG_LOCKED" policy tries fuel 0

unfoldable pub release_lock : LockPolicy → Tries → ℕ → Option (Result (Unit {0}))
release_lock policy tries fuel =
    retry_from (is_held_open policy.windows) "EVENT_LOG_LOCK_RELEASE_FAILED" policy tries fuel 0

-- The `try … finally` of `append`: an error of the release stands for one of the body.
unfoldable pub finish_append :
    Value → MemoryStore × Result (Unit {0}) → Result (Unit {0}) → MemoryStore × Result Value
finish_append event (s, written) released = (s, released >> written >> ok event)

-- `append(event)`; `opening` and `closing` are the tries at the lock.
unfoldable pub append_event :
    Host
    → LockPolicy
    → (opening closing : Tries) (fuel : ℕ) (event : Value) → MemoryStore
    → Option (MemoryStore × Result Value)
append_event host policy opening closing fuel event s =
    if is_object event
    then elim (take_lock policy opening fuel) [
      | none ↦ none
      | some (err code) ↦ some (s, err code)
      | some (ok _) ↦ elim (release_lock policy closing fuel) [
        | none ↦ none
        | some released ↦ some (finish_append event (append_locked host event s) released)
      ]
    ]
    else some (s, err "INVALID_EVENT")

-- A call of `append`, with what its tries at the lock find when its turn has come.
pub record AppendCall : Type 0 where
  pub event : Value
  pub opening : Tries
  pub closing : Tries

abbrev pub with_result :
    Result Value
    → Option (MemoryStore × List (Result Value))
    → Option (MemoryStore × List (Result Value))
with_result r none = none
with_result r (some (s, rs)) = some (s, r ∷ rs)

-- The calls of `append` of one process, chained by `serializeLocalAppend`: each runs on the log that the call
-- before it left, whether that one failed or not.
unfoldable pub serialize_local_append :
    Host
    → LockPolicy
    → (fuel : ℕ) → List AppendCall
    → MemoryStore
    → Option (MemoryStore × List (Result Value))
serialize_local_append host policy fuel [] s = some (s, [])
serialize_local_append host policy fuel (c ∷ cs) s =
    elim (append_event host policy c.opening c.closing fuel c.event s) [
      | none ↦ none
      | some (s', r) ↦ with_result r (serialize_local_append host policy fuel cs s')
    ]

pub data LockState : Type 0 where
  orphaned stale_active held unlocked : LockState

-- Of a lock that does not exist the process, the time and the age are left out.
pub record LockReport : Type 0 where
  pub state : LockState
  pub pid : Value
  pub acquired_at : Value
  pub age_ms : ℕ
  pub safe_to_remove : Bool

abbrev is_date : Option ℕ → Bool
is_date none = false
is_date (some t) = true

abbrev since : ℕ → Option ℕ → ℕ
since now none = 0
since now (some t) = now - t

-- `lockStatus({ now, staleAfterMs, isProcessAlive })` on the lock file, if it exists.
unfoldable pub lock_status :
    Host
    → (now : ℕ) (stale_after : Value) (is_process_alive : ℕ → Bool) → Option (Option Value)
    → Result LockReport
lock_status host now stale_after is_process_alive file = do
  assert (is_safe_positive stale_after) "INVALID_LOCK_POLICY"
  elim file [
    | none ↦ ok (record {
      state = unlocked;
      pid = undefined;
      acquired_at = undefined;
      age_ms = 0;
      safe_to_remove = false;
    })
    | some line ↦ do
      lock ← parse_line line
      assert (not (is_null lock)) "UNEXPECTED_ERROR"
      assert (is_safe_positive (get lock "pid") && is_date (date_of host (get lock "acquiredAt")))
          "LOCK_FILE_CORRUPT"
      let age = since now (date_of host (get lock "acquiredAt"))
      let alive = is_process_alive (nat_of (get lock "pid"))
      ok (record {
        state = state_of alive (ltb (nat_of stale_after) age);
        pid = get lock "pid";
        acquired_at = get lock "acquiredAt";
        age_ms = age;
        safe_to_remove = not alive;
      })
  ]
  where
    state_of : (alive old : Bool) → LockState
    state_of false old = orphaned
    state_of true true = stale_active
    state_of true false = held
