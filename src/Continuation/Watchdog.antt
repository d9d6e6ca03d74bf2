-- ===== src/Continuation/Watchdog.antt =====
-- src/owner-timeout-watchdog.mjs: when the absence of the owner is due. Instants are milliseconds.
use bounded_agent_harness.Prelude.{
  ℕ, ◌+◌, ◌-◌, ◌*◌, ◌≤◌, ◌<◌, ◌≡◌, ◌↔◌, Bool, false, ◌&&◌, Option, none, some, ltb, leb, ◌==◌,
  if◌then◌else◌, Result, ok, ◌>>◌, assert, arith,
}

pub data Watch : Type 0 where
  due armed : Watch

pub record WatchReport : Type 0 where
  pub state : Watch
  pub terminal : Bool
  pub next_wake_at : Option ℕ
  pub remaining_ms : ℕ

unfoldable pub owner_timeout_watchdog : (prompted now minutes : ℕ) → Result WatchReport
owner_timeout_watchdog prompted now minutes = do
  assert (ltb 0 minutes && leb minutes 1440) "INVALID_TIMEOUT"
  let deadline = prompted + minutes * 60000
  let remaining = deadline - now
  ok (
      if remaining == 0
      then (record { state = due; terminal = false; next_wake_at = none; remaining_ms = 0 })
      else (record {
        state = armed;
        terminal = false;
        next_wake_at = some deadline;
        remaining_ms = remaining;
      }))

-- The watchdog is never terminal. It is due exactly from the deadline on; before that it wakes at the
-- deadline, after the milliseconds that remain.
pub owner_timeout_watchdog_lem :
    (prompted now minutes : ℕ) (r : WatchReport)
    → owner_timeout_watchdog prompted now minutes ≡ ok r
    → (r.terminal ≡ false)
      × ((r.state ≡ due) ↔ (prompted + minutes * 60000 ≤ now))
      × (now < prompted + minutes * 60000
          → (r.next_wake_at ≡ some (prompted + minutes * 60000))
            × (now + r.remaining_ms ≡ prompted + minutes * 60000))
unfolding owner_timeout_watchdog
owner_timeout_watchdog_lem prompted now minutes r h =
    (ground arith, (λ e. ground arith, λ e. ground arith), λ e. (ground arith, ground arith))
