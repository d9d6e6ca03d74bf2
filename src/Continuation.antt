-- ===== src/Continuation.antt =====
-- The continuation of work while the owner is away: src/continuation-fork.mjs, src/continuation-gate.mjs,
-- src/owner-timeout-watchdog.mjs and src/continuation-controller.mjs.
pub mod Fork
pub mod Gate
pub mod Watchdog
pub mod Controller
