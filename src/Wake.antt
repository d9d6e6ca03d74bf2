-- ===== src/Wake.antt =====
-- The wake-up of a run that waits for its owner: src/continuation-scheduler.mjs,
-- src/file-wake-store.mjs and src/owner-timeout-runner.mjs.
pub mod Store
pub mod Schedule
