-- ===== src/Memory.antt =====
-- The memory of the harness: src/memory-store.mjs, src/heartbeat.mjs, src/shared-memory.mjs and
-- src/observability.mjs, over one log of events.
pub mod Log
pub mod Lock
pub mod Heartbeat
pub mod Shared
