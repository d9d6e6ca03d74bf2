-- ===== src/Executor.antt =====
-- src/executor.mjs: the execution of a compiled workflow against an event log.
pub mod Log
pub mod Steps
pub mod Run
pub mod Reconstruct
pub mod Resume
