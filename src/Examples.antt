-- ===== src/Examples.antt =====
-- Concrete values, and the theorems applied to them.
pub mod Data
pub mod Plans
pub mod Runs
pub mod Tasks
pub mod Decisions
pub mod Continuations
pub mod Memory
pub mod Wakes
pub mod Tokens
pub mod Impacts
pub mod Reports
