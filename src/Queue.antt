-- ===== src/Queue.antt =====
-- src/shared-task-queue.mjs: tasks that agents claim, with a reservation of the paths of each active claim.
pub mod Validate
pub mod Equality
pub mod Claim
pub mod Store
pub mod Disjoint
pub mod Parts
pub mod Laws
pub mod Failures
pub mod Completion
pub mod Report
pub mod Inspect
