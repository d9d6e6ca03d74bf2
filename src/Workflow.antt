-- ===== src/Workflow.antt =====
-- src/workflow-compiler.mjs: the compiled, ordered and digest-bound workflow of a plan.
pub mod Order
pub mod Compile
