-- ===== src/Policy.antt =====
-- The pure decision modules: src/model-policy.mjs, src/recovery-policy.mjs, src/work-loop-policy.mjs.
pub mod Model
pub mod Recovery
pub mod WorkLoop
pub mod Laws
