-- ===== src/Review.antt =====
-- Optional helpers of a plan: src/sandy-review.mjs, the checks of an external review, and
-- src/specialist-router.mjs, the choice of specialists.
pub mod Sandy
pub mod Router
