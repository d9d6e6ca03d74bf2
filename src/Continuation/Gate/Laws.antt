-- ===== src/Continuation/Gate/Laws.antt =====
-- When the gate of a continuation is open.
use bounded_agent_harness.Prelude.{
  String, ◌≡◌, refl, inl, inr, Bool, true, not, ◌&&◌, List, [], ◌∷◌, select, all, distinct,
  includes, arith, Bool-cases,
}
use bounded_agent_harness.Json.{Value}
use bounded_agent_harness.Queue.Disjoint.{str_eq_comm}
use bounded_agent_harness.Continuation.Gate.{
  no_items, roles_of, duplicate_roles, is_current, is_pass, report_of,
}

no_items-select :
    {A : Type 0} (p : A → Bool) (xs : List A) → no_items (select (λ x. not (p x)) xs) ≡ all p xs
no_items-select p [] = refl
no_items-select p (x ∷ xs) = elim (Bool-cases (p x)) [
  | inl e ↦ rw e (no_items-select p xs)
  | inr e ↦ rw e refl
]

no_items-roles_of : (rs : List Value) → no_items (roles_of rs) ≡ no_items rs
no_items-roles_of [] = refl
no_items-roles_of (r ∷ rs) = refl

apart :
    (r : String) (seen rs : List String)
    → all (λ x. not (includes x (r ∷ seen))) rs
      ≡ (not (includes r rs) && all (λ x. not (includes x seen)) rs)
apart r seen [] = refl
apart r seen (x ∷ rs) = ground (arith, apart r seen rs, str_eq_comm r x)

no_items-duplicate_roles :
    (seen rs : List String)
    → no_items (duplicate_roles seen rs) ≡ (all (λ r. not (includes r seen)) rs && distinct rs)
unfolding duplicate_roles
no_items-duplicate_roles seen [] = refl
no_items-duplicate_roles seen (r ∷ rs) = elim (Bool-cases (includes r seen)) [
  | inl e ↦ rw e refl
  | inr e ↦ rw e (ground (arith, no_items-duplicate_roles (r ∷ seen) rs, apart r seen rs))
]

all_unseen : (rs : List String) → all (λ r. not (includes r [])) rs ≡ true
all_unseen [] = refl
all_unseen (r ∷ rs) = all_unseen rs

-- The gate is open exactly when every required role has reviewed, no role twice, and every review is
-- bound to the workflow and the floor in question and passes.
pub report_of-continues :
    (workflow floor : String) (reviews : List Value) (required : List String)
    → (report_of workflow floor reviews required).continues ≡ (
        all (λ r. includes r (roles_of reviews)) required
        && distinct (roles_of reviews)
        && all (is_current workflow floor) reviews
        && all is_pass reviews)
unfolding report_of
report_of-continues workflow floor reviews required =
    rw
      (
        no_items-select (λ r. includes r (roles_of reviews)) required,
        no_items-duplicate_roles [] (roles_of reviews),
        all_unseen (roles_of reviews),
        no_items-roles_of (select (λ r. not (is_current workflow floor r)) reviews),
        no_items-select (is_current workflow floor) reviews,
        no_items-roles_of (select (λ r. not (is_pass r)) reviews),
        no_items-select is_pass reviews,
      )
      refl
