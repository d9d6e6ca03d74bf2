-- ===== src/Workflow/Order/Lists.antt =====
-- Lists of steps: what the ordering loop of src/workflow-compiler.mjs selects, sorts and takes away.
use bounded_agent_harness.Prelude.{
  ◌+◌, ◌<◌, String, ◌≡◌, refl, sym, ◌∙◌, inl, inr, Bool, true, false, List, [], ◌∷◌, ◌++◌, all, any,
  includes, length, All, arith, Bool-cases, eq_iff, All-includes, includes-append, str_eq,
}
use bounded_agent_harness.Json.Text.{sort, sort_texts}
use bounded_agent_harness.Workflow.Order.{has_some}
use bounded_agent_harness.Workflow.Order.Counting.{count, count-pos, count-zero, includes_of_count}

pub sorted_nonempty : (ys : List String) → has_some (sort_texts ys) ≡ true → 0 < length ys
unfolding sort_texts sort
sorted_nonempty [] h = cc
sorted_nonempty (y ∷ ys) h = omega arith

pub not_ready :
    (r : Bool) (ready : List String) (x : String)
    → includes x ready ≡ r
    → has_some ready ≡ false
    → r ≡ false
not_ready r [] x h e = sym h
not_ready r (y ∷ ys) x h e = cc

-- A dependency that is both in the set and seen contradicts that nothing of the set was seen.
pub waits :
    (ds stuck seen : List String)
    → All (λ y. includes y seen ≡ false) stuck
    → all (λ d. includes d seen) ds ≡ true
    → any (λ d. includes d stuck) ds ≡ true
    → ⊥
waits [] stuck seen f p q = cc
waits (d ∷ ds) stuck seen f p q = elim (Bool-cases (includes d stuck)) [
  | inl m ↦
      let unseen = All-includes (λ y. includes y seen ≡ false) d stuck f m in absurd (ground arith)
  | inr n ↦ waits ds stuck seen f (ground arith) (ground arith)
]

pub other :
    (y x : String) (stuck : List String)
    → includes y stuck ≡ true
    → includes x stuck ≡ false
    → str_eq y x ≡ false
other y x stuck l n = elim (Bool-cases (str_eq y x)) [
  | inl e ↦ let same : y ≡ x = (eq_iff y x).0 e in absurd (ground arith)
  | inr e ↦ e
]

pub fresh_cons :
    (y x : String) (seen : List String)
    → str_eq y x ≡ false
    → includes y seen ≡ false
    → includes y (seen ++ x ∷ []) ≡ false
fresh_cons y x seen d e = ground (arith, includes-append y seen (x ∷ []))

pub one_waits :
    (ids stuck before : List String)
    → ((x : String) → count x before + count x stuck ≡ count x ids)
    → (ds : List String) → all (λ d. includes d ids) ds ≡ true
    → all (λ d. includes d before) ds ≡ false
    → any (λ d. includes d stuck) ds ≡ true
one_waits ids stuck before counted [] p q = cc
one_waits ids stuck before counted (d ∷ ds) p q = elim (Bool-cases (includes d stuck)) [
  | inl m ↦ rw m refl
  | inr n ↦
      let known : includes d ids ≡ true = ground arith in
      let ordered =
        includes_of_count d before ids (omega (arith, counted d, count-zero d stuck n)) ∙ known in
      rw n (one_waits ids stuck before counted ds (ground arith) (ground arith))
]

pub in_plan :
    (x : String) (stuck before ids : List String)
    → includes x stuck ≡ true
    → count x before + count x stuck ≡ 0 + count x ids
    → includes x ids ≡ true
in_plan x stuck before ids l c = elim (Bool-cases (includes x ids)) [
  | inl e ↦ e
  | inr e ↦ absurd (omega (arith, c, count-pos x stuck l, count-zero x ids e))
]

pub no_member :
    (stuck ids tail : List String)
    → ((x : String) → count x tail ≡ count x ids)
    → All (λ x. includes x ids ≡ true) stuck
    → All (λ x. includes x tail ≡ false) stuck
    → stuck ≡ []
no_member [] ids tail counted k f = refl
no_member (x ∷ xs) ids tail counted (p, k) (q, f) =
    let same = includes_of_count x tail ids (counted x) in absurd (ground arith)
