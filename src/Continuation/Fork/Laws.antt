-- ===== src/Continuation/Fork/Laws.antt =====
-- A timeout creates one fork, however often it is handled.
use bounded_agent_harness.Prelude.{
  max, ◌/◌, String, ◌≡◌, refl, sym, ap, ◌∙◌, subst, inl, inr, Bool, true, false, Option, none, some,
  List, [], ◌∷◌, ◌++◌, find, Result, ok, for_each, arith, Bool-cases, >>=-eq-ok, ok-injective,
  eq_refl, false≢true,
}
use bounded_agent_harness.Json.{Value, get, nat_of, is_text, object_of, to_fields, lookup_field}
use bounded_agent_harness.Json.Canonical.{Host}
use bounded_agent_harness.Continuation.Fork.{
  validate_continuation_fork, ForkKey, is_duplicate, fork_budget, new_fork, Forked, fork_or_found,
  fork_key, create_continuation_fork,
}

for_each-snoc :
    {A : Type 0} (check : A → Result (Unit {0})) (xs : List A) (x : A)
    → for_each check xs ≡ ok tt
    → check x ≡ ok tt
    → for_each check (xs ++ x ∷ []) ≡ ok tt
unfolding for_each
for_each-snoc check [] x h k = rw k refl
for_each-snoc check (y ∷ ys) x h k =
    let (u, here, later) = >>=-eq-ok (check y) _ h in rw here (for_each-snoc check ys x later k)

find-snoc :
    {A : Type 0} (p : A → Bool) (xs : List A) (x : A)
    → find p xs ≡ none
    → p x ≡ true
    → find p (xs ++ x ∷ []) ≡ some x
find-snoc p [] x h k = rw k refl
find-snoc p (y ∷ ys) x h k = elim (Bool-cases (p y)) [
  | inl e ↦ ground arith
  | inr e ↦ rw e (find-snoc p ys x (rw e at h) k)
]

new_fork-is_duplicate :
    (host : Host) (at : String) (floor : Value) (key : ForkKey)
    → is_duplicate key (new_fork host at floor key) ≡ true
unfolding new_fork is_duplicate object_of to_fields get lookup_field is_text
new_fork-is_duplicate host at floor key =
    rw (eq_refl key.run, eq_refl key.workflow, eq_refl key.checkpoint, eq_refl key.floor) refl

new_fork_budget :
    (host : Host) (at : String) (floor : Value) (key : ForkKey)
    → nat_of (get (get (new_fork host at floor key) "budget") "maxCostUnits") ≡ fork_budget floor
unfolding new_fork object_of to_fields get lookup_field nat_of
new_fork_budget host at floor key = refl

created_fork :
    (host : Host) (at : String) (floor : Value) (key : ForkKey) (o : Option Value) (f : Forked)
    → fork_or_found host at floor key o ≡ ok f
    → f.created ≡ true
    → (o ≡ none)
      × (f.fork ≡ new_fork host at floor key)
      × (validate_continuation_fork host f.fork ≡ ok tt)
created_fork host at floor key (some fork) f h c =
    absurd (false≢true (ap (λ g. g.created) (ok-injective h) ∙ c))
created_fork host at floor key none f h c =
    let (u, valid, made) =
      >>=-eq-ok (validate_continuation_fork host (new_fork host at floor key)) _ h in
    let same : new_fork host at floor key ≡ f.fork = ap (λ g. g.fork) (ok-injective made) in
    (refl, sym same, subst (λ v. validate_continuation_fork host v ≡ ok tt) same valid)

-- Handling a timeout again, at any later time, finds the fork that was created and creates no other;
-- and that fork has half of the floor's budget, rounded down, but one unit at least.
pub create_continuation_fork-again :
    (host : Host) (at at' : String) (run workflow checkpoint floor : Value) (existing : List Value)
    (f : Forked)
    → create_continuation_fork host at run workflow checkpoint floor existing ≡ ok f
    → f.created ≡ true
    → (create_continuation_fork host at' run workflow checkpoint floor (existing ++ f.fork ∷ [])
        ≡ ok (record { fork = f.fork; created = false }))
      × (nat_of (get (get f.fork "budget") "maxCostUnits")
          ≡ max 1 (nat_of (get floor "maxCostUnits") / 2))
unfolding create_continuation_fork fork_budget
create_continuation_fork-again host at at' run workflow checkpoint floor existing f h c =
    let (key, k, h1) = >>=-eq-ok (fork_key host run workflow checkpoint floor) _ h in
    let (u, valid, h2) = >>=-eq-ok (for_each (validate_continuation_fork host) existing) _ h1 in
    let (missing, made, sound) =
      created_fork host at floor key (find (is_duplicate key) existing) f h2 c in
    let duplicate =
      subst (λ v. is_duplicate key v ≡ true) (sym made) (new_fork-is_duplicate host at floor key) in
    let found = find-snoc (is_duplicate key) existing f.fork missing duplicate in
    let checked = for_each-snoc (validate_continuation_fork host) existing f.fork valid sound in
    (rw (k, checked, found) refl, rw made (new_fork_budget host at floor key))
