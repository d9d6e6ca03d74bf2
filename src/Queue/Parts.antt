-- ===== src/Queue/Parts.antt =====
-- The lock, the writes and the reservations of a claim of src/shared-task-queue.mjs, each by itself.
use bounded_agent_harness.Prelude.{
  err≢ok, String, ◌≡◌, ◌≢◌, refl, sym, ap, ◌∙◌, subst, inl, inr, Bool, true, false, Option, none,
  some, List, [], ◌∷◌, ◌++◌, any, select, All, All_map, Listed, Listed-cons, ℕ, ◌<◌, false≢true,
  ◌||◌, Result, ok, arith, Bool-cases, Option-cases,
}
use bounded_agent_harness.Json.{Value, get}
use bounded_agent_harness.Json.Canonical.{Host}
use bounded_agent_harness.Queue.Claim.{reservation_overlaps, paths_of, date_of}
use bounded_agent_harness.Queue.Store.{
  Queue, read, is_absent, write_exclusive, with_queue_lock, roll_back,
}

pub roll_back-fails :
    {A : Type 0} (previous : Option Value) (code : String) (q q' : Queue) (a : A)
    → roll_back previous code q ≢ (ok a, q')
unfolding roll_back
roll_back-fails previous code q q' a h = elim (Bool-cases (is_absent previous)) [
  | inl e ↦ err≢ok (ap (λ p. p.0) (rw e at h))
  | inr e ↦ err≢ok (ap (λ p. p.0) (rw e at h))
]

pub written :
    (writes : Bool) (id : String) (files files' : List (String × Value)) (v : Value)
    → write_exclusive writes id v files ≡ ok files'
    → (read id files ≡ none) × (files' ≡ files ++ (id, v) ∷ [])
unfolding write_exclusive
written writes id files files' v h = elim (Option-cases (read id files)) [
  | inl e ↦ (e, ground arith)
  | inr (w, e) ↦ ground arith
]

pub locked_action :
    {A : Type 0} (action : Queue → Result A × Queue) (q q' : Queue) (a : A)
    → with_queue_lock action q ≡ (ok a, q')
    → (q1 : Queue) × (action (record q { locked = true }) ≡ (ok a, q1))
      × (q' ≡ record q1 { locked = false })
unfolding with_queue_lock
locked_action action q q' a h = elim (Bool-cases q.locked) [
  | inl e ↦ absurd (err≢ok (ap (λ p. p.0) (rw e at h)))
  | inr e ↦
      let result = action (record q { locked = true }) in
      let k : (result.0, record (result.1) { locked = false }) ≡ (ok a, q') = rw e at h in
      (result.1, ap (λ r. (r, result.1)) (ap (λ p. p.0) k), sym (ap (λ p. p.1) k))
]

-- What passes the selection is listed by it, and is none for which the second test holds.
pub selected-clear :
    {A : Type 0} (p f : A → Bool) (xs : List A)
    → any f (select p xs) ≡ false
    → All (λ x. p x ≡ true → (f x ≡ false) × Listed (select p xs) x) xs
selected-clear p f [] h = tt
selected-clear p f (x ∷ xs) h = elim (Bool-cases (p x)) [
  | inr e ↦
      let kept : select p (x ∷ xs) ≡ select p xs = rw e refl in
      (
        λ t. absurd (false≢true (sym e ∙ t)),
        subst (λ l. All (λ y. p y ≡ true → (f y ≡ false) × Listed l y) xs) (sym kept)
            (selected-clear p f xs (rw e at h)),
      )
  | inl e ↦
      let kept : select p (x ∷ xs) ≡ x ∷ select p xs = rw e refl in
      let k : (f x || any f (select p xs)) ≡ false = rw e at h in
      let here : f x ≡ false = ground arith in
      let rest : any f (select p xs) ≡ false = ground arith in
      (
        λ t. (here, ([], select p xs, kept)),
        All_map xs
            (λ y g t.
              let (clear, listed) = g t in
              (clear, subst (λ l. Listed l y) (sym kept) (Listed-cons x y (select p xs) listed)))
            (selected-clear p f xs rest),
      )
]

-- A reservation whose lease is not over at the given instant is apart from the paths, and is kept in the
-- given list.
pub record IsRespected (host : Host) (at : Value) (paths : List String) (kept : List Value)
    (r : Value) : Type 0 where
  pub respects :
      (current end : ℕ)
      → date_of host at ≡ some current
      → date_of host (get r "expiresAt") ≡ some end
      → current < end
      → (reservation_overlaps paths (paths_of r) ≡ false) × Listed kept r
