-- ===== src/Queue/Laws.antt =====
-- What a claim and a completion of src/shared-task-queue.mjs guarantee, and what a failed one leaves behind.
use bounded_agent_harness.Prelude.{
  err≢ok, String, ◌≡◌, refl, sym, ap, ◌∙◌, subst, inl, inr, Bool, true, false, Option, none, some,
  [], ◌∷◌, ◌++◌, any, All, All_map, Listed, Listed-append, lt→ltb, ok, arith, Result-cases,
  ok-injective,
}
use bounded_agent_harness.Json.{Value, get, object_of, to_fields, lookup_field, elems}
use bounded_agent_harness.Json.Canonical.{Host}
use bounded_agent_harness.Queue.Validate.{string_of, validate_shared_task}
use bounded_agent_harness.Queue.Claim.{
  reservation_overlaps, paths_of, build_reservation_ledger, date_of, are_disjoint,
  active_reservations, is_later, is_assigned, build_task_claim,
}
use bounded_agent_harness.Queue.Store.{
  Queue, read, read_json, is_absent, write_exclusive, load_reservation_ledger, roll_back,
  write_ledger_with_rollback, reservation_of, Grant, check_claim, next_reservations, write_claim,
  claim_action, claim_shared_task,
}
use bounded_agent_harness.Queue.Disjoint.{are_disjoint-select, are_disjoint-snoc, load-are_disjoint}
use bounded_agent_harness.Queue.Parts.{
  roll_back-fails, written, locked_action, selected-clear, IsRespected,
}

module _ (host : Host) (now : String) (writes : Bool) (id worker claimed_at lease : Value) where
  paths_of-reservation_of :
      (task claim : Value) → paths_of (reservation_of task claim) ≡ paths_of task
  unfolding reservation_of object_of to_fields get lookup_field
  paths_of-reservation_of task claim = refl

  check_claim_parts :
      (q : Queue) (g : Grant)
      → check_claim host now id worker claimed_at lease q ≡ ok g
      → (read_json (string_of id) q.ready ≡ ok g.task)
        × (build_task_claim host now g.task worker claimed_at lease ≡ ok g.claim)
        × (is_absent (read (string_of id) q.claims) ≡ true)
        × (any (λ r. reservation_overlaps (paths_of g.task) (paths_of r)) g.active ≡ false)
  unfolding check_claim
  check_claim_parts q g h = (ground arith, ground arith, ground arith, ground arith)

  check_claim_ledger :
      (q : Queue) (g : Grant)
      → check_claim host now id worker claimed_at lease q ≡ ok g
      → (ledger : Value) × (load_reservation_ledger host q.ledger ≡ ok ledger)
        × (active_reservations host ledger (date_of host (get g.claim "claimedAt")) ≡ g.active)
  unfolding check_claim
  check_claim_ledger q g h = elim (Result-cases (load_reservation_ledger host q.ledger)) [
    | inl (ledger, e) ↦ (ledger, e, ground arith)
    | inr (code, e) ↦ ground arith
  ]

  granted-are_disjoint :
      (q : Queue) (g : Grant)
      → check_claim host now id worker claimed_at lease q ≡ ok g
      → are_disjoint (next_reservations g) ≡ true
  unfolding next_reservations active_reservations
  granted-are_disjoint q g h =
      let (ledger, loaded, active) = check_claim_ledger q g h in
      let (p, c, fresh, apart) = check_claim_parts q g h in
      are_disjoint-snoc g.active (reservation_of g.task g.claim)
        (subst (λ rs. are_disjoint rs ≡ true) active
          (are_disjoint-select _ _ (load-are_disjoint host q.ledger ledger loaded)))
        (ap (λ ps. any (λ r. reservation_overlaps ps (paths_of r)) g.active)
            (paths_of-reservation_of g.task g.claim)
          ∙ apart)

  -- The reservations of the ledger that are not over yet.
  granted-IsRespected :
      (q : Queue) (g : Grant)
      → check_claim host now id worker claimed_at lease q ≡ ok g
      → (ledger : Value) × (load_reservation_ledger host q.ledger ≡ ok ledger)
        × All
            (IsRespected host (get g.claim "claimedAt") (paths_of g.task) (next_reservations g))
            (elems (get ledger "reservations"))
  unfolding next_reservations active_reservations is_later
  granted-IsRespected q g h =
      let (ledger, loaded, active) = check_claim_ledger q g h in
      let (p, c, fresh, apart) = check_claim_parts q g h in
      let rs = elems (get ledger "reservations") in
      (
        ledger,
        loaded,
        All_map rs
            (λ r f. record {
              respects = λ current end a b later.
                  let (clear, listed) = f (rw (b, a) (lt→ltb current end later)) in
                  (clear, Listed-append r g.active _ (subst (λ l. Listed l r) active listed));
            })
            (selected-clear
              (λ r.
                is_later (date_of host (get r "expiresAt"))
                  (date_of host (get g.claim "claimedAt")))
              (λ r. reservation_overlaps (paths_of g.task) (paths_of r)) rs
              (rw (sym active) at apart)),
      )

  claim_is_assigned :
      (task claim : Value)
      → build_task_claim host now task worker claimed_at lease ≡ ok claim
      → (validate_shared_task host task ≡ ok tt) × (is_assigned task worker ≡ true)
  unfolding build_task_claim
  claim_is_assigned task claim h = (ground arith, ground arith)

  -- The successful end of a write behind the ledger.
  written_claim :
      (g : Grant) (next claim : Value) (previous : Option Value) (q q' : Queue)
      → write_ledger_with_rollback next previous (write_claim writes (string_of id) g.claim) q
        ≡ (ok claim, q')
      → (claim ≡ g.claim)
        × (read (string_of id) q.claims ≡ none)
        × (q' ≡ record q { claims = q.claims ++ (string_of id, claim) ∷ []; ledger = some next })
  unfolding write_ledger_with_rollback write_claim roll_back
  written_claim g next claim previous q q' h =
      elim (Result-cases (write_exclusive writes (string_of id) g.claim q.claims)) [
        | inl (files, e) ↦
            let (fresh, f) = written writes (string_of id) q.claims files g.claim e in
            let k : _ ≡ (ok claim, q') = rw e at h in
            let same = ok-injective (ap (λ p. p.0) k) in
            (
              sym same,
              fresh,
              sym (ap (λ p. p.1) k)
                  ∙ ap (λ l. record q { claims = l; ledger = some next })
                      (f ∙ ap (λ c. q.claims ++ (string_of id, c) ∷ []) same),
            )
        | inr (code, e) ↦
            absurd
              (roll_back-fails previous code (record q { ledger = some next }) q' claim (rw e at h))
      ]

  -- A claim that is granted: its worker is one the task is assigned to, the task had no claim file, and
  -- the task is read from the ready files and passes its checks. Each reservation of the previous ledger
  -- whose lease is not over when the claim is made has no path in common with the task, and is kept.
  -- With the new reservation the reservations kept do not overlap each other. Just the claim is added
  -- to the files, the ledger of those reservations replaces the previous one, and the lock is free
  -- again.
  pub claim_shared_task_sound :
      (q q' : Queue) (claim : Value)
      → claim_shared_task host now writes id worker claimed_at lease q ≡ (ok claim, q')
      → (g : Grant) × (g.claim ≡ claim)
        × (read_json (string_of id) q.ready ≡ ok g.task)
        × (validate_shared_task host g.task ≡ ok tt)
        × (is_assigned g.task worker ≡ true)
        × (read (string_of id) q.claims ≡ none)
        × ((ledger : Value) × (load_reservation_ledger host q.ledger ≡ ok ledger)
            × All
                (IsRespected host (get g.claim "claimedAt") (paths_of g.task) (next_reservations g))
                (elems (get ledger "reservations")))
        × (are_disjoint (next_reservations g) ≡ true)
        × (q' ≡ record q {
          claims = q.claims ++ (string_of id, claim) ∷ [];
          ledger = some (build_reservation_ledger host (next_reservations g));
          locked = false;
        })
  unfolding claim_shared_task claim_action
  claim_shared_task_sound q q' claim h =
      let (q1, ran, unlocked) =
        locked_action (claim_action host now writes id worker claimed_at lease) q q' claim h in
      elim (Result-cases
        (check_claim host now id worker claimed_at lease (record q { locked = true }))) [
          | inl (g, e) ↦
              let (same, fresh, end) =
                written_claim g _ claim q.ledger (record q { locked = true }) q1 (rw e at ran) in
              let (found, built, gone, apart) =
                check_claim_parts (record q { locked = true }) g e in
              let (valid, assigned) = claim_is_assigned g.task g.claim built in
              (
                g,
                sym same,
                found,
                valid,
                assigned,
                fresh,
                granted-IsRespected (record q { locked = true }) g e,
                granted-are_disjoint (record q { locked = true }) g e,
                unlocked ∙ ap {A = Queue} {B = Queue} (λ p. record p { locked = false }) end,
              )
          | inr (code, e) ↦ absurd (err≢ok (ap (λ p. p.0) (rw e at ran)))
        ]
