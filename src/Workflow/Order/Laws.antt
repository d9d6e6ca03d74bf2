-- ===== src/Workflow/Order/Laws.antt =====
-- The ordering loop: what it returns, what a failure means, and that its rounds are enough.
use bounded_agent_harness.Prelude.{
  ℕ, zero, suc, ◌+◌, ◌≤◌, ◌<◌, String, ◌≡◌, ◌≢◌, refl, sym, ◌∙◌, ◌⊎◌, inl, inr, true, false, not,
  List, [], ◌∷◌, ◌++◌, all, any, includes, select, length, All, All_map, Result, ok, err, arith,
  Bool-cases, passed, ok-injective, All-includes, All_map2, includes-append, append-nil,
  append_assoc,
}
use bounded_agent_harness.Workflow.Order.{
  is_ready, ready_steps, has_some, order_rounds, order_steps,
}
use bounded_agent_harness.Workflow.Order.Counting.{
  count, count-append, count-sort_texts, count-select, length-select, includes_of_count,
  includes-select, select_same, All_listed, All-sort_texts, All_select,
}
use bounded_agent_harness.Workflow.Order.Lists.{
  sorted_nonempty, not_ready, waits, other, fresh_cons, one_waits, in_plan, no_member,
}

module _ (depends_on : String → List String) where
  -- Each step stands behind all its dependencies; `seen` stands before the list.
  abbrev pub InOrder : List String → List String → Type 0
  InOrder seen [] = Unit
  InOrder seen (x ∷ xs) =
      (all (λ d. includes d seen) (depends_on x) ≡ true) × InOrder (seen ++ x ∷ []) xs

  -- A set of steps none of which can ever be ordered: each waits for another of them.
  abbrev pub IsStuck : List String → Type 0
  IsStuck xs = All (λ x. any (λ d. includes d xs) (depends_on x) ≡ true) xs

  all_mono :
      (ds seen more : List String)
      → all (λ d. includes d seen) ds ≡ true
      → all (λ d. includes d (seen ++ more)) ds ≡ true
  all_mono [] seen more h = refl
  all_mono (d ∷ ds) seen more h = ground (arith, includes-append d seen more, all_mono ds seen more)

  InOrder-of_ready :
      (seen more xs : List String)
      → All (λ x. is_ready depends_on seen x ≡ true) xs
      → InOrder (seen ++ more) xs
  InOrder-of_ready seen more [] h = tt
  InOrder-of_ready seen more (x ∷ xs) (p, h) = (
    all_mono (depends_on x) seen more p,
    rw (append_assoc seen more (x ∷ [])) (InOrder-of_ready seen (more ++ x ∷ []) xs h),
  )

  InOrder-append :
      (seen xs ys : List String)
      → InOrder seen xs
      → InOrder (seen ++ xs) ys
      → InOrder seen (xs ++ ys)
  InOrder-append seen [] ys h k = rw (append-nil seen) at k
  InOrder-append seen (x ∷ xs) ys (p, h) k =
      (p, InOrder-append (seen ++ x ∷ []) xs ys h (rw (append_assoc seen (x ∷ []) xs) k))

  module _ (ordered remaining : List String) where
    abbrev ready : List String
    ready = ready_steps depends_on ordered remaining

    abbrev rest : List String
    rest = select (λ x. not (includes x ready)) remaining

    ready_ready : All (λ x. is_ready depends_on ordered x ≡ true) ready
    ready_ready = All-sort_texts _ _ (All_select (is_ready depends_on ordered) remaining)

    listed_ready :
        (x : String)
        → includes x remaining ≡ true
        → includes x ready ≡ is_ready depends_on ordered x
    listed_ready x h =
        includes_of_count x ready (select (is_ready depends_on ordered) remaining)
          (count-sort_texts x (select (is_ready depends_on ordered) remaining))
        ∙ includes-select x (is_ready depends_on ordered) remaining
        ∙ rw h refl

    rest_lem : rest ≡ select (λ x. not (is_ready depends_on ordered x)) remaining
    rest_lem =
        select_same (λ x. not (includes x ready)) (λ x. not (is_ready depends_on ordered x))
          remaining (All_map remaining (λ x h. rw (listed_ready x h) refl) (All_listed remaining))

    round_count : (x : String) → count x ready + count x rest ≡ count x remaining
    round_count x = rw rest_lem (
        omega (
          arith,
          count-sort_texts x (select (is_ready depends_on ordered) remaining),
          count-select x (is_ready depends_on ordered) remaining,
        ))

    rest_shrinks : has_some ready ≡ true → length rest < length remaining
    rest_shrinks h = rw rest_lem (
        omega (
          arith,
          sorted_nonempty (select (is_ready depends_on ordered) remaining) h,
          length-select (is_ready depends_on ordered) remaining,
        ))

    none_ready : has_some ready ≡ false → All (λ x. is_ready depends_on ordered x ≡ false) remaining
    none_ready h =
        All_map remaining
          (λ x l. not_ready (is_ready depends_on ordered x) ready x (listed_ready x l) h)
          (All_listed remaining)

  -- The result extends what was ordered, by the remaining steps in order and as often as they occur.
  order_rounds_sound :
      (fuel : ℕ) (remaining ordered out : List String)
      → order_rounds fuel depends_on remaining ordered ≡ ok out
      → (tail : List String) × (out ≡ ordered ++ tail)
        × InOrder ordered tail
        × ((x : String) → count x tail ≡ count x remaining)
  unfolding order_rounds
  order_rounds_sound fuel [] ordered out h =
      ([], rw (append-nil ordered) (sym (ok-injective h)), tt, λ x. refl)
  order_rounds_sound zero (id ∷ ids) ordered out h = cc
  order_rounds_sound (suc fuel) (id ∷ ids) ordered out h =
      let go =
        passed _ _
          (order_rounds fuel depends_on (rest ordered (id ∷ ids))
            (ordered ++ ready ordered (id ∷ ids)))
          h in
      let (tail, same, sorted, counted) =
        order_rounds_sound fuel (rest ordered (id ∷ ids)) (ordered ++ ready ordered (id ∷ ids)) out
          go.1 in
      (
        ready ordered (id ∷ ids) ++ tail,
        same ∙ append_assoc ordered (ready ordered (id ∷ ids)) tail,
        InOrder-append ordered (ready ordered (id ∷ ids)) tail
            (rw (append-nil ordered) at (
              InOrder-of_ready ordered [] (ready ordered (id ∷ ids))
                (ready_ready ordered (id ∷ ids))))
            sorted,
        λ x. omega (
          arith,
          count-append x (ready ordered (id ∷ ids)) tail,
          counted x,
          round_count ordered (id ∷ ids) x,
        ),
      )

  -- What a failure leaves: some steps, none of them ready behind those ordered so far.
  abbrev Blocked : List String → List String → Type 0
  Blocked remaining ordered =
      (stuck : List String) × (before : List String) × (stuck ≢ [])
      × All (λ x. is_ready depends_on before x ≡ false) stuck
      × ((x : String) → count x before + count x stuck ≡ count x ordered + count x remaining)

  widen :
      (ordered remaining : List String) {m : Result (List String)}
      → ((out : List String) × (m ≡ ok out))
        ⊎ ((m ≡ err "DEPENDENCY_CYCLE")
            × Blocked (rest ordered remaining) (ordered ++ ready ordered remaining))
      → ((out : List String) × (m ≡ ok out))
        ⊎ ((m ≡ err "DEPENDENCY_CYCLE") × Blocked remaining ordered)
  widen ordered remaining (inl h) = inl h
  widen ordered remaining (inr (e, (stuck, before, some_stuck, blocked, counted))) = inr (
    e,
    (
      stuck,
      before,
      some_stuck,
      blocked,
      λ x. omega (
        arith,
        counted x,
        count-append x ordered (ready ordered remaining),
        round_count ordered remaining x,
      ),
    ),
  )

  -- With enough rounds the loop ends in an order or in the report of a cycle.
  order_rounds_total :
      (fuel : ℕ) (remaining ordered : List String)
      → length remaining ≤ fuel
      → ((out : List String) × (order_rounds fuel depends_on remaining ordered ≡ ok out))
        ⊎ ((order_rounds fuel depends_on remaining ordered ≡ err "DEPENDENCY_CYCLE")
            × Blocked remaining ordered)
  unfolding order_rounds
  order_rounds_total fuel [] ordered h = inl (ordered, refl)
  order_rounds_total zero (id ∷ ids) ordered h = absurd (omega arith)
  order_rounds_total (suc fuel) (id ∷ ids) ordered h =
      elim (Bool-cases (has_some (ready ordered (id ∷ ids)))) [
        | inr e ↦
            inr
              (rw e refl, (id ∷ ids, ordered, λ p. cc, none_ready ordered (id ∷ ids) e, λ x. refl))
        | inl e ↦ rw e (
            widen ordered (id ∷ ids) (
              order_rounds_total fuel (rest ordered (id ∷ ids))
                (ordered ++ ready ordered (id ∷ ids))
                (omega (arith, rest_shrinks ordered (id ∷ ids) e))))
      ]

  -- No member of a stuck set comes into an order before which there is none.
  free_of :
      (stuck seen xs : List String)
      → IsStuck stuck
      → All (λ y. includes y seen ≡ false) stuck
      → InOrder seen xs
      → All (λ y. includes y xs ≡ false) stuck
  free_of stuck seen [] s f h = All_map stuck (λ y e. refl) f
  free_of stuck seen (x ∷ xs) s f (p, h) = elim (Bool-cases (includes x stuck)) [
    | inl m ↦ absurd (
        waits (depends_on x) stuck seen f p
          (All-includes (λ y. any (λ d. includes d stuck) (depends_on y) ≡ true) x stuck s m))
    | inr n ↦
        let f' =
          All_map2 stuck (λ y l e. fresh_cons y x seen (other y x stuck l n) e) (All_listed stuck)
            f in
        let later = free_of stuck (seen ++ x ∷ []) xs s f' h in
        All_map2 stuck (λ y l e. ground (arith, other y x stuck l n)) (All_listed stuck) later
  ]

  -- A dependency of a stuck set that waits in it is blocked there, where all dependencies are known.
  stuck_of_blocked :
      (ids stuck before : List String)
      → ((x : String) → count x before + count x stuck ≡ count x ids)
      → (xs : List String) → All (λ x. all (λ d. includes d ids) (depends_on x) ≡ true) xs
      → All (λ x. is_ready depends_on before x ≡ false) xs
      → All (λ x. any (λ d. includes d stuck) (depends_on x) ≡ true) xs
  stuck_of_blocked ids stuck before counted [] k b = tt
  stuck_of_blocked ids stuck before counted (x ∷ xs) (p, k) (q, b) = (
    one_waits ids stuck before counted (depends_on x) p q,
    stuck_of_blocked ids stuck before counted xs k b,
  )

  close :
      (ids : List String) {m : Result (List String)}
      → All (λ x. all (λ d. includes d ids) (depends_on x) ≡ true) ids
      → ((out : List String) × (m ≡ ok out)) ⊎ ((m ≡ err "DEPENDENCY_CYCLE") × Blocked ids [])
      → ((out : List String) × (m ≡ ok out))
        ⊎ ((m ≡ err "DEPENDENCY_CYCLE")
            × ((stuck : List String) × (stuck ≢ [])
                × IsStuck stuck
                × All (λ x. includes x ids ≡ true) stuck))
  close ids known (inl h) = inl h
  close ids known (inr (e, (stuck, before, some_stuck, blocked, counted))) =
      let within =
        All_map stuck (λ x l. in_plan x stuck before ids l (counted x)) (All_listed stuck) in
      inr (
        e,
        (
          stuck,
          some_stuck,
          stuck_of_blocked ids stuck before (λ x. omega (arith, counted x)) stuck
              (All_map stuck
                (λ x l.
                  All-includes (λ y. all (λ d. includes d ids) (depends_on y) ≡ true) x ids known l)
                within)
              blocked,
          within,
        ),
      )

  -- An order that is returned holds every step exactly as often as the plan has it, each behind all
  -- its dependencies, and there is then no set of steps of the plan each waiting for another of it.
  pub order_steps_sound :
      (ids out : List String)
      → order_steps depends_on ids ≡ ok out
      → InOrder [] out
        × ((x : String) → count x out ≡ count x ids)
        × ((stuck : List String)
            → IsStuck stuck
            → All (λ x. includes x ids ≡ true) stuck
            → stuck ≡ [])
  unfolding order_steps
  order_steps_sound ids out h =
      let (tail, same, sorted, counted) = order_rounds_sound (length ids) ids [] out h in
      (
        rw same sorted,
        λ x. rw same (counted x),
        λ stuck s k.
            no_member stuck ids tail counted k
              (free_of stuck [] tail s (All_map stuck (λ y e. refl) k) sorted),
      )

  -- Where every dependency is a step of the plan, the loop ends: it returns an order, or it reports a
  -- cycle, and then there is a nonempty set of steps of the plan each waiting for another of the set.
  pub order_steps_total :
      (ids : List String)
      → All (λ x. all (λ d. includes d ids) (depends_on x) ≡ true) ids
      → ((out : List String) × (order_steps depends_on ids ≡ ok out))
        ⊎ ((order_steps depends_on ids ≡ err "DEPENDENCY_CYCLE")
            × ((stuck : List String) × (stuck ≢ [])
                × IsStuck stuck
                × All (λ x. includes x ids ≡ true) stuck))
  unfolding order_steps
  order_steps_total ids known =
      close ids known (order_rounds_total (length ids) ids [] (omega arith))
