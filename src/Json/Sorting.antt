-- ===== src/Json/Sorting.antt =====
-- The sort of Json/Text: it keeps a property of all the items, and leaves a sorted list as it is.
use bounded_agent_harness.Prelude.{
  ◌≡◌, ◌≢◌, refl, ◌⊎◌, inl, inr, sym, ◌∙◌, Bool, true, false, false≢true, List, [], ◌∷◌, All,
  Bool-cases,
}
use bounded_agent_harness.Json.Text.{sort, insert_sorted}

module _ {A : Type 0} (P : A → Type 0) (le : A → A → Bool) where
  All-insert_sorted : (x : A) (xs : List A) → P x → All P xs → All P (insert_sorted le x xs)
  unfolding insert_sorted
  All-insert_sorted x [] p h = (p, tt)
  All-insert_sorted x (y ∷ ys) p (q, h) = elim (Bool-cases (le x y)) [
    | inl e ↦ rw e (p, (q, h))
    | inr e ↦ rw e (q, All-insert_sorted x ys p h)
  ]

  pub All-sort : (xs : List A) → All P xs → All P (sort le xs)
  unfolding sort
  All-sort [] h = tt
  All-sort (x ∷ xs) (p, h) = All-insert_sorted x (sort le xs) p (All-sort xs h)

  insert_sorted-All : (x : A) (xs : List A) → All P (insert_sorted le x xs) → P x × All P xs
  unfolding insert_sorted
  insert_sorted-All x [] h = h
  insert_sorted-All x (y ∷ ys) h = elim (Bool-cases (le x y)) [
    | inl e ↦ rw e at h
    | inr e ↦
        let (q, later) : P y × All P (insert_sorted le x ys) = rw e at h in
        let (p, rest) = insert_sorted-All x ys later in (p, (q, rest))
  ]

  pub sort-All : (xs : List A) → All P (sort le xs) → All P xs
  unfolding sort
  sort-All [] h = tt
  sort-All (x ∷ xs) h = let (p, rest) = insert_sorted-All x (sort le xs) h in (p, sort-All xs rest)

module _ {A : Type 0} (le : A → A → Bool) where
  -- Each item may stand before the next.
  abbrev Sorted : List A → Type 0
  Sorted [] = Unit
  Sorted (x ∷ []) = Unit
  Sorted (x ∷ y ∷ xs) = (le x y ≡ true) × Sorted (y ∷ xs)

  abbrev pub Total : Type 0
  Total = (x y : A) → (le x y ≡ true) ⊎ (le y x ≡ true)

  other_way : Total → (x y : A) → le x y ≡ false → le y x ≡ true
  other_way total x y e = elim (total x y) [ inl t ↦ absurd (false≢true (sym e ∙ t)) | inr t ↦ t ]

  insert-Sorted : Total → (x : A) (xs : List A) → Sorted xs → Sorted (insert_sorted le x xs)
  unfolding insert_sorted
  insert-Sorted total x [] h = tt
  insert-Sorted total x (y ∷ []) h = elim (Bool-cases (le x y)) [
    | inl e ↦ rw e (e, tt)
    | inr e ↦ rw e (other_way total x y e, tt)
  ]
  insert-Sorted total x (y ∷ z ∷ xs) (k, h) = elim (Bool-cases (le x y)) [
    | inl e ↦ rw e (e, (k, h))
    | inr e ↦ rw e (elim (Bool-cases (le x z)) [
      | inl f ↦ rw f (other_way total x y e, (f, h))
      | inr f ↦ let later = insert-Sorted total x (z ∷ xs) h in rw f (k, rw f at later)
    ])
  ]

  sort-Sorted : Total → (xs : List A) → Sorted (sort le xs)
  unfolding sort
  sort-Sorted total [] = tt
  sort-Sorted total (x ∷ xs) = insert-Sorted total x (sort le xs) (sort-Sorted total xs)

  sort_kept : (xs : List A) → Sorted xs → sort le xs ≡ xs
  unfolding sort insert_sorted
  sort_kept [] h = refl
  sort_kept (x ∷ []) h = refl
  sort_kept (x ∷ y ∷ xs) (k, h) = rw (sort_kept (y ∷ xs) h, k) refl

  pub sort-again : Total → (xs : List A) → sort le (sort le xs) ≡ sort le xs
  sort-again total xs = sort_kept (sort le xs) (sort-Sorted total xs)

  insert-nil : (x : A) (xs : List A) → insert_sorted le x xs ≢ []
  unfolding insert_sorted
  insert-nil x [] h = cc
  insert-nil x (y ∷ ys) h = elim (Bool-cases (le x y)) [
    | inl e ↦ let never : (x ∷ y ∷ ys) ≡ [] = rw e at h in cc
    | inr e ↦ let never : (y ∷ insert_sorted le x ys) ≡ [] = rw e at h in cc
  ]

  pub sort-nil : (xs : List A) → sort le xs ≡ [] → xs ≡ []
  unfolding sort
  sort-nil [] h = refl
  sort-nil (x ∷ xs) h = absurd (insert-nil x (sort le xs) h)
