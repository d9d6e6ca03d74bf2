-- ===== src/Workflow/Order/Counting.antt =====
-- How often a text occurs in a list, and what a round of the ordering loop keeps of that.
use bounded_agent_harness.Prelude.{
  ℕ, ◌+◌, ◌<◌, String, ◌≡◌, refl, inl, inr, Bool, true, false, not, ◌&&◌, ◌||◌, List, [], ◌∷◌, ◌++◌,
  includes, select, length, if◌then◌else◌, str_eq, eq_iff, eq_refl, All, All_map, arith, Bool-cases,
}
use bounded_agent_harness.Json.Text.{text_le, insert_sorted, sort, sort_texts}

abbrev pub count : String → List String → ℕ
count x [] = 0
count x (y ∷ ys) = (if str_eq x y then 1 else 0) + count x ys

or_true : (b : Bool) → (b || true) ≡ true
or_true b = ground arith

pub count-append : (x : String) (ys zs : List String) → count x (ys ++ zs) ≡ count x ys + count x zs
count-append x [] zs = omega arith
count-append x (y ∷ ys) zs = ground (arith, count-append x ys zs)

count-insert_sorted :
    (x y : String) (ys : List String) → count x (insert_sorted text_le y ys) ≡ count x (y ∷ ys)
unfolding insert_sorted
count-insert_sorted x y [] = refl
count-insert_sorted x y (z ∷ zs) = ground (arith, count-insert_sorted x y zs)

count-sort : (x : String) (ys : List String) → count x (sort text_le ys) ≡ count x ys
unfolding sort
count-sort x [] = refl
count-sort x (y ∷ ys) = ground (arith, count-insert_sorted x y (sort text_le ys), count-sort x ys)

pub count-sort_texts : (x : String) (ys : List String) → count x (sort_texts ys) ≡ count x ys
unfolding sort_texts
count-sort_texts x ys = count-sort x ys

pub count-zero : (x : String) (ys : List String) → includes x ys ≡ false → count x ys ≡ 0
count-zero x [] h = refl
count-zero x (y ∷ ys) h = ground (arith, count-zero x ys)

pub count-pos : (x : String) (ys : List String) → includes x ys ≡ true → 0 < count x ys
count-pos x [] h = cc
count-pos x (y ∷ ys) h = ground (arith, count-pos x ys)

-- A listed text is one that occurs.
pub includes_of_count :
    (x : String) (ys zs : List String) → count x ys ≡ count x zs → includes x ys ≡ includes x zs
includes_of_count x ys zs h = elim (Bool-cases (includes x ys)) [
  | inl p ↦ elim (Bool-cases (includes x zs)) [
    | inl q ↦ rw (p, q) refl
    | inr q ↦ absurd (omega (arith, h, count-pos x ys p, count-zero x zs q))
  ]
  | inr p ↦ elim (Bool-cases (includes x zs)) [
    | inl q ↦ absurd (omega (arith, h, count-pos x zs q, count-zero x ys p))
    | inr q ↦ rw (p, q) refl
  ]
]

pub includes-select :
    (x : String) (p : String → Bool) (ys : List String)
    → includes x (select p ys) ≡ (includes x ys && p x)
includes-select x p [] = refl
includes-select x p (y ∷ ys) = elim (Bool-cases (str_eq x y)) [
  | inl same ↦
      rw ((eq_iff x y).0 same, eq_refl)
        (elim (Bool-cases (p y)) [
          | inl e ↦ rw (e, eq_refl) refl
          | inr e ↦ rw e (ground (arith, rw ((eq_iff x y).0 same) at (includes-select x p ys)))
        ])
  | inr differ ↦ rw differ (elim (Bool-cases (p y)) [
    | inl e ↦ rw e (rw differ (includes-select x p ys))
    | inr e ↦ rw e (includes-select x p ys)
  ])
]

pub select_same :
    (p q : String → Bool) (ys : List String) → All (λ y. p y ≡ q y) ys → select p ys ≡ select q ys
select_same p q [] h = refl
select_same p q (y ∷ ys) (e, h) = rw (e, select_same p q ys h) refl

-- What a test takes and what it leaves make up the list.
pub count-select :
    (x : String) (p : String → Bool) (ys : List String)
    → count x (select p ys) + count x (select (λ y. not (p y)) ys) ≡ count x ys
count-select x p [] = omega arith
count-select x p (y ∷ ys) = ground (arith, count-select x p ys)

pub length-select :
    (p : String → Bool) (ys : List String)
    → length (select p ys) + length (select (λ y. not (p y)) ys) ≡ length ys
length-select p [] = omega arith
length-select p (y ∷ ys) = ground (arith, length-select p ys)

-- Every item of a list is listed.
pub All_listed : (zs : List String) → All (λ y. includes y zs ≡ true) zs
All_listed [] = tt
All_listed (z ∷ zs) =
    (rw eq_refl refl, All_map zs (λ y h. rw h (or_true (str_eq y z))) (All_listed zs))

All-insert_sorted :
    (P : String → Type 0) (y : String) (ys : List String)
    → P y
    → All P ys
    → All P (insert_sorted text_le y ys)
unfolding insert_sorted
All-insert_sorted P y [] p h = (p, tt)
All-insert_sorted P y (z ∷ zs) p (q, h) = elim (Bool-cases (text_le y z)) [
  | inl e ↦ rw e (p, (q, h))
  | inr e ↦ rw e (q, All-insert_sorted P y zs p h)
]

pub All-sort_texts : (P : String → Type 0) (ys : List String) → All P ys → All P (sort_texts ys)
unfolding sort_texts sort
All-sort_texts P [] h = tt
All-sort_texts P (y ∷ ys) (p, h) = All-insert_sorted P y (sort text_le ys) p (All-sort_texts P ys h)

pub All_select : (p : String → Bool) (ys : List String) → All (λ y. p y ≡ true) (select p ys)
All_select p [] = tt
All_select p (y ∷ ys) = elim (Bool-cases (p y)) [
  | inl e ↦ rw e (e, All_select p ys)
  | inr e ↦ rw e (All_select p ys)
]
