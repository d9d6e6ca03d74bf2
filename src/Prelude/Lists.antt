-- ===== src/Prelude/Lists.antt =====
-- Lists measured by native numbers, Boolean searches, and predicates on all the items of a list.
use Prim.Native.Nat.{ℕ, suc, ◌+◌}
use Prim.Native.String.{String}
use mathlib.Core.Path.{◌≡◌, refl, subst, ap, ◌∙◌}
use mathlib.Core.Logic.{inl, inr}
use mathlib.Core.Bool.{Bool, true, false, not, ◌&&◌, ◌||◌, false≢true}
use mathlib.Core.Option.{Option, none, some}
use mathlib.Core.List.{List, [], ◌∷◌, ◌++◌, map, append_assoc}
use native.Mathlib.Omega.{arith}
use text.Mathlib.Text.{◌==◌ as str_eq}
use text.Mathlib.TextEquality.{eq_iff}
use bounded_agent_harness.Prelude.Errors.{
  Result, ok, assert, assert_holds, for_each, for_each_round,
}
use bounded_agent_harness.Prelude.Tests.{if◌then◌else◌, Bool-cases}

module _ {ℓ} {A : Type ℓ} where
  abbrev pub length : List A → ℕ
  length [] = 0
  length (x ∷ xs) = suc (length xs)

  abbrev pub any : (A → Bool) → List A → Bool
  any p [] = false
  any p (x ∷ xs) = p x || any p xs

  abbrev pub all : (A → Bool) → List A → Bool
  all p [] = true
  all p (x ∷ xs) = p x && all p xs

  -- `xs.filter(p)`, with a Boolean test.
  abbrev pub select : (A → Bool) → List A → List A
  select p [] = []
  select p (x ∷ xs) = let rest = select p xs in if p x then x ∷ rest else rest

  abbrev pub find : (A → Bool) → List A → Option A
  find p [] = none
  find p (x ∷ xs) = if p x then some x else find p xs

  -- `xs.at(-1)`.
  abbrev pub last : List A → Option A
  last [] = none
  last (x ∷ []) = some x
  last (x ∷ y ∷ xs) = last (y ∷ xs)

  pub length-append : (xs ys : List A) → length (xs ++ ys) ≡ length xs + length ys
  length-append [] ys = omega arith
  length-append (x ∷ xs) ys = omega (arith, length-append xs ys)

  pub select-append :
      (p : A → Bool) (xs ys : List A) → select p (xs ++ ys) ≡ select p xs ++ select p ys
  select-append p [] ys = refl
  select-append p (x ∷ xs) ys = elim (Bool-cases (p x)) [
    | inl e ↦ rw (e, select-append p xs ys) refl
    | inr e ↦ rw (e, select-append p xs ys) refl
  ]

module _ {ℓ κ} {A : Type ℓ} (P : A → Type κ) where
  abbrev pub All : List A → Type κ
  All [] = Unit
  All (x ∷ xs) = P x × All xs

  pub All-append : (xs ys : List A) → All xs → All ys → All (xs ++ ys)
  All-append [] ys h k = k
  All-append (x ∷ xs) ys (p, h) k = (p, All-append xs ys h k)

  pub All-append_left : (xs ys : List A) → All (xs ++ ys) → All xs
  All-append_left [] ys h = tt
  All-append_left (x ∷ xs) ys (p, h) = (p, All-append_left xs ys h)

  pub All-append_right : (xs ys : List A) → All (xs ++ ys) → All ys
  All-append_right [] ys h = h
  All-append_right (x ∷ xs) ys (p, h) = All-append_right xs ys h

  pub All-select : (p : A → Bool) (xs : List A) → All xs → All (select p xs)
  All-select p [] h = tt
  All-select p (x ∷ xs) (q, h) = elim (Bool-cases (p x)) [
    | inl e ↦ rw e (q, All-select p xs h)
    | inr e ↦ rw e (All-select p xs h)
  ]

pub All_map {ℓ κ μ} :
    {A : Type ℓ} {P : A → Type κ} {Q : A → Type μ} (xs : List A)
    → ((x : A) → P x → Q x)
    → All P xs
    → All Q xs
All_map [] f h = tt
All_map (x ∷ xs) f (p, h) = (f x p, All_map xs f h)

pub All_map2 {ℓ κ μ ν} :
    {A : Type ℓ} {P : A → Type κ} {Q : A → Type μ} {R : A → Type ν} (xs : List A)
    → ((x : A) → P x → Q x → R x)
    → All P xs
    → All Q xs
    → All R xs
All_map2 [] f h k = tt
All_map2 (x ∷ xs) f (p, h) (q, k) = (f x p q, All_map2 xs f h k)

-- `xs.includes(x)` and `new Set(xs).has(x)` on strings.
abbrev pub includes : String → List String → Bool
includes x [] = false
includes x (y ∷ ys) = str_eq x y || includes x ys

-- `new Set(xs).size === xs.length`.
abbrev pub distinct : List String → Bool
distinct [] = true
distinct (x ∷ xs) = not (includes x xs) && distinct xs

pub includes-append :
    (x : String) (ys zs : List String) → includes x (ys ++ zs) ≡ (includes x ys || includes x zs)
includes-append x [] zs = refl
includes-append x (y ∷ ys) zs = ground (arith, includes-append x ys zs)

pub all-eq-true {ℓ} :
    {A : Type ℓ} (p : A → Bool) (xs : List A) → all p xs ≡ true → All (λ x. p x ≡ true) xs
all-eq-true p [] h = tt
all-eq-true p (x ∷ xs) h = (ground arith, all-eq-true p xs (ground arith))

pub all_of_All {ℓ} :
    {A : Type ℓ} (p : A → Bool) (xs : List A) → All (λ x. p x ≡ true) xs → all p xs ≡ true
all_of_All p [] h = refl
all_of_All p (x ∷ xs) (q, h) = rw q (all_of_All p xs h)

pub All_of_all {ℓ} :
    {A : Type ℓ} (p : A → Bool) (xs : List A) → all p xs ≡ true → All (λ x. p x ≡ true) xs
All_of_all p [] h = tt
All_of_all p (x ∷ xs) h = (ground arith, All_of_all p xs (ground arith))

-- A property of every item holds of one that is listed.
pub All-includes :
    (P : String → Type 0) (x : String) (xs : List String) → All P xs → includes x xs ≡ true → P x
All-includes P x [] h m = cc
All-includes P x (y ∷ ys) (p, h) m = elim (Bool-cases (str_eq x y)) [
  | inl e ↦ rw ((eq_iff x y).0 e) p
  | inr e ↦ All-includes P x ys h (rw e at m)
]

-- The tests over strings, and over what a list was made from.
pub includes-map {ℓ} :
    {A : Type ℓ} (f : A → String) (x : A) (p : A → Bool) (xs : List A)
    → includes (f x) (map f (select p xs)) ≡ true
    → includes (f x) (map f xs) ≡ true
includes-map f x p [] h = h
includes-map f x p (y ∷ ys) h = ground (arith, includes-map f x p ys)

pub for_each-All {ℓ} :
    {A : Type ℓ} (test : A → Bool) (code : String) (xs : List A)
    → for_each (λ x. assert (test x) code) xs ≡ ok tt
    → All (λ x. test x ≡ true) xs
for_each-All test code [] h = tt
for_each-All test code (x ∷ xs) h =
    let (here, later) = for_each_round (λ y. assert (test y) code) x xs h in
    (assert_holds (test x) code here, for_each-All test code xs later)

pub for_each-each {ℓ} :
    {A : Type ℓ} (check : A → Result (Unit {0})) (xs : List A)
    → for_each check xs ≡ ok tt
    → All (λ x. check x ≡ ok tt) xs
for_each-each check [] h = tt
for_each-each check (x ∷ xs) h =
    let (here, later) = for_each_round check x xs h in (here, for_each-each check xs later)

-- A search that succeeds finds an item of the list that passes.
pub find-All {ℓ κ} :
    {A : Type ℓ} (P : A → Type κ) (p : A → Bool) (xs : List A) {x : A}
    → All P xs
    → find p xs ≡ some x
    → P x × (p x ≡ true)
find-All P p [] h e = cc
find-All P p (y ∷ ys) {x} (q, h) e = elim (Bool-cases (p y)) [
  | inl b ↦ let same : y ≡ x = ground arith in subst (λ z. P z × (p z ≡ true)) same (q, b)
  | inr b ↦ find-All P p ys h (rw b at e)
]

-- An element of a list, by its place.
abbrev pub Listed {ℓ} : {A : Type ℓ} → List A → A → Type ℓ
Listed {A = A} xs x = (before after : List A) × (xs ≡ before ++ x ∷ after)

pub Listed-cons {ℓ} : {A : Type ℓ} (y x : A) (xs : List A) → Listed xs x → Listed (y ∷ xs) x
Listed-cons y x xs (before, after, e) = (y ∷ before, after, ap (λ l. y ∷ l) e)

pub Listed-append {ℓ} : {A : Type ℓ} (x : A) (xs ys : List A) → Listed xs x → Listed (xs ++ ys) x
Listed-append x xs ys (before, after, e) =
    (before, after ++ ys, ap (λ l. l ++ ys) e ∙ append_assoc before (x ∷ after) ys)

-- A test that holds of some element, by that element.
pub any-Listed {ℓ} :
    {A : Type ℓ} (p : A → Bool) (xs : List A)
    → any p xs ≡ true
    → (x : A) × Listed xs x × (p x ≡ true)
any-Listed p [] h = absurd (false≢true h)
any-Listed p (x ∷ xs) h = elim (Bool-cases (p x)) [
  | inl e ↦ (x, ([], xs, refl), e)
  | inr e ↦
      let (y, listed, holds) = any-Listed p xs (rw e at h) in (y, Listed-cons x y xs listed, holds)
]

pub any-select {ℓ} :
    {A : Type ℓ} (f p : A → Bool) (xs : List A) → any f (select p xs) ≡ any (λ x. p x && f x) xs
any-select f p [] = refl
any-select f p (x ∷ xs) = elim (Bool-cases (p x)) [
  | inl e ↦ rw e (rw (any-select f p xs) refl)
  | inr e ↦ rw e (any-select f p xs)
]
