-- ===== src/Queue/Disjoint.antt =====
-- Reservations that do not overlap (`validateReservationLedger` and `claimSharedTask` of src/shared-task-queue.mjs).
use bounded_agent_harness.Prelude.{
  String, ◌≡◌, refl, sym, ap, ap₂, ◌∙◌, inl, inr, Bool, true, false, not, ◌||◌, Option, none, some,
  List, [], ◌∷◌, ◌++◌, select, any, all, str_eq, ok, ok-injective, subst, >>=-eq-ok, arith,
  Bool-cases, eq_iff,
}
use bounded_agent_harness.Json.{Value, get, elems, is_truthy, object_of, to_items}
use bounded_agent_harness.Json.Text.{sort}
use bounded_agent_harness.Queue.Validate.{seal}
use bounded_agent_harness.Json.Canonical.{Host}
use bounded_agent_harness.Queue.Claim.{
  scope_overlaps, reservation_overlaps, paths_of, build_reservation_ledger, are_disjoint,
  validate_reservation_ledger,
}
use bounded_agent_harness.Queue.Store.{load_reservation_ledger}

pub str_eq_comm : (a b : String) → str_eq a b ≡ str_eq b a
str_eq_comm a b = elim (Bool-cases (str_eq a b)) [
  | inl e ↦ rw ((eq_iff a b).0 e) refl
  | inr e ↦ elim (Bool-cases (str_eq b a)) [
    | inl d ↦ rw ((eq_iff b a).0 d) refl
    | inr d ↦ e ∙ sym d
  ]
]

scope_overlaps_comm : (a b : String) → scope_overlaps a b ≡ scope_overlaps b a
unfolding scope_overlaps
scope_overlaps_comm a b = rw (str_eq_comm a b) ground arith

any_or :
    {A : Type 0} (f g : A → Bool) (xs : List A) → any (λ x. f x || g x) xs ≡ (any f xs || any g xs)
any_or f g [] = refl
any_or f g (x ∷ xs) = ground (arith, any_or f g xs)

any-false : {A : Type 0} (xs : List A) → any (λ x. false) xs ≡ false
any-false [] = refl
any-false (x ∷ xs) = any-false xs

any_swap :
    {A B : Type 0} (f : A → B → Bool) (xs : List A) (ys : List B)
    → any (λ x. any (f x) ys) xs ≡ any (λ y. any (λ x. f x y) xs) ys
any_swap f [] ys = sym (any-false ys)
any_swap f (x ∷ xs) ys =
    ap (λ b. any (f x) ys || b) (any_swap f xs ys)
    ∙ sym (any_or (f x) (λ y. any (λ x'. f x' y) xs) ys)

any_cong :
    {A : Type 0} (f g : A → Bool) → ((x : A) → f x ≡ g x) → (xs : List A) → any f xs ≡ any g xs
any_cong f g e [] = refl
any_cong f g e (x ∷ xs) = ap₂ (λ a b. a || b) (e x) (any_cong f g e xs)

pub reservation_overlaps_comm :
    (a b : List String) → reservation_overlaps a b ≡ reservation_overlaps b a
unfolding reservation_overlaps
reservation_overlaps_comm a b =
    any_swap scope_overlaps a b
    ∙ any_cong (λ y. any (λ x. scope_overlaps x y) a) (λ y. any (scope_overlaps y) a)
        (λ y.
          any_cong (λ x. scope_overlaps x y) (scope_overlaps y) (λ x. scope_overlaps_comm x y) a)
        b

all-select :
    {A : Type 0} (p q : A → Bool) (xs : List A) → all p xs ≡ true → all p (select q xs) ≡ true
all-select p q [] h = refl
all-select p q (x ∷ xs) h =
    let rest = all-select p q xs (ground arith) in
    elim (Bool-cases (q x)) [ inl e ↦ rw e (ground arith) | inr e ↦ rw e rest ]

pub are_disjoint-select :
    (q : Value → Bool) (rs : List Value)
    → are_disjoint rs ≡ true
    → are_disjoint (select q rs) ≡ true
unfolding are_disjoint
are_disjoint-select q [] h = refl
are_disjoint-select q (r ∷ rs) h =
    let rest = are_disjoint-select q rs (ground arith) in
    let apart =
      all-select (λ s. not (reservation_overlaps (paths_of r) (paths_of s))) q rs (ground arith) in
    elim (Bool-cases (q r)) [ inl e ↦ rw e (rw apart rest) | inr e ↦ rw e rest ]

all-snoc :
    {A : Type 0} (p : A → Bool) (xs : List A) (x : A)
    → all p xs ≡ true
    → p x ≡ true
    → all p (xs ++ x ∷ []) ≡ true
all-snoc p [] x h k = rw k refl
all-snoc p (y ∷ ys) x h k = let rest = all-snoc p ys x (ground arith) k in ground arith

-- A reservation that overlaps none of the others joins them.
pub are_disjoint-snoc :
    (rs : List Value) (r : Value)
    → are_disjoint rs ≡ true
    → any (λ s. reservation_overlaps (paths_of r) (paths_of s)) rs ≡ false
    → are_disjoint (rs ++ r ∷ []) ≡ true
unfolding are_disjoint
are_disjoint-snoc [] r h k = refl
are_disjoint-snoc (s ∷ rs) r h k =
    let rest = are_disjoint-snoc rs r (ground arith) (ground arith) in
    let apart : reservation_overlaps (paths_of s) (paths_of r) ≡ false =
      reservation_overlaps_comm (paths_of s) (paths_of r) ∙ ground arith in
    let all_apart =
      all-snoc (λ t. not (reservation_overlaps (paths_of s) (paths_of t))) rs r (ground arith)
        (rw apart refl) in
    rw all_apart rest

validated-are_disjoint :
    (host : Host) (ledger : Value)
    → validate_reservation_ledger host ledger ≡ ok tt
    → are_disjoint (elems (get ledger "reservations")) ≡ true
unfolding validate_reservation_ledger
validated-are_disjoint host ledger h = ground arith

built-are_disjoint :
    (host : Host)
    → are_disjoint (elems (get (build_reservation_ledger host []) "reservations")) ≡ true
unfolding build_reservation_ledger are_disjoint elems get seal object_of to_items sort
built-are_disjoint host = refl

-- What is loaded is disjoint.
pub load-are_disjoint :
    (host : Host) (raw : Option Value) (ledger : Value)
    → load_reservation_ledger host raw ≡ ok ledger
    → are_disjoint (elems (get ledger "reservations")) ≡ true
unfolding load_reservation_ledger
load-are_disjoint host none ledger h =
    subst (λ l. are_disjoint (elems (get l "reservations")) ≡ true) (ok-injective h)
      (built-are_disjoint host)
load-are_disjoint host (some raw) ledger h = elim (Bool-cases (is_truthy raw)) [
  | inl e ↦
      let (u, checked, found) = >>=-eq-ok (validate_reservation_ledger host raw) _ (rw e at h) in
      subst (λ l. are_disjoint (elems (get l "reservations")) ≡ true) (ok-injective found)
        (validated-are_disjoint host raw checked)
  | inr e ↦
      subst (λ l. are_disjoint (elems (get l "reservations")) ≡ true) (ok-injective (rw e at h))
        (built-are_disjoint host)
]
