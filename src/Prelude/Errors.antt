-- ===== src/Prelude/Errors.antt =====
-- src/errors.mjs. A function that may throw returns a `Result`; the error is the code of the
-- `HarnessError`. Messages and details are texts for people, and are left out.
use Prim.Native.String.{String}
use mathlib.Core.Path.{◌≡◌, refl}
use mathlib.Core.Bool.{Bool, true, false}
use mathlib.Core.Logic.{◌≢◌, ◌⊎◌, inl, inr}
use native.Mathlib.Omega.{arith}
use mathlib.Core.List.{List, [], ◌∷◌}

pub data Result {ℓ} (A : Type ℓ) : Type ℓ where
  ok : A → Result A
  err : String → Result A

-- `assert(condition, code, …)`.
abbrev pub assert : (condition : Bool) → (code : String) → Result (Unit {0})
assert false code = err code
assert true code = ok tt

-- What stands behind a statement that may throw is not reached when it does.
infixl 5 ◌>>=◌
abbrev pub ◌>>=◌ {ℓ κ} :
    {A : Type ℓ} {B : Type κ} → (first : Result A) → (rest : A → Result B) → Result B
err code >>= rest = err code
ok a >>= rest = rest a

infixl 5 ◌>>◌
abbrev pub ◌>>◌ {κ} : {B : Type κ} → (first : Result (Unit {0})) → (rest : Result B) → Result B
first >> rest = first >>= λ done. rest

-- `for (const x of xs) check(x);`
unfoldable pub for_each {ℓ} : {A : Type ℓ} → (A → Result (Unit {0})) → List A → Result (Unit {0})
for_each check [] = ok tt
for_each check (x ∷ xs) = check x >> for_each check xs

-- `xs.map(f)`, where `f` may throw.
unfoldable pub map_each {ℓ κ} :
    {A : Type ℓ} {B : Type κ} → (A → Result B) → List A → Result (List B)
map_each f [] = ok []
map_each f (x ∷ xs) = do y ← f x; ys ← map_each f xs; ok (y ∷ ys)

pub Result-cases {ℓ} :
    {A : Type ℓ} (m : Result A) → ((a : A) × (m ≡ ok a)) ⊎ ((e : String) × (m ≡ err e))
Result-cases (ok a) = inl (a, refl)
Result-cases (err e) = inr (e, refl)

pub ok-injective {ℓ} : {A : Type ℓ} {a b : A} → ok a ≡ ok b → a ≡ b
ok-injective h = ground arith

pub err≢ok {ℓ} : {A : Type ℓ} {a : A} {code : String} → err code ≢ ok a
err≢ok h = cc

-- Inversion of a successful step.
pub >>=-eq-ok {ℓ κ} :
    {A : Type ℓ} {B : Type κ} (first : Result A) (rest : A → Result B) {b : B}
    → (first >>= rest) ≡ ok b
    → (a : A) × (first ≡ ok a) × (rest a ≡ ok b)
>>=-eq-ok (err code) rest h = cc
>>=-eq-ok (ok a) rest h = (a, refl, h)

pub >>-left {ℓ} :
    {B : Type ℓ} (m : Result (Unit {0})) (k : Result B) {b : B} → (m >> k) ≡ ok b → m ≡ ok tt
>>-left (ok a) k h = refl
>>-left (err e) k h = cc

pub >>-right {ℓ} :
    {B : Type ℓ} (m : Result (Unit {0})) (k : Result B) {b : B} → (m >> k) ≡ ok b → k ≡ ok b
>>-right (ok a) k h = h
>>-right (err e) k h = cc

pub assert_holds : (c : Bool) (code : String) → assert c code ≡ ok tt → c ≡ true
assert_holds true code h = refl
assert_holds false code h = cc

-- A check that passed, and what is left of the block.
pub passed {ℓ} :
    {B : Type ℓ} (c : Bool) (code : String) (k : Result B) {b : B}
    → (assert c code >> k) ≡ ok b
    → (c ≡ true) × (k ≡ ok b)
passed true code k h = (refl, h)
passed false code k h = cc

-- `for_each(check)` passes exactly when the check passes on every item.
pub for_each_round {ℓ} :
    {A : Type ℓ} (check : A → Result (Unit {0})) (x : A) (xs : List A)
    → for_each check (x ∷ xs) ≡ ok tt
    → (check x ≡ ok tt) × (for_each check xs ≡ ok tt)
unfolding for_each
for_each_round check x xs h =
    (>>-left (check x) (for_each check xs) h, >>-right (check x) (for_each check xs) h)
