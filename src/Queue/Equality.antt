-- ===== src/Queue/Equality.antt =====
-- The tests of `===` on the values of Json, against equality.
use bounded_agent_harness.Prelude.{ℕ, ◌≡◌, refl, ap, String, true, eq_iff, arith}
use bounded_agent_harness.Json.{
  Value, undefined, null, bool, num, nat, neg, other, str, arr, obj, is_text, is_number,
}
use bounded_agent_harness.Queue.Validate.{strict_equal}

-- A value that `===` takes for a text is that text.
pub is_text-str : (v : Value) (t : String) → is_text v t ≡ true → v ≡ str t
unfolding is_text
is_text-str (str s) t h = rw ((eq_iff s t).0 h) refl
is_text-str undefined t h = cc
is_text-str null t h = cc
is_text-str (bool b) t h = cc
is_text-str (num n) t h = cc
is_text-str (arr vs) t h = cc
is_text-str (obj fs) t h = cc

-- A value that `===` takes for a number is that number.
pub is_number-eq : (v : Value) (n : ℕ) → is_number v n ≡ true → v ≡ num (nat n)
unfolding is_number
is_number-eq undefined n h = cc
is_number-eq null n h = cc
is_number-eq (bool b) n h = cc
is_number-eq (num (nat m)) n h = ap (λ k. num (nat k)) (ground arith)
is_number-eq (num (neg m)) n h = cc
is_number-eq (num (other s)) n h = cc
is_number-eq (str s) n h = cc
is_number-eq (arr vs) n h = cc
is_number-eq (obj fs) n h = cc

-- Values that `===` takes for equal are equal.
pub strict_equal-eq : (a b : Value) → strict_equal a b ≡ true → a ≡ b
unfolding strict_equal
strict_equal-eq undefined b h = ground arith
strict_equal-eq null b h = ground arith
strict_equal-eq (bool c) b h = ground arith
strict_equal-eq (num m) b h = grind (arith, eq_iff)
strict_equal-eq (str s) b h = grind (arith, eq_iff)
strict_equal-eq (arr vs) b h = cc
strict_equal-eq (obj fs) b h = ground arith
