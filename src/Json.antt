-- ===== src/Json.antt =====
-- The values that the program validates and hashes: what `JSON.parse` returns, with `undefined` for
-- what is missing, and the tests on them that the source writes out (`typeof`, `Array.isArray`,
-- `Number.isSafeInteger`). Properties that an object inherits from its prototype are left out.
pub mod Text
pub mod Sorting
pub mod Canonical
use bounded_agent_harness.Prelude.{
  ℕ, suc, ◌<◌, ◌^◌, ◌-◌, String, Bool, true, false, not, ◌&&◌, Option, none, some, List, [], ◌∷◌,
  ltb, if◌then◌else◌, str_eq, includes, all, Result, ok, assert, ◌>>◌, for_each,
}

-- A number is a natural one, `-(n + 1)`, or any other (a fraction, an infinity, NaN), as printed.
pub data Number : Type 0 where
  nat : ℕ → Number
  neg : ℕ → Number
  other : String → Number

mutual
  pub data Value : Type 0 where
    undefined null : Value
    bool : Bool → Value
    num : Number → Value
    str : String → Value
    arr : Items → Value
    obj : Fields → Value

  pub data Fields : Type 0 where
    end : Fields
    field : String → Value → Fields → Fields

  pub data Items : Type 0 where
    nil : Items
    cons : Value → Items → Items

unfoldable pub items : Items → List Value
items nil = []
items (cons v vs) = v ∷ items vs

unfoldable pub entries : Fields → List (String × Value)
entries end = []
entries (field k v fs) = (k, v) ∷ entries fs

unfoldable pub to_items : List Value → Items
to_items [] = nil
to_items (v ∷ vs) = cons v (to_items vs)

unfoldable pub to_fields : List (String × Value) → Fields
to_fields [] = end
to_fields ((k, v) ∷ fs) = field k v (to_fields fs)

unfoldable pub lookup_field : String → Fields → Value
lookup_field key end = undefined
lookup_field key (field k v fs) = if str_eq k key then v else lookup_field key fs

-- `value.key` and `value?.key`; the source reads `value.key` only behind a test for an object.
unfoldable pub get : Value → String → Value
unfolding lookup_field
get (obj fs) key = lookup_field key fs
get _ key = undefined

unfoldable pub field_names : Fields → List String
field_names end = []
field_names (field k v fs) = k ∷ field_names fs

-- `Object.keys(value)`.
unfoldable pub keys : Value → List String
unfolding field_names
keys (obj fs) = field_names fs
keys _ = []

-- `value && typeof value === "object" && !Array.isArray(value)`.
unfoldable pub is_object : Value → Bool
is_object (obj fs) = true
is_object _ = false

unfoldable pub is_array : Value → Bool
is_array (arr vs) = true
is_array _ = false

unfoldable pub is_string : Value → Bool
is_string (str s) = true
is_string _ = false

unfoldable pub is_boolean : Value → Bool
is_boolean (bool b) = true
is_boolean _ = false

unfoldable pub is_undefined : Value → Bool
is_undefined undefined = true
is_undefined _ = false

unfoldable pub is_null : Value → Bool
is_null null = true
is_null _ = false

-- The items of an array, the text of a string and so on, behind the test for it.
unfoldable pub elems : Value → List Value
unfolding items
elems (arr vs) = items vs
elems _ = []

unfoldable pub text_of : Value → String
text_of (str s) = s
text_of _ = ""

unfoldable pub nat_of : Value → ℕ
nat_of (num (nat n)) = n
nat_of _ = 0

-- `value === true`.
unfoldable pub is_true : Value → Bool
is_true (bool b) = b
is_true _ = false

-- The test of `if (value)` and `!value`; of the other numbers, zero is a natural one, and NaN is not
-- a value of JSON.
unfoldable pub is_truthy : Value → Bool
is_truthy undefined = false
is_truthy null = false
is_truthy (bool b) = b
is_truthy (num (nat n)) = ltb 0 n
is_truthy (num m) = true
is_truthy (str s) = not (str_eq s "")
is_truthy v = true

-- `value === "text"`.
unfoldable pub is_text : Value → String → Bool
is_text (str s) t = str_eq s t
is_text _ t = false

-- `value === 1` and the like.
unfoldable pub is_number : Value → ℕ → Bool
is_number (num (nat n)) m = if ltb n m then false else not (ltb m n)
is_number _ m = false

-- 2^53, the first integer that is not safe.
abbrev pub unsafe_integer : ℕ
unsafe_integer = 9007199254740992

-- `Number.isSafeInteger(value) && value >= 0`.
unfoldable pub is_safe_natural : Value → Bool
is_safe_natural (num (nat n)) = ltb n unsafe_integer
is_safe_natural _ = false

-- `Number.isSafeInteger(value)`.
unfoldable pub is_safe_integer : Value → Bool
is_safe_integer (num (nat n)) = ltb n unsafe_integer
is_safe_integer (num (neg n)) = ltb (suc n) unsafe_integer
is_safe_integer _ = false

-- `Number.isSafeInteger(value) && value > 0`.
unfoldable pub is_safe_positive : Value → Bool
is_safe_positive (num (nat n)) = ltb 0 n && ltb n unsafe_integer
is_safe_positive _ = false

unfoldable pub texts_of : List Value → List String
unfolding text_of
texts_of [] = []
texts_of (v ∷ vs) = text_of v ∷ texts_of vs

-- `Array.isArray(value) && value.every((item) => typeof item === "string")`.
unfoldable pub is_string_array : Value → Bool
unfolding is_array is_string elems
is_string_array v = is_array v && all is_string (elems v)

unfoldable pub strings_of : Value → List String
unfolding texts_of elems
strings_of v = texts_of (elems v)

-- `closedObject` of contracts.mjs and of the policy modules.
unfoldable pub closed_object : Value → List String → Result (Unit {0})
unfolding is_object keys for_each
closed_object v allowed =
    assert (is_object v) "INVALID_TYPE"
    >> for_each (λ key. assert (includes key allowed) "UNKNOWN_FIELD") (keys v)

-- The fields of an object, an object of fields, and `({ key, ...rest }) => rest`.
unfoldable pub fields_of : Value → List (String × Value)
unfolding entries
fields_of (obj fs) = entries fs
fields_of _ = []

unfoldable pub object_of : List (String × Value) → Value
unfolding to_fields
object_of fs = obj (to_fields fs)

unfoldable pub without_keys : List String → List (String × Value) → List (String × Value)
without_keys names [] = []
without_keys names ((k, v) ∷ fs) =
    let rest = without_keys names fs in if includes k names then rest else (k, v) ∷ rest

unfoldable pub omit : List String → Value → Value
unfolding fields_of object_of without_keys
omit names v = object_of (without_keys names (fields_of v))
