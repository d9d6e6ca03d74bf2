-- ===== src/Json/Canonical.antt =====
-- src/canonical-json.mjs: the canonical text of a value, and its SHA-256 digest. The hash of
-- `node:crypto` is a parameter, and so are `Date` and the collation of `localeCompare`.
use Prim.Native.Char.{Char, char, code}
use Prim.Native.String
use Prim.Native.String.{char_at}
use bounded_agent_harness.Prelude.{
  ◌≡◌, ℕ, zero, suc, ◌/◌, ◌%◌, String, Bool, true, false, List, [], ◌∷◌, Option, none, some, ltb,
  ◌==◌, if◌then◌else◌, map,
}
use bounded_agent_harness.Json.Text.{text_le, sort}
use bounded_agent_harness.Json.{
  Number, nat, neg, other, Value, undefined, null, bool, num, str, arr, obj, Items, nil, cons,
  Fields, end, field,
}

infixr 65 ◌+++◌
abbrev pub ◌+++◌ : String → String → String
s +++ t = String.◌++◌ s t

abbrev pub one : Char → String
one c = String.◌∷◌ c String.[]

-- The digit of a number below 16.
abbrev digit : ℕ → String
digit n = one (char_at "0123456789abcdef" n)

-- The decimal digits of a number; there are at most as many as the number counts, plus one.
unfoldable pub digits : ℕ → ℕ → String
digits zero n = ""
digits (suc fuel) n =
    let higher = digits fuel (n / 10) +++ digit (n % 10) in if ltb n 10 then digit n else higher

unfoldable pub number_text : Number → String
unfolding digits
number_text (nat n) = digits (suc n) n
number_text (neg n) = "-" +++ digits (suc (suc n)) (suc n)
number_text (other s) = s

abbrev backslash : Char → String
backslash c = String.◌∷◌ (char 92 tt) (one c)

-- One character as `JSON.stringify` writes it inside quotes.
unfoldable pub escape : Char → String
escape c =
    if code c == 34
    then backslash c
    else if code c == 92
    then backslash c
    else if code c == 8
    then backslash "b"
    else if code c == 12
    then backslash "f"
    else if code c == 10
    then backslash "n"
    else if code c == 13
    then backslash "r"
    else if code c == 9
    then backslash "t"
    else if ltb (code c) 32
    then backslash "u" +++ "00" +++ digit (code c / 16) +++ digit (code c % 16)
    else one c

unfoldable pub escape_all : String → String
unfolding escape
escape_all String.[] = ""
escape_all (String.◌∷◌ c s) = escape c +++ escape_all s

-- `JSON.stringify` of a string.
unfoldable pub quote : String → String
unfolding escape_all
quote s = one (char 34 tt) +++ escape_all s +++ one (char 34 tt)

-- `parts.join(",")`.
unfoldable pub join : List String → String
join [] = ""
join (p ∷ []) = p
join (p ∷ q ∷ ps) = p +++ "," +++ join (q ∷ ps)

abbrev key_le : String × String → String × String → Bool
key_le a b = text_le a.0 b.0

abbrev member_text : String × String → String
member_text (k, t) = quote k +++ ":" +++ t

unfoldable mutual
  -- An undefined item of an array is written as null, and an undefined field is left out.
  pub canonical_text : Value → String
  canonical_text undefined = "null"
  canonical_text null = "null"
  canonical_text (bool true) = "true"
  canonical_text (bool false) = "false"
  canonical_text (num n) = number_text n
  canonical_text (str s) = quote s
  canonical_text (arr vs) = "[" +++ join (item_texts vs) +++ "]"
  canonical_text (obj fs) = "{" +++ join (map member_text (sort key_le (field_texts fs))) +++ "}"

  pub item_texts : Items → List String
  item_texts nil = []
  item_texts (cons v vs) = canonical_text v ∷ item_texts vs

  pub field_texts : Fields → List (String × String)
  field_texts end = []
  field_texts (field k undefined fs) = field_texts fs
  field_texts (field k v fs) = (k, canonical_text v) ∷ field_texts fs

unfoldable mutual
  -- `JSON.stringify(value)` of a value that is not undefined: the fields in their own order.
  pub json_text : Value → String
  json_text undefined = "null"
  json_text null = "null"
  json_text (bool true) = "true"
  json_text (bool false) = "false"
  json_text (num n) = number_text n
  json_text (str s) = quote s
  json_text (arr vs) = "[" +++ join (json_items vs) +++ "]"
  json_text (obj fs) = "{" +++ join (map member_text (json_fields fs)) +++ "}"

  pub json_items : Items → List String
  json_items nil = []
  json_items (cons v vs) = json_text v ∷ json_items vs

  pub json_fields : Fields → List (String × String)
  json_fields end = []
  json_fields (field k undefined fs) = json_fields fs
  json_fields (field k v fs) = (k, json_text v) ∷ json_fields fs

-- `canonicalize(value)`, with undefined as `none`.
unfoldable pub canonicalize : Value → Option String
unfolding canonical_text
canonicalize undefined = none
canonicalize v = some (canonical_text v)

-- What the program takes from its platform: the SHA-256 of a UTF-8 text in hexadecimal digits,
-- `Date.parse` (an instant in milliseconds after the epoch, `none` for NaN), `toISOString`, and the
-- order of `localeCompare`.
pub record Host : Type 0 where
  pub hash : String → String
  pub parse_date : String → Option ℕ
  pub iso_text : ℕ → String
  pub locale_le : String → String → Bool

-- The platform reads an instant back as it wrote it.
abbrev pub ReadsBack : Host → Type 0
ReadsBack host = (n : ℕ) → host.parse_date (host.iso_text n) ≡ some n

-- `sha256:${sha256(value)}`.
unfoldable pub digest_of : Host → Value → String
unfolding canonical_text
digest_of host v = "sha256:" +++ host.hash (canonical_text v)
