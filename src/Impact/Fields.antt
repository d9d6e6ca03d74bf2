-- ===== src/Impact/Fields.antt =====
-- src/change-impact.mjs: the tiers and kinds, and the checks of paths, tokens and lists of them.
use bounded_agent_harness.Prelude.{
  ℕ, String, Bool, true, false, not, ◌&&◌, ◌||◌, List, [], ◌∷◌, leb, ◌==◌, any, length, distinct,
  str_eq, if◌then◌else◌, Result, ok, assert, ◌>>=◌, ◌>>◌, map_each, Option, none, some,
}
use bounded_agent_harness.Json.{Value, is_array, is_string, is_undefined, is_null, elems, text_of}
use bounded_agent_harness.Json.Text.{codes, starts_with, utf16_length, sort_texts}
use bounded_agent_harness.Json.Canonical.{◌+++◌}
use bounded_agent_harness.Queue.Validate.{with_slashes, has_drive}
use bounded_agent_harness.Impact.{Paths}

pub data Tier : Type 0 where
  static direct boundary full : Tier

pub data ChangeKind : Type 0 where
  documentation local_implementation public_interface schema_or_policy external_effect_boundary :
      ChangeKind

unfoldable pub tier_of : String → Option Tier
tier_of s =
    if str_eq s "TIER_0_STATIC"
    then some static
    else if str_eq s "TIER_1_DIRECT"
    then some direct
    else if str_eq s "TIER_2_BOUNDARY"
    then some boundary
    else if str_eq s "TIER_3_FULL"
    then some full
    else none

unfoldable pub kind_of : String → Option ChangeKind
kind_of s =
    if str_eq s "DOCUMENTATION"
    then some documentation
    else if str_eq s "LOCAL_IMPLEMENTATION"
    then some local_implementation
    else if str_eq s "PUBLIC_INTERFACE"
    then some public_interface
    else if str_eq s "SCHEMA_OR_POLICY"
    then some schema_or_policy
    else if str_eq s "EXTERNAL_EFFECT_BOUNDARY"
    then some external_effect_boundary
    else none

-- `["PUBLIC_INTERFACE", "SCHEMA_OR_POLICY", "EXTERNAL_EFFECT_BOUNDARY"].includes(kind)`.
unfoldable pub needs_boundary : ChangeKind → Bool
needs_boundary documentation = false
needs_boundary local_implementation = false
needs_boundary kind = true

-- `codes.split(separator)`; the parts of a text.
abbrev pub add_to_first : ℕ → List (List ℕ) → List (List ℕ)
add_to_first c [] = (c ∷ []) ∷ []
add_to_first c (part ∷ parts) = (c ∷ part) ∷ parts

unfoldable pub split_at : ℕ → List ℕ → List (List ℕ)
split_at separator [] = [] ∷ []
split_at separator (c ∷ cs) =
    let rest = split_at separator cs in if c == separator then [] ∷ rest else add_to_first c rest

unfoldable pub same_codes : List ℕ → List ℕ → Bool
same_codes [] [] = true
same_codes (c ∷ cs) (d ∷ ds) = c == d && same_codes cs ds
same_codes _ _ = false

abbrev pub is_unsafe_part : List ℕ → Bool
is_unsafe_part part =
    same_codes part [] || same_codes part (codes ".") || same_codes part (codes "..")

-- /[\0\r\n]/ and /[\0\r\n\t ]/
unfoldable pub is_control : ℕ → Bool
is_control c = c == 0 || c == 13 || c == 10

unfoldable pub is_blank_or_control : ℕ → Bool
is_blank_or_control c = is_control c || c == 9 || c == 32

abbrev pub has_length : String → ℕ → Bool
has_length s most = leb 1 (utf16_length s) && leb (utf16_length s) most

-- `portablePath(value)`.
unfoldable pub portable_path : Paths → Value → Result String
portable_path paths v = do
  let normalized = with_slashes (text_of v)
  assert (is_string v && has_length (text_of v) 240) "INVALID_IMPACT_PATH"
  assert (not (paths.is_absolute (text_of v)) && not (has_drive (codes normalized)))
      "INVALID_IMPACT_PATH"
  assert (not (any is_unsafe_part (split_at b'/' (codes normalized)))) "INVALID_IMPACT_PATH"
  assert (not (any is_control (codes normalized))) "INVALID_IMPACT_PATH"
  ok normalized

-- `token(value)`.
unfoldable pub check_token : Value → Result String
check_token v = do
  assert (is_string v && has_length (text_of v) 120) "INVALID_IMPACT_TOKEN"
  assert (not (any is_blank_or_control (codes (text_of v)))) "INVALID_IMPACT_TOKEN"
  ok (text_of v)

-- `uniqueSorted(values, label, maximum, normalizer)`.
unfoldable pub unique_sorted :
    (Value → Result String) → (maximum : ℕ) → Value → Result (List String)
unique_sorted normalizer maximum v = do
  assert (is_array v && leb (length (elems v)) maximum) "INVALID_CHANGE_IMPACT"
  normalized ← map_each normalizer (elems v)
  assert (distinct normalized) "INVALID_CHANGE_IMPACT"
  ok (sort_texts normalized)

-- `uniqueSorted(value ?? [], …)`.
unfoldable pub optional_sorted :
    (Value → Result String) → (maximum : ℕ) → Value → Result (List String)
optional_sorted normalizer maximum v =
    if is_undefined v || is_null v then ok [] else unique_sorted normalizer maximum v

-- `value.endsWith("/") ? value : `${value}/``; a portable path does not end with a slash.
unfoldable pub with_final_slash : String → String
with_final_slash s = if starts_with (codes "/") (last_code (codes s)) then s else s +++ "/"
  where
    last_code : List ℕ → List ℕ
    last_code [] = []
    last_code (c ∷ []) = c ∷ []
    last_code (c ∷ d ∷ cs) = last_code (d ∷ cs)
