-- ===== src/Json/Text.antt =====
-- The text tests of the source: the regular expressions for identifiers and digests, `trim`,
-- `length` (which counts UTF-16 units) and the order of `sort()`.
use Prim.Native.Char.{code}
use bounded_agent_harness.Prelude.{
  ℕ, ◌+◌, ◌-◌, ◌/◌, ◌%◌, String, Bool, true, false, not, ◌&&◌, ◌||◌, List, [], ◌∷◌, ltb, leb, ◌==◌,
  if◌then◌else◌, all, any, length,
}

abbrev pub codes : String → List ℕ
codes String.[] = []
codes (String.◌∷◌ c s) = code c ∷ codes s

abbrev between : ℕ → ℕ → ℕ → Bool
between lo hi c = leb lo c && leb c hi

-- [a-z], [a-z0-9._-], [a-f0-9] and the like.
unfoldable pub is_lower : ℕ → Bool
is_lower c = between 97 122 c

unfoldable pub is_upper : ℕ → Bool
is_upper c = between 65 90 c

unfoldable pub is_digit : ℕ → Bool
is_digit c = between 48 57 c

unfoldable pub is_id_char : ℕ → Bool
unfolding is_lower is_digit
is_id_char c = is_lower c || is_digit c || c == b'.' || c == b'_' || c == b'-'

unfoldable pub is_hex : ℕ → Bool
unfolding is_digit
is_hex c = between 97 102 c || is_digit c

unfoldable pub is_hex_any_case : ℕ → Bool
unfolding is_hex
is_hex_any_case c = is_hex c || between 65 70 c

-- /^[first][rest]{lo,hi}$/
unfoldable pub head_and_tail : (ℕ → Bool) → (ℕ → Bool) → ℕ → ℕ → List ℕ → Bool
head_and_tail first rest lo hi [] = false
head_and_tail first rest lo hi (c ∷ cs) =
    first c && all rest cs && leb lo (length cs) && leb (length cs) hi

-- /^[a-z][a-z0-9._-]{1,79}$/, the stable identifiers of contracts, governance and floors.
unfoldable pub is_stable_id : String → Bool
unfolding head_and_tail is_lower is_id_char
is_stable_id s = head_and_tail is_lower is_id_char 1 79 (codes s)

-- /^[a-z0-9][a-z0-9._-]{2,80}$/ and /^[a-z0-9][a-z0-9._-]{1,40}$/ of shared-task-queue.mjs.
abbrev lower_or_digit : ℕ → Bool
lower_or_digit c = is_lower c || is_digit c

unfoldable pub is_task_id : String → Bool
unfolding head_and_tail is_lower is_digit is_id_char
is_task_id s = head_and_tail lower_or_digit is_id_char 2 80 (codes s)

unfoldable pub is_agent_id : String → Bool
unfolding head_and_tail is_lower is_digit is_id_char
is_agent_id s = head_and_tail lower_or_digit is_id_char 1 40 (codes s)

-- /^[a-zA-Z0-9._:-]{1,120}$/ of continuation-fork.mjs.
abbrev bounded_char : ℕ → Bool
bounded_char c = is_id_char c || is_upper c || c == b':'

unfoldable pub is_bounded_id : String → Bool
unfolding head_and_tail is_lower is_upper is_digit is_id_char
is_bounded_id s = head_and_tail bounded_char bounded_char 0 119 (codes s)

unfoldable pub strip_prefix : List ℕ → List ℕ → List ℕ × Bool
strip_prefix [] cs = (cs, true)
strip_prefix (p ∷ ps) [] = ([], false)
strip_prefix (p ∷ ps) (c ∷ cs) =
    let (rest, found) = strip_prefix ps cs in if p == c then (rest, found) else ([], false)

-- `s.startsWith(p)` on code points.
unfoldable pub starts_with : List ℕ → List ℕ → Bool
starts_with [] cs = true
starts_with (p ∷ ps) [] = false
starts_with (p ∷ ps) (c ∷ cs) = p == c && starts_with ps cs

abbrev hex_block : ℕ → List ℕ × Bool → Bool
hex_block n (cs, found) = found && length cs == n && all is_hex cs

-- /^sha256:[a-f0-9]{64}$/
unfoldable pub is_digest : String → Bool
unfolding strip_prefix is_hex
is_digest s = hex_block 64 (strip_prefix (codes "sha256:") (codes s))

-- /^[a-f0-9]{40}$/i
unfoldable pub is_commit : String → Bool
unfolding is_hex_any_case
is_commit s = length (codes s) == 40 && all is_hex_any_case (codes s)

-- The white space that `trim` removes.
unfoldable pub is_space : ℕ → Bool
is_space c =
    between 9 13 c
    || c == 32
    || c == 160
    || c == 5760
    || between 8192 8202 c
    || c == 8232
    || c == 8233
    || c == 8239
    || c == 8287
    || c == 12288
    || c == 65279

-- `s.trim().length > 0`.
unfoldable pub is_not_blank : String → Bool
unfolding is_space
is_not_blank s = any (λ c. not (is_space c)) (codes s)

-- A code point above the basic plane is two UTF-16 units.
unfoldable pub units : List ℕ → List ℕ
units [] = []
units (c ∷ cs) =
    let rest = units cs in
    if ltb c 65536
    then c ∷ rest
    else (55296 + (c - 65536) / 1024) ∷ (56320 + low (c - 65536)) ∷ rest
  where
    low : ℕ → ℕ
    low n = n % 1024

-- `s.length`.
unfoldable pub utf16_length : String → ℕ
unfolding units
utf16_length s = length (units (codes s))

-- The order of `sort()` without a comparator: UTF-16 units, a prefix first.
unfoldable pub units_le : List ℕ → List ℕ → Bool
units_le [] ds = true
units_le (c ∷ cs) [] = false
units_le (c ∷ cs) (d ∷ ds) = ltb c d || (c == d && units_le cs ds)

unfoldable pub text_le : String → String → Bool
unfolding units units_le
text_le a b = units_le (units (codes a)) (units (codes b))

-- `xs.sort(compare)`, where `le a b` says that `a` may stand before `b`; `sort` is stable.
module _ {ℓ} {A : Type ℓ} (le : A → A → Bool) where
  unfoldable pub insert_sorted : A → List A → List A
  insert_sorted x [] = x ∷ []
  insert_sorted x (y ∷ ys) = if le x y then x ∷ y ∷ ys else y ∷ insert_sorted x ys

  unfoldable pub sort : List A → List A
  unfolding insert_sorted
  sort [] = []
  sort (x ∷ xs) = insert_sorted x (sort xs)

unfoldable pub sort_texts : List String → List String
unfolding sort text_le
sort_texts xs = sort text_le xs
