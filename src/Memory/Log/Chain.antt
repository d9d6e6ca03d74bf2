-- ===== src/Memory/Log/Chain.antt =====
-- Envelopes and links of the log of src/memory-store.mjs.
use bounded_agent_harness.Prelude.{
  ℕ, true, Option, none, some, List, [], ◌∷◌, ◌++◌, ◌≡◌, refl, ap, ok, ◌>>=◌, map_each, arith,
  >>=-eq-ok,
}
use bounded_agent_harness.Json.{Value, str, get, is_number}
use bounded_agent_harness.Json.Canonical.{Host}
use bounded_agent_harness.Memory.Log.{parse_line, check_link, expected_hash}
use bounded_agent_harness.Queue.Validate.{strict_equal}
use bounded_agent_harness.Queue.Equality.{is_text-str}

-- The hash that the envelope behind a list has to carry.
abbrev pub hash_behind : Value → List Value → Value
hash_behind previous [] = previous
hash_behind previous (e ∷ es) = hash_behind (get e "hash") es

pub map_each-append :
    (lines : List (Option Value)) (es : List Value) (v : Value)
    → map_each parse_line lines ≡ ok es
    → map_each parse_line (lines ++ some v ∷ []) ≡ ok (es ++ v ∷ [])
unfolding map_each parse_line
map_each-append [] [] v h = refl
map_each-append [] (e ∷ es) v h = cc
map_each-append (none ∷ lines) es v h = cc
map_each-append (some l ∷ lines) es v h =
    let (fs, e, w) = >>=-eq-ok (map_each parse_line lines) (λ ys. ok (l ∷ ys)) h in
    rw (map_each-append lines fs v e) (ap (λ r. r >>= λ gs. ok (gs ++ v ∷ [])) w)

abbrev pub IsLinkable : Value → Type 0
IsLinkable v = strict_equal v v ≡ true

pub check_link-parts :
    (host : Host) (n : ℕ) (previous e : Value)
    → check_link host n previous e ≡ ok tt
    → (is_number (get e "sequence") n ≡ true)
      × (strict_equal (get e "previousHash") previous ≡ true)
      × (get e "hash" ≡ str (expected_hash host e))
unfolding check_link
check_link-parts host n previous e h =
    (ground arith, ground arith, is_text-str (get e "hash") (expected_hash host e) (ground arith))
