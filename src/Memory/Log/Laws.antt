-- ===== src/Memory/Log/Laws.antt =====
-- The log of src/memory-store.mjs as a list of events.
use bounded_agent_harness.Prelude.{
  ℕ, suc, ◌+◌, String, true, Option, none, some, List, [], ◌∷◌, ◌++◌, ◌∙◌, map, ◌≡◌, ◌≢◌, refl, ap,
  sym, length, last, Result, ok, err, ok-injective, ◌>>◌, ◌>>=◌, map_each, >>-left, >>-right, arith,
  inl, inr, Result-cases, Bool-cases, >>=-eq-ok, eq_refl, eq_iff, str_eq,
}
use Prim.Native.String.{count}
use text.Mathlib.TextLemmas
use bounded_agent_harness.Json.{
  Value, undefined, null, num, nat, str, get, is_number, is_text, is_truthy, is_null, neg, other,
  bool, arr, obj,
}
use bounded_agent_harness.Json.Canonical.{Host, digest_of, canonical_text, ◌+++◌}
use bounded_agent_harness.Memory.Log.{
  MemoryStore, parse_line, check_link, check_chain, read_envelopes, read_events, payload_of,
  previous_hash, next_envelope, append_line, append_locked, lines_of, unsigned, expected_hash,
}
use bounded_agent_harness.Queue.Validate.{strict_equal}
use bounded_agent_harness.Queue.Equality.{is_number-eq, strict_equal-eq}
use bounded_agent_harness.Memory.Log.Chain.{
  hash_behind, map_each-append, IsLinkable, check_link-parts,
}

digest_of-truthy : (host : Host) (v : Value) → is_truthy (str (digest_of host v)) ≡ true
unfolding digest_of is_truthy
digest_of-truthy host v =
    elim (Bool-cases (str_eq ("sha256:" +++ host.hash (canonical_text v)) "")) [
      | inr e ↦ rw e refl
      | inl e ↦
          let empty = ap count ((eq_iff ("sha256:" +++ host.hash (canonical_text v)) "").0 e) in
          let counted = TextLemmas.length-append "sha256:" (host.hash (canonical_text v)) in
          absurd (omega arith)
    ]

-- Behind a chain stands the digest of its last envelope, which the next one links to.
previous_hash-last :
    (host : Host) (n : ℕ) (previous e : Value) (es : List Value)
    → check_chain host n previous (e ∷ es) ≡ ok tt
    → (previous_hash (last (e ∷ es)) ≡ hash_behind previous (e ∷ es))
      × IsLinkable (hash_behind previous (e ∷ es))
unfolding check_chain expected_hash previous_hash strict_equal
previous_hash-last host n previous e [] h =
    let (sequence, link, hash) =
      check_link-parts host n previous e (>>-left (check_link host n previous e) (ok tt) h) in
    rw hash (
      rw
        (digest_of-truthy host
          (unsigned (get e "sequence") (get e "previousHash") (get e "payload")))
        (refl, eq_refl (expected_hash host e)))
previous_hash-last host n previous e (f ∷ es) h =
    previous_hash-last host (suc n) (get e "hash") f es
      (>>-right (check_link host n previous e) (check_chain host (suc n) (get e "hash") (f ∷ es)) h)

next_envelope-linked :
    (host : Host) (es : List Value)
    → check_chain host 0 null es ≡ ok tt
    → (previous_hash (last es) ≡ hash_behind null es) × IsLinkable (hash_behind null es)
unfolding previous_hash strict_equal
next_envelope-linked host [] h = (refl, refl)
next_envelope-linked host (e ∷ es) h = previous_hash-last host 0 null e es h

check_chain-append :
    (host : Host) (n : ℕ) (previous e : Value) (es : List Value)
    → check_chain host n previous es ≡ ok tt
    → check_link host (n + length es) (hash_behind previous es) e ≡ ok tt
    → check_chain host n previous (es ++ e ∷ []) ≡ ok tt
unfolding check_chain
check_chain-append host n previous e [] h k =
    let same : n + 0 ≡ n = omega arith in rw (rw same at k) refl
check_chain-append host n previous e (f ∷ es) h k =
    let here =
      >>-left (check_link host n previous f) (check_chain host (suc n) (get f "hash") es) h in
    let later =
      >>-right (check_link host n previous f) (check_chain host (suc n) (get f "hash") es) h in
    let shift : n + suc (length es) ≡ suc n + length es = omega arith in
    rw here (check_chain-append host (suc n) (get f "hash") e es later (rw shift at k))

is_number-nat : (n : ℕ) → is_number (num (nat n)) n ≡ true
unfolding is_number
is_number-nat n = ground arith

next_envelope-check :
    (host : Host) (es : List Value) (event previous : Value)
    → previous_hash (last es) ≡ previous
    → IsLinkable previous
    → check_link host (length es) previous (next_envelope host es event) ≡ ok tt
unfolding check_link next_envelope expected_hash is_text get is_null
    bounded_agent_harness.Json.object_of
next_envelope-check host es event previous h k =
    let sealed = eq_refl (digest_of host (unsigned (num (nat (length es))) previous event)) in
    rw (h, is_number-nat (length es), k, sealed) refl

chained :
    (host : Host) (lines : List (Option Value)) (es : List Value) (event : Value)
    → map_each parse_line lines ≡ ok es
    → check_chain host 0 null es ≡ ok tt
    → read_envelopes host (some (lines ++ some (next_envelope host es event) ∷ []))
      ≡ ok (es ++ next_envelope host es event ∷ [])
unfolding read_envelopes map_each unsigned
chained host lines es event parsed h =
    let (linked, linkable) = next_envelope-linked host es h in
    let next = next_envelope-check host es event (hash_behind null es) linked linkable in
    let start : 0 + length es ≡ length es = omega arith in
    rw
      (
        map_each-append lines es (next_envelope host es event) parsed,
        check_chain-append host 0 null (next_envelope host es event) es h (rw start next),
      )
      refl

read_envelopes-append :
    (host : Host) (file : Option (List (Option Value))) (es : List Value) (event : Value)
    → read_envelopes host file ≡ ok es
    → read_envelopes host (some (lines_of file ++ some (next_envelope host es event) ∷ []))
      ≡ ok (es ++ next_envelope host es event ∷ [])
unfolding read_envelopes map_each check_chain
read_envelopes-append host none es event h =
    let empty : [] ≡ es = ok-injective h in rw (sym empty) (chained host [] [] event refl refl)
read_envelopes-append host (some lines) es event h =
    let (fs, parsed, rest) =
      >>=-eq-ok (map_each parse_line lines) (λ fs. check_chain host 0 null fs >> ok fs) h in
    let same : fs ≡ es = ok-injective (>>-right (check_chain host 0 null fs) (ok fs) rest) in
    chained host lines es event (rw same at parsed)
      (>>-left (check_chain host 0 null es) (ok es) (rw same at rest))

map-append :
    (xs : List Value) (x : Value)
    → map payload_of (xs ++ x ∷ []) ≡ map payload_of xs ++ payload_of x ∷ []
map-append [] x = refl
map-append (y ∷ xs) x = rw (map-append xs x) refl

payload_of-next :
    (host : Host) (es : List Value) (event : Value)
    → payload_of (next_envelope host es event) ≡ event
unfolding get next_envelope bounded_agent_harness.Json.object_of
payload_of-next host es event = refl

append_locked-ok :
    (host : Host) (event : Value) (s : MemoryStore) (es : List Value)
    → read_envelopes host s.events_file ≡ ok es
    → append_locked host event s ≡ (append_line (next_envelope host es event) s, ok tt)
unfolding append_locked
append_locked-ok host event s es h = rw (h, append_locked) refl

append_locked-err :
    (host : Host) (event : Value) (s : MemoryStore) (code : String)
    → read_envelopes host s.events_file ≡ err code
    → append_locked host event s ≡ (s, err code)
unfolding append_locked
append_locked-err host event s code h = rw (h, append_locked) refl

-- On a log that reads as a list of events, an append succeeds, and the log then reads as that list with
-- the event behind it.
pub append_locked-reads :
    (host : Host) (event : Value) (s : MemoryStore) (events : List Value)
    → read_events host s ≡ ok events
    → ((append_locked host event s).1 ≡ ok tt)
      × (read_events host (append_locked host event s).0 ≡ ok (events ++ event ∷ []))
unfolding read_events append_line
append_locked-reads host event s events h =
    let (es, read, mapped) =
      >>=-eq-ok (read_envelopes host s.events_file) (λ es. ok (map payload_of es)) h in
    let same : map payload_of es ≡ events = ok-injective mapped in
    rw
      (
        append_locked-ok host event s es read,
        read_envelopes-append host s.events_file es event read,
        map-append es (next_envelope host es event),
        same,
        payload_of-next host es event,
      )
      (refl, refl)

ok≢err : {A : Type 0} {a : A} {code : String} → ok a ≢ err code
ok≢err h = cc

one_error : {A : Type 0} {a b : String} (r : Result A) → r ≡ err a → r ≡ err b → a ≡ b
one_error r h k = cc

-- An append to a log that does not read is refused with the same error, and changes nothing.
pub append_locked-corrupt :
    (host : Host) (event : Value) (s : MemoryStore) (code : String)
    → read_events host s ≡ err code
    → append_locked host event s ≡ (s, err code)
unfolding read_events
append_locked-corrupt host event s code h =
    elim (Result-cases (read_envelopes host s.events_file)) [
      | inl (es, e) ↦ absurd (ok≢err (rw e at h))
      | inr (c, e) ↦
          let same : c ≡ code =
            one_error (read_envelopes host s.events_file >>= λ es. ok (map payload_of es))
              (rw e refl) h in
          append_locked-err host event s code (rw same at e)
    ]

-- The parts of an envelope that `envelopes` checks.
abbrev pub sealed_parts : Value → Value × Value × Value
sealed_parts e = (get e "sequence", get e "previousHash", get e "hash")

expected_hash-ap :
    (host : Host) (x y : Value)
    → get x "sequence" ≡ get y "sequence"
    → get x "previousHash" ≡ get y "previousHash"
    → payload_of x ≡ payload_of y
    → expected_hash host x ≡ expected_hash host y
unfolding expected_hash
expected_hash-ap host x y a b c = rw (a, b, c, expected_hash) refl

cons-injective : {A : Type 0} {x y : A} {xs ys : List A} → (x ∷ xs) ≡ (y ∷ ys) → (x ≡ y) × (xs ≡ ys)
cons-injective h = (cc, cc)

-- Two chains of the same payloads carry the same sequence numbers, links and hashes.
pub check_chain-determined :
    (host : Host) (n : ℕ) (previous : Value) (es fs : List Value)
    → check_chain host n previous es ≡ ok tt
    → check_chain host n previous fs ≡ ok tt
    → map payload_of es ≡ map payload_of fs
    → map sealed_parts es ≡ map sealed_parts fs
unfolding check_chain
check_chain-determined host n previous [] [] h k e = refl
check_chain-determined host n previous [] (f ∷ fs) h k e = cc
check_chain-determined host n previous (x ∷ es) [] h k e = cc
check_chain-determined host n previous (x ∷ es) (f ∷ fs) h k e =
    let (sequence, link, hash) =
      check_link-parts host n previous x
        (>>-left (check_link host n previous x) (check_chain host (suc n) (get x "hash") es) h) in
    let (sequence', link', hash') =
      check_link-parts host n previous f
        (>>-left (check_link host n previous f) (check_chain host (suc n) (get f "hash") fs) k) in
    let numbers =
      is_number-eq (get x "sequence") n sequence
      ∙ sym (is_number-eq (get f "sequence") n sequence') in
    let links =
      strict_equal-eq (get x "previousHash") previous link
      ∙ sym (strict_equal-eq (get f "previousHash") previous link') in
    let (payloads, rest) : (payload_of x ≡ payload_of f) × (map payload_of es ≡ map payload_of fs) =
      cons-injective e in
    let hashes : get x "hash" ≡ get f "hash" =
      hash ∙ ap str (expected_hash-ap host x f numbers links payloads) ∙ sym hash' in
    let later =
      check_chain-determined host (suc n) (get x "hash") es fs
        (>>-right (check_link host n previous x) (check_chain host (suc n) (get x "hash") es) h)
        (rw hashes
          (>>-right (check_link host n previous f) (check_chain host (suc n) (get f "hash") fs) k))
        rest in
    rw (numbers, links, hashes, later) refl
