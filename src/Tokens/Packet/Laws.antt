-- ===== src/Tokens/Packet/Laws.antt =====
-- Packets of src/token-efficiency.mjs: what is built verifies as it is.
use bounded_agent_harness.Prelude.{
  ◌≡◌, refl, subst, ◌∙◌, true, false, List, [], ◌∷◌, Result, ok, ◌>>=◌, >>=-eq-ok, >>-left,
  >>-right, for_each, map_each, for_each-each, All, ok-injective, arith, eq_refl, Bool-cases, inl,
  inr, passed,
}
use bounded_agent_harness.Json.{
  Value, undefined, arr, get, elems, is_array, is_object, is_undefined, to_items, items, object_of,
}
use bounded_agent_harness.Json.Text.{sort}
use bounded_agent_harness.Json.Sorting.{All-sort, Total, sort-again}
use bounded_agent_harness.Json.Canonical.{Host, digest_of}
use bounded_agent_harness.Queue.Validate.{strict_equal, or_default}
use bounded_agent_harness.Tokens.{
  check_text, check_digest, check_object, if_given, field_if_given, check_reference,
}
use bounded_agent_harness.Tokens.Packet.{
  id_le, omitted_item, unsigned_packet, sealed_packet, packet_of, build_context_packet,
  verify_context_packet, empty_object, empty_array,
}

for_each_of_All :
    {A : Type 0} (check : A → Result (Unit {0})) (xs : List A)
    → All (λ x. check x ≡ ok tt) xs
    → for_each check xs ≡ ok tt
unfolding for_each
for_each_of_All check [] h = refl
for_each_of_All check (x ∷ xs) (p, h) = rw p (for_each_of_All check xs h)

IsNormal : Value → Type 0
IsNormal v = omitted_item v ≡ ok v

map_each_of_All : (xs : List Value) → All IsNormal xs → map_each omitted_item xs ≡ ok xs
unfolding map_each IsNormal
map_each_of_All [] h = refl
map_each_of_All (x ∷ xs) (p, h) = rw p (rw (map_each_of_All xs h) refl)

undefined_is : is_undefined undefined ≡ true
unfolding is_undefined
undefined_is = refl

item-IsNormal :
    (id reason digest : Value)
    → check_text id ≡ ok tt
    → check_text reason ≡ ok tt
    → if_given check_digest digest ≡ ok tt
    → IsNormal (object_of (("id", id) ∷ ("reason", reason) ∷ field_if_given "digest" digest))
unfolding omitted_item IsNormal check_object is_object get object_of
item-IsNormal id reason digest a b c = elim (Bool-cases (is_undefined digest)) [
  | inl e ↦ rw e (rw (a, b, undefined_is) refl)
  | inr e ↦ rw e (rw (a, b, e, rw e at c) refl)
]

-- A normalized item is normalized to itself.
omitted_item-again : (v w : Value) → omitted_item v ≡ ok w → IsNormal w
unfolding omitted_item
omitted_item-again v w h =
    let made : object_of (
          ("id", get v "id")
          ∷ ("reason", get v "reason")
          ∷ field_if_given "digest" (get v "digest"))
        ≡ w =
      ground arith in
    subst IsNormal made (
      item-IsNormal (get v "id") (get v "reason") (get v "digest") (ground arith) (ground arith)
        (ground arith))

map_each-IsNormal : (vs ws : List Value) → map_each omitted_item vs ≡ ok ws → All IsNormal ws
unfolding map_each
map_each-IsNormal [] [] h = tt
map_each-IsNormal [] (w ∷ ws) h = cc
map_each-IsNormal (v ∷ vs) ws h =
    let (x, e, rest) =
      >>=-eq-ok (omitted_item v) (λ y. map_each omitted_item vs >>= λ ys. ok (y ∷ ys)) h in
    let (xs, f, last) = >>=-eq-ok (map_each omitted_item vs) (λ ys. ok (x ∷ ys)) rest in
    subst (λ ys. All IsNormal ys) (ok-injective last)
      (omitted_item-again v x e, map_each-IsNormal vs xs f)

object_given : (v : Value) → is_object v ≡ true → is_undefined v ≡ false
unfolding is_object is_undefined
object_given v h = ground arith

elems-to_items : (xs : List Value) → elems (arr (to_items xs)) ≡ xs
unfolding elems items to_items
elems-to_items [] = refl
elems-to_items (x ∷ xs) = rw (elems-to_items xs) refl

-- The arguments of a packet are those of `packet_of` that stand in it.
sealed_packet-args :
    (host : Host) (stable delta : Value) (references omitted : List Value)
    → is_object stable ≡ true
    → is_object delta ≡ true
    → build_context_packet host (sealed_packet host stable delta references omitted)
      ≡ packet_of host stable delta (arr (to_items references)) (arr (to_items omitted))
unfolding build_context_packet sealed_packet unsigned_packet get object_of or_default is_undefined
sealed_packet-args host stable delta references omitted h k =
    rw (object_given stable h, object_given delta k) refl

packet_of-sorted :
    (host : Host) (stable delta : Value) (references omitted : List Value)
    → check_object stable ≡ ok tt
    → check_object delta ≡ ok tt
    → All (λ r. check_reference r ≡ ok tt) references
    → All IsNormal omitted
    → Total (id_le host)
    → packet_of host stable delta
        (arr (to_items (sort (id_le host) references)))
        (arr (to_items (sort (id_le host) omitted)))
      ≡ ok (
          sealed_packet host stable delta
            (sort (id_le host) references)
            (sort (id_le host) omitted))
unfolding packet_of is_array
packet_of-sorted host stable delta references omitted a b r o total =
    let le = id_le host in
    rw
      (
        a,
        b,
        elems-to_items (sort le references),
        elems-to_items (sort le omitted),
        for_each_of_All check_reference (sort le references)
            (All-sort (λ x. check_reference x ≡ ok tt) le references r),
        map_each_of_All (sort le omitted) (All-sort IsNormal le omitted o),
        sort-again le total references,
        sort-again le total omitted,
      )
      refl

-- The three digests of a packet are texts.
abbrev HasDigests : Value → Type 0
HasDigests p =
    (strict_equal (get p "stableDigest") (get p "stableDigest") ≡ true)
    × (strict_equal (get p "deltaDigest") (get p "deltaDigest") ≡ true)
    × (strict_equal (get p "digest") (get p "digest") ≡ true)

sealed_packet-HasDigests :
    (host : Host) (stable delta : Value) (references omitted : List Value)
    → HasDigests (sealed_packet host stable delta references omitted)
unfolding sealed_packet unsigned_packet get object_of strict_equal
sealed_packet-HasDigests host stable delta references omitted = (
  eq_refl (digest_of host stable),
  eq_refl (digest_of host delta),
  eq_refl (digest_of host (object_of (unsigned_packet stable delta references omitted))),
)

packet_of-rebuild :
    (host : Host) (stable delta references omitted packet : Value)
    → Total (id_le host)
    → packet_of host stable delta references omitted ≡ ok packet
    → (build_context_packet host packet ≡ ok packet) × HasDigests packet
unfolding packet_of check_object
packet_of-rebuild host stable delta references omitted packet total h =
    let (a, h1) = passed (is_object stable) "INVALID_TOKEN_EFFICIENCY" _ h in
    let (b, h2) = passed (is_object delta) "INVALID_TOKEN_EFFICIENCY" _ h1 in
    let (_, h3) = passed (is_array references) "INVALID_CONTEXT_PACKET" _ h2 in
    let (_, h4) = passed (is_array omitted) "INVALID_CONTEXT_PACKET" _ h3 in
    let checked = >>-left (for_each check_reference (elems references)) _ h4 in
    let h5 = >>-right (for_each check_reference (elems references)) _ h4 in
    let (xs, normal, made) = >>=-eq-ok (map_each omitted_item (elems omitted)) _ h5 in
    let le = id_le host in
    let refs = elems references in
    let again =
      sealed_packet-args host stable delta (sort le refs) (sort le xs) a b
      ∙ packet_of-sorted host stable delta refs xs (rw a refl) (rw b refl)
          (for_each-each check_reference refs checked) (map_each-IsNormal (elems omitted) xs normal)
          total in
    subst (λ p. (build_context_packet host p ≡ ok p) × HasDigests p) (ok-injective made)
      (again, sealed_packet-HasDigests host stable delta (sort le refs) (sort le xs))

-- A packet that is built verifies, and is rebuilt as it is, where the order of `localeCompare` is total.
pub verify_context_packet-build :
    (host : Host) (args packet : Value)
    → Total (id_le host)
    → build_context_packet host args ≡ ok packet
    → verify_context_packet host packet ≡ ok packet
unfolding verify_context_packet build_context_packet
verify_context_packet-build host args packet total h =
    let (rebuilt, (a, b, c)) =
      packet_of-rebuild host (or_default (get args "stable") empty_object)
        (or_default (get args "delta") empty_object)
        (or_default (get args "references") empty_array)
        (or_default (get args "omitted") empty_array) packet total h in
    rw (rebuilt, a, b, c) refl
