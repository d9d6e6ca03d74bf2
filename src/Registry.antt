-- ===== src/Registry.antt =====
-- src/contract-registry.mjs: named validators with their digests. A validator is a function of the
-- host; it returns false to reject, and it may throw.
use bounded_agent_harness.Prelude.{
  String, ◌≡◌, refl, inl, inr, Bool-cases, Bool, true, false, not, ◌&&◌, Option, none, some, List,
  [], ◌∷◌, ◌++◌, map, if◌then◌else◌, str_eq, eq_iff, Result, ok, err, ◌>>=◌, ◌>>◌, assert, arith,
}
use bounded_agent_harness.Json.{
  Value, undefined, str, obj, field, end, arr, to_items, is_undefined, is_string, text_of,
}
use bounded_agent_harness.Json.Text.{sort_texts}
use bounded_agent_harness.Json.Canonical.{Host, digest_of}

pub record Contract : Type 0 where
  pub validator : Value → Result Bool
  pub digest : String
  pub portability : String

abbrev pub Registry : Type 0
Registry = List (String × Contract)

unfoldable pub lookup_contract : String → Registry → Option Contract
lookup_contract id [] = none
lookup_contract id ((k, c) ∷ registry) = if str_eq k id then some c else lookup_contract id registry

abbrev is_some : Option Contract → Bool
is_some none = false
is_some (some c) = true

unfoldable pub has_contract : String → Registry → Bool
unfolding lookup_contract
has_contract id registry = is_some (lookup_contract id registry)

-- `source` is the text of the validator function, which stands in for a definition left out.
unfoldable pub new_contract : Host → (Value → Result Bool) → (definition source : Value) → Contract
new_contract host validator definition source = record {
  validator = validator;
  digest =
      digest_of host
        (if is_undefined definition then obj (field "runtimeValidator" source end) else definition);
  portability = if is_undefined definition then "runtime-bound" else "portable";
}

unfoldable pub register :
    Host → Value → (Value → Result Bool) → (definition source : Value) → Registry → Result Registry
unfolding has_contract
register host id validator definition source registry = do
  assert (is_string id && not (str_eq (text_of id) "")) "INVALID_CONTRACT"
  assert (not (has_contract (text_of id) registry)) "DUPLICATE_CONTRACT"
  ok (registry ++ (text_of id, new_contract host validator definition source) ∷ [])

abbrev run_contract : Option Contract → Value → Result (Unit {0})
run_contract none v = err "UNKNOWN_CONTRACT"
run_contract (some c) v = do accepted ← c.validator v; assert accepted "CONTRACT_REJECTED"

unfoldable pub validate_contract : Registry → String → Value → Result (Unit {0})
unfolding lookup_contract
validate_contract registry id v = run_contract (lookup_contract id registry) v

unfoldable pub contract_ids : Registry → List String
contract_ids [] = []
contract_ids ((k, c) ∷ registry) = k ∷ contract_ids registry

unfoldable pub list_contracts : Registry → List String
unfolding contract_ids
list_contracts registry = sort_texts (contract_ids registry)

abbrev describe_one : String → Option Contract → Value
describe_one id none = undefined
describe_one id (some c) = obj (
    field "id" (str id)
      (field "digest" (str c.digest) (field "portability" (str c.portability) end)))

unfoldable pub describe : Registry → Value
unfolding list_contracts lookup_contract
describe registry =
    arr (
      to_items
        (map (λ id. describe_one id (lookup_contract id registry)) (list_contracts registry)))

lookup-append :
    (id : String) (registry : Registry) (k : String) (c : Contract)
    → has_contract k registry ≡ false
    → lookup_contract id (registry ++ (k, c) ∷ [])
      ≡ (if str_eq k id then some c else lookup_contract id registry)
unfolding has_contract
lookup-append id [] k c h = ground arith
lookup-append id ((j, d) ∷ registry) k c h =
    ground (arith, lookup-append id registry k c, eq_iff j id, eq_iff k id, eq_iff j k)

module _ (host : Host) (id : Value) (validator : Value → Result Bool) (definition source : Value)
    (registry registry' : Registry)
    (h : register host id validator definition source registry ≡ ok registry') where
  register_parts :
      (has_contract (text_of id) registry ≡ false)
      × (registry' ≡ registry ++ (text_of id, new_contract host validator definition source) ∷ [])
  unfolding register
  register_parts = (ground arith, ground arith)

  -- After a registration the contract is validated by its own validator, false rejected, and every
  -- other contract is validated as before, whether it is registered or not.
  pub validate_contract-register :
      (j : String) (v : Value)
      → validate_contract registry' j v ≡ (
          if str_eq (text_of id) j
          then (validator v >>= λ accepted. assert accepted "CONTRACT_REJECTED")
          else validate_contract registry j v)
  unfolding validate_contract new_contract
  validate_contract-register j v =
      let (fresh, grown) = register_parts in
      let found =
        lookup-append j registry (text_of id) (new_contract host validator definition source)
          fresh in
      rw (grown, found)
        (elim (Bool-cases (str_eq (text_of id) j)) [ inl e ↦ rw e refl | inr e ↦ rw e refl ])
