-- ===== src/Workflow/Compile/Keys.antt =====
-- The fields of an object by their keys, as the sealed artifact of src/workflow-compiler.mjs reads them.
use bounded_agent_harness.Prelude.{
  String, ◌≡◌, refl, ap, inl, inr, true, false, List, [], ◌∷◌, ◌++◌, includes, All, ok, assert,
  arith, Bool-cases, str_eq, eq_iff, eq_refl, >>-right, for_each-All,
}
use bounded_agent_harness.Json.{
  Value, obj, str, Fields, end, field, is_object, fields_of, object_of, entries, to_fields,
  without_keys, lookup_field, keys, field_names, closed_object,
}

pub fields_of-object_of : (fs : List (String × Value)) → fields_of (object_of fs) ≡ fs
unfolding fields_of object_of entries to_fields
fields_of-object_of [] = refl
fields_of-object_of ((k, v) ∷ fs) = ap (λ r. (k, v) ∷ r) (fields_of-object_of fs)

pub to_fields-entries : (fs : Fields) → to_fields (entries fs) ≡ fs
unfolding entries to_fields
to_fields-entries end = refl
to_fields-entries (field k v fs) = ap (field k v) (to_fields-entries fs)

pub object_of-fields_of : (v : Value) → is_object v ≡ true → object_of (fields_of v) ≡ v
unfolding fields_of object_of is_object
object_of-fields_of (obj fs) h = ap obj (to_fields-entries fs)
object_of-fields_of _ h = cc

-- None of the listed fields has the key.
abbrev pub Lacks : String → List (String × Value) → Type 0
Lacks key fs = All (λ f. str_eq f.0 key ≡ false) fs

pub without_keys-append :
    (names : List String) (fs gs : List (String × Value))
    → without_keys names (fs ++ gs) ≡ without_keys names fs ++ without_keys names gs
unfolding without_keys
without_keys-append names [] gs = refl
without_keys-append names ((k, v) ∷ fs) gs = ground (arith, without_keys-append names fs gs)

pub without_keys_none :
    (key : String) (fs : List (String × Value)) → Lacks key fs → without_keys (key ∷ []) fs ≡ fs
unfolding without_keys
without_keys_none key [] h = refl
without_keys_none key ((k, v) ∷ fs) (p, h) = rw (p, without_keys_none key fs h) refl

pub lookup_last :
    (key : String) (v : Value) (fs : List (String × Value))
    → Lacks key fs
    → lookup_field key (to_fields (fs ++ (key, v) ∷ [])) ≡ v
unfolding lookup_field to_fields
lookup_last key v [] h = rw eq_refl refl
lookup_last key v ((k, w) ∷ fs) (p, h) = rw p (lookup_last key v fs h)

pub differs :
    (key k : String) (allowed : List String)
    → includes key allowed ≡ false
    → includes k allowed ≡ true
    → str_eq k key ≡ false
differs key k allowed absent p = elim (Bool-cases (str_eq k key)) [
  | inl e ↦ let same : k ≡ key = (eq_iff k key).0 e in absurd (ground arith)
  | inr e ↦ e
]

pub names_lack_fields :
    (key : String) (allowed : List String) (fs : Fields)
    → includes key allowed ≡ false
    → All (λ k. includes k allowed ≡ true) (field_names fs)
    → Lacks key (entries fs)
unfolding entries field_names
names_lack_fields key allowed end absent h = tt
names_lack_fields key allowed (field k v fs) absent (p, h) =
    (differs key k allowed absent p, names_lack_fields key allowed fs absent h)

pub names_lack :
    (key : String) (allowed : List String) (v : Value)
    → includes key allowed ≡ false
    → All (λ k. includes k allowed ≡ true) (keys v)
    → Lacks key (fields_of v)
unfolding fields_of keys
names_lack key allowed (obj fs) absent h = names_lack_fields key allowed fs absent h
names_lack key allowed _ absent h = tt

-- A closed object has none of the keys that are not allowed.
pub closed-Lacks :
    (key : String) (allowed : List String) (v : Value)
    → includes key allowed ≡ false
    → closed_object v allowed ≡ ok tt
    → (is_object v ≡ true) × Lacks key (fields_of v)
unfolding closed_object
closed-Lacks key allowed v absent h = (
  ground arith,
  names_lack key allowed v absent (
      for_each-All (λ k. includes k allowed) "UNKNOWN_FIELD" (keys v)
        (>>-right (assert (is_object v) "INVALID_TYPE") _ h)),
)

pub without_keys_all :
    (names : List String) (fs : List (String × Value))
    → All (λ f. includes f.0 names ≡ false) fs
    → without_keys names fs ≡ fs
unfolding without_keys
without_keys_all names [] h = refl
without_keys_all names ((k, v) ∷ fs) (p, h) = rw (p, without_keys_all names fs h) refl

abbrev pub bundle_of : Value → String → Value
bundle_of v d = object_of (fields_of v ++ ("digest", str d) ∷ [])
