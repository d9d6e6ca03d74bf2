-- ===== src/Prelude/Maps.antt =====
-- The `Map` of JavaScript with texts for keys, in the order in which its keys were first set.
use Prim.Native.String.{String}
use mathlib.Core.Path.{◌≡◌, refl}
use mathlib.Core.Logic.{inl, inr}
use mathlib.Core.Bool.{false}
use mathlib.Core.Option.{Option, none, some}
use mathlib.Core.List.{List, [], ◌∷◌}
use text.Mathlib.Text.{◌==◌ as str_eq}
use text.Mathlib.TextEquality.{eq_iff}
use text.Mathlib.TextPositions.{eq_refl}
use bounded_agent_harness.Prelude.Tests.{if◌then◌else◌, Bool-cases}

module _ {ℓ} {A : Type ℓ} where
  -- `entries.get(key)`.
  unfoldable pub find_entry : String → List (String × A) → Option A
  find_entry key [] = none
  find_entry key ((k, a) ∷ rest) = if str_eq k key then some a else find_entry key rest

  -- `entries.set(key, value)`.
  unfoldable pub set_entry : String → A → List (String × A) → List (String × A)
  set_entry key a [] = (key, a) ∷ []
  set_entry key a ((k, b) ∷ rest) =
      let later = set_entry key a rest in if str_eq k key then (k, a) ∷ rest else (k, b) ∷ later

  -- `[...entries.values()]`.
  abbrev pub values : List (String × A) → List A
  values [] = []
  values ((k, a) ∷ rest) = a ∷ values rest

  pub find_entry-set_same :
      (key : String) (a : A) (rest : List (String × A))
      → find_entry key (set_entry key a rest) ≡ some a
  unfolding find_entry set_entry
  find_entry-set_same key a [] = rw (eq_refl key) refl
  find_entry-set_same key a ((k, b) ∷ rest) = elim (Bool-cases (str_eq k key)) [
    | inl e ↦ rw (e, e) refl
    | inr e ↦ rw (e, e, set_entry) (find_entry-set_same key a rest)
  ]

  pub find_entry-set_other :
      (key other : String) (a : A) (rest : List (String × A))
      → str_eq key other ≡ false
      → find_entry other (set_entry key a rest) ≡ find_entry other rest
  unfolding find_entry set_entry
  find_entry-set_other key other a [] h = rw h refl
  find_entry-set_other key other a ((k, b) ∷ rest) h = elim (Bool-cases (str_eq k key)) [
    | inl e ↦ let apart : str_eq k other ≡ false = rw ((eq_iff k key).0 e) h in rw (e, apart) refl
    | inr e ↦ rw e (elim (Bool-cases (str_eq k other)) [
      | inl f ↦ rw (f, find_entry, set_entry) refl
      | inr f ↦ rw (f, find_entry, set_entry) (find_entry-set_other key other a rest h)
    ])
  ]
