-- ===== src/Tokens/Pruning/Weight.antt =====
-- The tokens of the records with given ids, for the pruning of src/token-efficiency.mjs.
use bounded_agent_harness.Prelude.{
  ℕ, ◌+◌, ◌≤◌, ◌≡◌, ◌∙◌, false≢true, refl, sym, String, true, false, List, [], ◌∷◌, map, leb,
  leb→le, select, includes, if◌then◌else◌, All, All_map2, arith, Bool-cases, inl, inr, str_eq,
  eq_iff, eq_refl,
}
use bounded_agent_harness.Tokens.Pruning.{ContextRecord, total_tokens, choose, id_of, is_selected}

-- The tokens of the records whose ids are listed.
pub weight : List String → List ContextRecord → ℕ
weight ids [] = 0
weight ids (r ∷ rs) = (if includes r.id ids then r.token_count else 0) + weight ids rs

pub weight-selected :
    (ids : List String) (records : List ContextRecord)
    → total_tokens (select (is_selected ids) records) ≡ weight ids records
unfolding weight total_tokens
weight-selected ids [] = refl
weight-selected ids (r ∷ rs) = elim (Bool-cases (includes r.id ids)) [
  | inl e ↦ rw (e, weight-selected ids rs) refl
  | inr e ↦ rw (e, weight-selected ids rs) (omega arith)
]

-- A record with an id more weighs at most what the records of that id do.
pub weight-cons :
    (id : String) (ids : List String) (records : List ContextRecord)
    → weight (id ∷ ids) records ≤ weight (id ∷ []) records + weight ids records
unfolding weight
weight-cons id ids [] = omega arith
weight-cons id ids (r ∷ rs) = let rest = weight-cons id ids rs in ground arith

pub weight-nil : (records : List ContextRecord) → weight [] records ≡ 0
unfolding weight
weight-nil [] = refl
weight-nil (r ∷ rs) = omega (arith, weight-nil rs)

pub different : (a b : String) → str_eq b a ≡ false → str_eq a b ≡ false
different a b h = elim (Bool-cases (str_eq a b)) [
  | inr e ↦ e
  | inl e ↦ let same = (eq_iff a b).0 e in absurd (false≢true (sym h ∙ rw (sym same) (eq_refl a)))
]

-- No record has the id of one before it, or one of those seen.
abbrev pub Apart : List String → List ContextRecord → Type 0
Apart seen [] = Unit
Apart seen (r ∷ rs) = (includes r.id seen ≡ false) × Apart (r.id ∷ seen) rs

pub weight-seen :
    (id : String) (seen : List String) (rs : List ContextRecord)
    → includes id seen ≡ true
    → Apart seen rs
    → All (λ r. str_eq id r.id ≡ false) rs × (weight (id ∷ []) rs ≡ 0)
unfolding weight
weight-seen id seen [] h k = (tt, refl)
weight-seen id seen (r ∷ rs) h (k, l) = elim (Bool-cases (str_eq r.id id)) [
  | inl e ↦ absurd (false≢true (sym k ∙ rw ((eq_iff r.id id).0 e) h))
  | inr e ↦
      let listed : includes id (r.id ∷ seen) ≡ true = ground arith in
      let (apart, none_left) = weight-seen id (r.id ∷ seen) rs listed l in
      ((different id r.id e, apart), rw e (omega (arith, none_left)))
]

-- No other record has the id.
abbrev pub IsAlone : List ContextRecord → ContextRecord → Type 0
IsAlone records r = weight (r.id ∷ []) records ≤ r.token_count

pub weight-required :
    (records rs : List ContextRecord)
    → All (IsAlone records) rs
    → weight (map id_of rs) records ≤ total_tokens rs
unfolding total_tokens
weight-required records [] h = rw (weight-nil records) (omega arith)
weight-required records (r ∷ rs) (p, h) =
    let rest = weight-required records rs h in
    let more = weight-cons r.id (map id_of rs) records in omega arith

pub choose-within :
    (max used : ℕ) (ids : List String) (records rs : List ContextRecord)
    → All (IsAlone records) rs
    → weight ids records ≤ used
    → used ≤ max
    → (weight (choose max used ids rs).0 records ≤ (choose max used ids rs).1)
      × ((choose max used ids rs).1 ≤ max)
unfolding choose
choose-within max used ids records [] h k m = (k, m)
choose-within max used ids records (r ∷ rs) (p, h) k m =
    elim (Bool-cases (leb (used + r.token_count) max)) [
      | inr e ↦ rw (e, choose) (choose-within max used ids records rs h k m)
      | inl e ↦
          let more = weight-cons r.id ids records in
          rw (e, choose)
            (choose-within max (used + r.token_count) (r.id ∷ ids) records rs h (omega arith)
              (leb→le (used + r.token_count) max e))
    ]

pub Apart-IsAlone :
    (seen : List String) (rs : List ContextRecord) → Apart seen rs → All (IsAlone rs) rs
unfolding weight
Apart-IsAlone seen [] h = tt
Apart-IsAlone seen (r ∷ rs) (h, k) =
    let listed : includes r.id (r.id ∷ seen) ≡ true = rw (eq_refl r.id) refl in
    let (apart, none_left) = weight-seen r.id (r.id ∷ seen) rs listed k in
    (
      rw (eq_refl r.id) (omega (arith, none_left)),
      All_map2 rs (λ x p q. rw q (omega (arith, p))) (Apart-IsAlone (r.id ∷ seen) rs k) apart,
    )
