-- ===== src/Validate/Accepts.antt =====
-- Which arguments pass the check (rust/crates/vocoderd/src/validate.rs).
use text.Mathlib.TextLemmas.{cons-ne-nil}
use dsh_rs.Base.{
  ℕ, ◌≡◌, ◌↔◌, ◌⊎◌, inl, inr, refl, sym, ap, ◌∙◌, String, concat, Option, none, some, List, [], ◌∷◌,
  true, Result, ok, err, All, str_eq, eq_iff, Bool-cases, Option-cases, arith,
}
use dsh_rs.Json.{Value, object, Fields, end, field, lookup, get}
use dsh_rs.Validate.{
  ArgSpec, missing, declared, unexpected, against, satisfies_str, checked, invalid, check_object,
  check_args, check,
}
use dsh_rs.Validate.Schema.{contains_key, entries, satisfies}

abbrev pub IsPresent : Fields → ArgSpec → Type 0
IsPresent obj a = a.required ≡ true → (v : Value) × (lookup a.wire obj ≡ some v)

-- One of the arguments has this name.
abbrev pub Names : List ArgSpec → String → Type 0
Names [] k = ⊥
Names (a ∷ more) k = (a.wire ≡ k) ⊎ Names more k

abbrev pub IsDeclared : List ArgSpec → String × Value → Type 0
IsDeclared args e = Names args e.0

-- A value fits a schema that is empty or no JSON, and one that it satisfies.
abbrev pub Fits : (String → Result String Value) → ℕ → String → Value → Type 0
Fits from_str n schema v =
    (schema ≡ "")
    ⊎ ((message : String) × (from_str schema ≡ err message))
    ⊎ ((parsed : Value) × (from_str schema ≡ ok parsed)
        × (satisfies n (get parsed "$defs") v parsed ≡ some true))

abbrev pub IsChecked : (String → Result String Value) → ℕ → Fields → ArgSpec → Type 0
IsChecked from_str n obj a = (v : Value) → lookup a.wire obj ≡ some v → Fits from_str n a.schema v

declared→Names : (args : List ArgSpec) (k : String) → declared args k ≡ true → Names args k
declared→Names [] k e = ground arith
declared→Names (a ∷ more) k e = elim (Bool-cases (str_eq a.wire k)) [
  | inl same ↦ inl ((eq_iff a.wire k).0 same)
  | inr other ↦ inr (declared→Names more k (ground arith))
]

Names→declared : (args : List ArgSpec) (k : String) → Names args k → declared args k ≡ true
Names→declared [] k m = absurd m
Names→declared (a ∷ more) k (inl same) = ground (arith, (eq_iff a.wire k).1 same)
Names→declared (a ∷ more) k (inr later) = ground (arith, Names→declared more k later)

contains_key-lookup :
    (k : String) (obj : Fields) → contains_key k obj ≡ true → (v : Value) × (lookup k obj ≡ some v)
contains_key-lookup k obj h = elim (Option-cases (lookup k obj)) [
  | inl absent ↦ absurd (ground (arith, absent, h))
  | inr found ↦ found
]

missing→All :
    (obj : Fields) (args : List ArgSpec) → missing obj args ≡ none → All (IsPresent obj) args
unfolding missing
missing→All obj [] e = tt
missing→All obj (a ∷ more) e =
    ((λ r. contains_key-lookup a.wire obj (ground arith)), missing→All obj more (ground arith))

All→missing :
    (obj : Fields) (args : List ArgSpec) → All (IsPresent obj) args → missing obj args ≡ none
unfolding missing
All→missing obj [] h = refl
All→missing obj (a ∷ more) (h, hs) = elim (Bool-cases a.required) [
  | inl r ↦ ground (arith, (h r).1, All→missing obj more hs)
  | inr r ↦ ground (arith, All→missing obj more hs)
]

unexpected→All :
    (args : List ArgSpec) (obj : Fields)
    → unexpected args obj ≡ none
    → All (IsDeclared args) (entries obj)
unfolding unexpected
unexpected→All args end e = tt
unexpected→All args (field k v rest) e =
    (declared→Names args k (ground arith), unexpected→All args rest (ground arith))

All→unexpected :
    (args : List ArgSpec) (obj : Fields)
    → All (IsDeclared args) (entries obj)
    → unexpected args obj ≡ none
unfolding unexpected
All→unexpected args end h = refl
All→unexpected args (field k v rest) (h, hs) =
    ground (arith, Names→declared args k h, All→unexpected args rest hs)

module _ (from_str : String → Result String Value) (n : ℕ) (obj : Fields) where
  against-Fits :
      (v : Value) (schema : String) (r : Result String Value)
      → from_str schema ≡ r
      → against n v r ≡ some true
      → Fits from_str n schema v
  against-Fits v schema (ok parsed) e h = inr (inr (parsed, e, h))
  against-Fits v schema (err message) e h = inr (inl (message, e))

  satisfies_str-Fits :
      (v : Value) (schema : String)
      → satisfies_str from_str n v schema ≡ some true
      → Fits from_str n schema v
  unfolding satisfies_str
  satisfies_str-Fits v String.[] h = inl refl
  satisfies_str-Fits v (String.◌∷◌ c s) h =
      against-Fits v (String.◌∷◌ c s) (from_str (String.◌∷◌ c s)) refl h

  Fits-satisfies_str :
      (v : Value) (schema : String)
      → Fits from_str n schema v
      → satisfies_str from_str n v schema ≡ some true
  unfolding satisfies_str
  Fits-satisfies_str v String.[] h = refl
  Fits-satisfies_str v (String.◌∷◌ c s) (inl e) = absurd (cons-ne-nil c s e)
  Fits-satisfies_str v (String.◌∷◌ c s) (inr (inl (message, e))) = ap (against n v) e
  Fits-satisfies_str v (String.◌∷◌ c s) (inr (inr (parsed, e, h))) = ap (against n v) e ∙ h

  checked-IsChecked :
      (a : ArgSpec)
      → checked from_str n a (lookup a.wire obj) ≡ some true
      → IsChecked from_str n obj a
  checked-IsChecked a h v at =
      satisfies_str-Fits v a.schema (sym (ap (checked from_str n a) at) ∙ h)

  IsChecked-checked :
      (a : ArgSpec)
      → IsChecked from_str n obj a
      → checked from_str n a (lookup a.wire obj) ≡ some true
  IsChecked-checked a h = elim (Option-cases (lookup a.wire obj)) [
    | inl absent ↦ ap (checked from_str n a) absent
    | inr (v, at) ↦ ap (checked from_str n a) at ∙ Fits-satisfies_str v a.schema (h v at)
  ]

  invalid→All :
      (args : List ArgSpec)
      → invalid from_str n obj args ≡ some none
      → All (IsChecked from_str n obj) args
  unfolding invalid
  invalid→All [] e = tt
  invalid→All (a ∷ more) e = (checked-IsChecked a (ground arith), invalid→All more (ground arith))

  All→invalid :
      (args : List ArgSpec)
      → All (IsChecked from_str n obj) args
      → invalid from_str n obj args ≡ some none
  unfolding invalid
  All→invalid [] h = refl
  All→invalid (a ∷ more) (h, hs) = ground (arith, IsChecked-checked a h, All→invalid more hs)

  check_object→All :
      (at : String) (args : List ArgSpec)
      → check_object from_str n at args obj ≡ some none
      → (missing obj args ≡ none)
        × (unexpected args obj ≡ none)
        × (invalid from_str n obj args ≡ some none)
  check_object→All at args e = ground arith

  All→check_object :
      (at : String) (args : List ArgSpec)
      → missing obj args ≡ none
      → unexpected args obj ≡ none
      → invalid from_str n obj args ≡ some none
      → check_object from_str n at args obj ≡ some none
  All→check_object at args m u i = ground arith

-- The arguments of a declared call pass exactly when every required one is there, every key is that
-- of a declared one, and the value of every one that is there passes `satisfies` against its schema; a
-- schema that is empty or no JSON asks for nothing.
pub check_iff :
    (from_str : String → Result String Value) (endpoint : String → String → Option (List ArgSpec))
    (n : ℕ) (namespace method : String) (args : List ArgSpec) (obj : Fields)
    → endpoint namespace method ≡ some args
    → (check from_str endpoint n namespace method (object obj) ≡ some none) ↔ (
        All (IsPresent obj) args
        × All (IsDeclared args) (entries obj)
        × All (IsChecked from_str n obj) args)
unfolding check
check_iff from_str endpoint n namespace method args obj e =
    let at = concat namespace (concat "/" method) in
    let same = ap (λ o. check_args from_str n at o (some obj)) e in
    (
      (λ h.
          let (m, u, i) = check_object→All from_str n obj at args (sym same ∙ h) in
          (missing→All obj args m, unexpected→All args obj u, invalid→All from_str n obj args i)),
      λ (m, u, i).
          same
          ∙ All→check_object from_str n obj at args (All→missing obj args m)
              (All→unexpected args obj u) (All→invalid from_str n obj args i),
    )
