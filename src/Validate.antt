-- ===== src/Validate.antt =====
-- The check of a call's arguments against its descriptor (rust/crates/vocoderd/src/validate.rs).
-- `endpoint` is the generated table of descriptors and `from_str` serde_json's parser. A level of a
-- schema takes one of fuel, as a `$ref` may lead back to its own schema: `none` is no answer.
pub mod Schema
pub mod Accepts
pub mod Depth
pub mod Ends
mod Examples
use dsh_rs.Base.{
  ℕ, suc, String, concat, Option, none, some, List, [], ◌∷◌, Bool, true, false, ◌||◌, ◌&&◌, not,
  Result, ok, err, str_eq, ◌==◌, if◌then◌else◌,
}
use dsh_rs.Base.Text.{is_nil}
use dsh_rs.Json.{Value, string, object, Fields, end, field, json, lookup, get}
use dsh_rs.Validate.Schema.{as_object, contains_key, is_object, satisfies}

abbrev count : Fields → ℕ
count end = 0
count (field k v rest) = suc (count rest)

abbrev pub payload_shape_ok : Value → Bool
payload_shape_ok (object fs) =
    (count fs == 1) && elim (lookup "args" fs) [ none ↦ false | some v ↦ is_object v ]
payload_shape_ok _ = false

pub record Rejection : Type 0 where
  pub code : String
  pub endpoint : String
  pub field : String
  pub kind : Option String

pub record ArgSpec : Type 0 where
  pub wire : String
  pub required : Bool
  pub schema : String

unfoldable pub missing : Fields → List ArgSpec → Option String
missing obj [] = none
missing obj (a ∷ more) =
    let rest = missing obj more in
    if a.required && not (contains_key a.wire obj) then some a.wire else rest

abbrev pub declared : List ArgSpec → String → Bool
declared [] k = false
declared (a ∷ more) k = str_eq a.wire k || declared more k

unfoldable pub unexpected : List ArgSpec → Fields → Option String
unexpected args end = none
unexpected args (field k v rest) =
    let later = unexpected args rest in if declared args k then later else some k

abbrev pub against : ℕ → Value → Result String Value → Option Bool
against n value (err _) = some true
against n value (ok parsed) = satisfies n (get parsed "$defs") value parsed

unfoldable pub satisfies_str : (String → Result String Value) → ℕ → Value → String → Option Bool
satisfies_str from_str n value schema =
    if is_nil schema then some true else against n value (from_str schema)

abbrev pub failed : String → Option Bool → Option (Option String) → Option (Option String)
failed wire none rest = none
failed wire (some false) rest = some (some wire)
failed wire (some true) rest = rest

abbrev pub checked : (String → Result String Value) → ℕ → ArgSpec → Option Value → Option Bool
checked from_str n a none = some true
checked from_str n a (some value) = satisfies_str from_str n value a.schema

-- The first argument whose value fails its schema.
unfoldable pub invalid :
    (String → Result String Value) → ℕ → Fields → List ArgSpec → Option (Option String)
invalid from_str n obj [] = some none
invalid from_str n obj (a ∷ more) =
    failed a.wire (checked from_str n a (lookup a.wire obj)) (invalid from_str n obj more)

abbrev rejection : String → String → String → Option String → Rejection
rejection code at name kind = record { code = code; endpoint = at; field = name; kind = kind }

abbrev pub by_value : String → Option (Option String) → Option (Option Rejection)
by_value at none = none
by_value at (some none) = some none
by_value at (some (some wire)) = some (some (rejection "gateway/input-invalid" at wire none))

abbrev pub misfit : String → String → String → Option (Option Rejection)
misfit at kind name = some (some (rejection "gateway/arguments-invalid" at name (some kind)))

abbrev pub check_object :
    (String → Result String Value) → ℕ → String → List ArgSpec → Fields → Option (Option Rejection)
check_object from_str n at args obj = elim (missing obj args) [
  | some wire ↦ misfit at "missing" wire
  | none ↦ elim (unexpected args obj) [
    | some extra ↦ misfit at "unexpected" extra
    | none ↦ by_value at (invalid from_str n obj args)
  ]
]

abbrev pub check_args :
    (String → Result String Value)
    → ℕ
    → String
    → Option (List ArgSpec)
    → Option Fields
    → Option (Option Rejection)
check_args from_str n at none obj = some none
check_args from_str n at (some args) none = some none
check_args from_str n at (some args) (some obj) = check_object from_str n at args obj

unfoldable pub check :
    (String → Result String Value)
    → (String → String → Option (List ArgSpec))
    → ℕ
    → String
    → String
    → Value
    → Option (Option Rejection)
check from_str endpoint n namespace method args =
    check_args from_str n (concat namespace (concat "/" method)) (endpoint namespace method)
      (as_object args)

abbrev pub message_for : Rejection → String
message_for r = concat (concat "typert gateway: " r.endpoint) (elim r.kind [
  | some kind ↦
      concat (concat ": args fields do not match the descriptor: " kind)
        (concat " \"" (concat r.field "\""))
  | none ↦ concat (concat ": wire field \"" r.field) "\" failed boundary validation"
])

abbrev pub details_for : Rejection → Value
details_for r = elim r.kind [
  | some _ ↦ json (("endpoint", string r.endpoint) ∷ [])
  | none ↦ json (("endpoint", string r.endpoint) ∷ ("field", string r.field) ∷ [])
]
