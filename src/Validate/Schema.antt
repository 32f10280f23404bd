-- ===== src/Validate/Schema.antt =====
-- Whether a value satisfies a schema (rust/crates/vocoderd/src/validate.rs).
use dsh_rs.Base.{
  ℕ, zero, suc, String, Option, none, some, List, [], ◌∷◌, Bool, true, false, ◌||◌, and_then,
  str_eq, if◌then◌else◌,
}
use dsh_rs.Json.{
  Value, null, bool, number, string, array, object, Fields, end, field, lookup, as_str, as_array,
}
use dsh_rs.Json.Same.{same}
use dsh_rs.Tool.Edit.{strip}

abbrev pub as_object : Value → Option Fields
as_object (object fs) = some fs
as_object _ = none

abbrev pub contains_key : String → Fields → Bool
contains_key k fs = elim (lookup k fs) [ none ↦ false | some _ ↦ true ]

abbrev pub entries : Fields → List (String × Value)
entries end = []
entries (field k v rest) = (k, v) ∷ entries rest

-- The answers of checks, one after the other until one fails.
abbrev pub then_check : Option Bool → Option Bool → Option Bool
then_check none o = none
then_check (some false) o = some false
then_check (some true) o = o

abbrev pub all : {A : Type 0} → (A → Option Bool) → List A → Option Bool
all f [] = some true
all f (x ∷ xs) = then_check (f x) (all f xs)

-- And until one holds.
abbrev pub or_check : Option Bool → Option Bool → Option Bool
or_check none o = none
or_check (some true) o = some true
or_check (some false) o = o

abbrev pub any : {A : Type 0} → (A → Option Bool) → List A → Option Bool
any f [] = some false
any f (x ∷ xs) = or_check (f x) (any f xs)

abbrev is_string : Value → Bool
is_string (string _) = true
is_string _ = false

abbrev is_number : Value → Bool
is_number (number _) = true
is_number _ = false

abbrev is_boolean : Value → Bool
is_boolean (bool _) = true
is_boolean _ = false

abbrev is_array : Value → Bool
is_array (array _) = true
is_array _ = false

abbrev pub is_object : Value → Bool
is_object (object _) = true
is_object _ = false

abbrev is_null : Value → Bool
is_null null = true
is_null _ = false

unfoldable pub matches_type : Value → String → Bool
matches_type value t =
    if str_eq t "string"
    then is_string value
    else if str_eq t "number" || str_eq t "integer"
    then is_number value
    else if str_eq t "boolean"
    then is_boolean value
    else if str_eq t "array"
    then is_array value
    else if str_eq t "object"
    then is_object value
    else if str_eq t "null"
    then is_null value
    else true

abbrev pub resolve_ref : String → Option Value → Option Value
resolve_ref r defs =
    and_then (strip "#/$defs/" r) (λ name. and_then (and_then defs as_object) (lookup name))

abbrev pub get_array : Fields → String → Option (List Value)
get_array fs k = and_then (lookup k fs) as_array

-- One constraint each, `f` being the check of a value against a schema.
abbrev pub all_of : (Value → Value → Option Bool) → Value → Option (List Value) → Option Bool
all_of f value none = some true
all_of f value (some members) = all (f value) members

abbrev pub any_of : (Value → Value → Option Bool) → Value → Option (List Value) → Option Bool
any_of f value none = some true
any_of f value (some members) = any (f value) members

abbrev pub of_type : Value → Option String → Option Bool
of_type value none = some true
of_type value (some t) = some (matches_type value t)

abbrev pub is_const : Value → Option Value → Option Bool
is_const value none = some true
is_const value (some c) = some (same value c)

abbrev pub among : Value → List Value → Bool
among value [] = false
among value (a ∷ rest) = same a value || among value rest

abbrev pub is_listed : Value → Option (List Value) → Option Bool
is_listed value none = some true
is_listed value (some allowed) = some (among value allowed)

abbrev pub is_there : Fields → Value → Option Bool
is_there vobj (string name) = some (contains_key name vobj)
is_there vobj _ = some true

abbrev pub has_required : Fields → Option (List Value) → Option Bool
has_required vobj none = some true
has_required vobj (some names) = all (is_there vobj) names

abbrev pub member : (Value → Value → Option Bool) → Fields → String × Value → Option Bool
member f vobj (name, sub) = elim (lookup name vobj) [ none ↦ some true | some m ↦ f m sub ]

abbrev pub has_members :
    (Value → Value → Option Bool) → Fields → Option Fields → Option Fields → Option Bool
has_members f obj none vobj = some true
has_members f obj (some props) none = some true
has_members f obj (some props) (some vobj) =
    then_check (has_required vobj (get_array obj "required")) (all (member f vobj) (entries props))

abbrev pub has_items :
    (Value → Value → Option Bool) → Option Value → Option (List Value) → Option Bool
has_items f none els = some true
has_items f (some items) none = some true
has_items f (some items) (some els) = all (λ el. f el items) els

abbrev pub constraints : (Value → Value → Option Bool) → Value → Fields → Option Bool
constraints f value obj = then_check (all_of f value (get_array obj "allOf")) (
    then_check (any_of f value (get_array obj "anyOf")) (
      then_check (any_of f value (get_array obj "oneOf")) (
        then_check (of_type value (and_then (lookup "type" obj) as_str)) (
          then_check (is_const value (lookup "const" obj)) (
            then_check (is_listed value (get_array obj "enum")) (
              then_check
                (has_members f obj (and_then (lookup "properties" obj) as_object) (as_object value))
                (has_items f (lookup "items" obj) (as_array value))))))))

abbrev pub referred :
    (Value → Value → Option Bool) → Option Value → Value → Fields → Option String → Option Bool
referred f defs value obj none = constraints f value obj
referred f defs value obj (some r) = elim (resolve_ref r defs) [
  | none ↦ some true
  | some target ↦ f value target
]

unfoldable pub satisfies : ℕ → Option Value → Value → Value → Option Bool
satisfies zero defs value schema = none
satisfies (suc n) defs value schema = elim (as_object schema) [
  | none ↦ some true
  | some obj ↦ referred (satisfies n defs) defs value obj (and_then (lookup "$ref" obj) as_str)
]
