-- ===== src/Json.antt =====
-- `serde_json::Value`, as far as the modelled code reads and builds it.
pub mod Same
use dsh_rs.Base.{
  and_then, ℕ, String, Option, none, some, List, [], ◌∷◌, Bool, str_eq, if◌then◌else◌, ltb, i64_mod,
  ℤ, pos, negsuc,
}

-- A number is held as `serde_json::Number` holds it: a `u64`, a negative `i64` (`negative n` is
-- -(n + 1)) or the 64 bits of a float.
pub data Number : Type 0 where
  unsigned : ℕ → Number
  negative : ℕ → Number
  float : ℕ → Number

-- An object is looked up by key only, and the first field of a key counts.
mutual
  pub data Value : Type 0 where
    null : Value
    bool : Bool → Value
    number : Number → Value
    string : String → Value
    array : Items → Value
    object : Fields → Value

  pub data Items : Type 0 where
    nil : Items
    cons : Value → Items → Items

  pub data Fields : Type 0 where
    end : Fields
    field : String → Value → Fields → Fields

abbrev pub to_items : List Value → Items
to_items [] = nil
to_items (v ∷ vs) = cons v (to_items vs)

abbrev pub from_items : Items → List Value
from_items nil = []
from_items (cons v vs) = v ∷ from_items vs

abbrev pub fields : List (String × Value) → Fields
fields [] = end
fields ((k, v) ∷ rest) = field k v (fields rest)

-- `json!({ key: value, … })`
abbrev pub json : List (String × Value) → Value
json kvs = object (fields kvs)

abbrev pub u64 : ℕ → Value
u64 n = number (unsigned n)

abbrev pub lookup : String → Fields → Option Value
lookup k end = none
lookup k (field j v rest) = if str_eq j k then some v else lookup k rest

-- `value.get(key)`
abbrev pub get : Value → String → Option Value
get (object fs) k = lookup k fs
get _ k = none

abbrev pub as_str : Value → Option String
as_str (string s) = some s
as_str _ = none

abbrev pub as_array : Value → Option (List Value)
as_array (array vs) = some (from_items vs)
as_array _ = none

abbrev pub as_u64 : Value → Option ℕ
as_u64 (number (unsigned n)) = some n
as_u64 _ = none

-- An unsigned number is an `i64` below 2^63.
abbrev pub as_i64 : Value → Option ℤ
as_i64 (number (unsigned n)) = if ltb n i64_mod then some (pos n) else none
as_i64 (number (negative n)) = some (negsuc n)
as_i64 _ = none

-- `value.get(key).and_then(read)`
abbrev pub get_as {ℓ} : {A : Type ℓ} → (Value → Option A) → Value → String → Option A
get_as read v k = and_then (get v k) read

abbrev pub unwrap_or {ℓ} : {A : Type ℓ} → Option A → A → A
unwrap_or none a = a
unwrap_or (some x) a = x
