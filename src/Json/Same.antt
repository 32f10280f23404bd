-- ===== src/Json/Same.antt =====
-- `==` on `serde_json::Value`: objects are maps, so the order of their fields does not count.
use dsh_rs.Base.{none, some, Bool, true, false, not, ◌&&◌, ◌||◌, str_eq, ◌==◌, ◌%◌, ◌^◌}
use dsh_rs.Json.{
  Number, unsigned, negative, float, Value, null, bool, number, string, array, object, Items, nil,
  cons, Fields, end, field, lookup,
}

abbrev bool_eq : Bool → Bool → Bool
bool_eq true b = b
bool_eq false b = not b

-- A float is equal to another with its bits, and the two zeros are equal; no value is a NaN.
abbrev number_eq : Number → Number → Bool
number_eq (unsigned m) (unsigned n) = m == n
number_eq (negative m) (negative n) = m == n
number_eq (float m) (float n) = m == n || (m % 2 ^ 63 == 0 && n % 2 ^ 63 == 0)
number_eq _ _ = false

-- Every key of the second object is a key of the first.
abbrev pub covers : Fields → Fields → Bool
covers fields end = true
covers fields (field k v rest) =
    elim (lookup k fields) [ none ↦ false | some _ ↦ true ] && covers fields rest

unfoldable mutual
  pub same : Value → Value → Bool
  same null w = elim w [ null ↦ true | _ ↦ false ]
  same (bool a) w = elim w [ bool b ↦ bool_eq a b | _ ↦ false ]
  same (number m) w = elim w [ number n ↦ number_eq m n | _ ↦ false ]
  same (string s) w = elim w [ string t ↦ str_eq s t | _ ↦ false ]
  same (array vs) w = elim w [ array ws ↦ same_items vs ws | _ ↦ false ]
  same (object fs) w = elim w [ object gs ↦ same_fields fs gs && covers fs gs | _ ↦ false ]

  pub same_items : Items → Items → Bool
  same_items nil ws = elim ws [ nil ↦ true | cons _ _ ↦ false ]
  same_items (cons v vs) ws = elim ws [ nil ↦ false | cons w rest ↦ same v w && same_items vs rest ]

  -- Every field of the first object is in the second, with an equal value.
  pub same_fields : Fields → Fields → Bool
  same_fields end gs = true
  same_fields (field k v rest) gs =
      elim (lookup k gs) [ none ↦ false | some w ↦ same v w ] && same_fields rest gs
