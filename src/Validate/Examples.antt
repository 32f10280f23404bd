-- ===== src/Validate/Examples.antt =====
-- A call with one required text checked (rust/crates/vocoderd/src/validate.rs).
use dsh_rs.Base.{◌≡◌, ◌↔◌, refl, String, Option, none, some, List, [], ◌∷◌, true, Result, ok, All}
use dsh_rs.Json.{Value, string, number, unsigned, json, fields, Fields, object}
use dsh_rs.Validate.{ArgSpec, check, missing, unexpected, invalid, satisfies_str}
use dsh_rs.Validate.Schema.{satisfies, matches_type, entries}
use dsh_rs.Validate.Accepts.{IsPresent, IsDeclared, IsChecked, check_iff}

abbrev text_schema : Value
text_schema = json (("type", string "string") ∷ [])

-- A parser that reads every schema as that of a text.
abbrev from_str : String → Result String Value
from_str s = ok text_schema

abbrev agent_arg : ArgSpec
agent_arg = record { wire = "agentId"; required = true; schema = "{\"type\":\"string\"}" }

abbrev endpoint : String → String → Option (List ArgSpec)
endpoint namespace method = some (agent_arg ∷ [])

abbrev good : Fields
good = fields (("agentId", string "a-1") ∷ [])

check_iff_example : (check from_str endpoint 3 "goals" "get" (object good) ≡ some none) ↔ (
    All (IsPresent good) (agent_arg ∷ [])
    × All (IsDeclared (agent_arg ∷ [])) (entries good)
    × All (IsChecked from_str 3 good) (agent_arg ∷ []))
check_iff_example = check_iff from_str endpoint 3 "goals" "get" (agent_arg ∷ []) good refl

refused :
    check from_str endpoint 3 "goals" "get" (json (("agentId", number (unsigned 1)) ∷ []))
    ≡ some (
        some (record {
          code = "gateway/input-invalid";
          endpoint = "goals/get";
          field = "agentId";
          kind = none;
        }))
unfolding check missing unexpected invalid satisfies_str satisfies matches_type
refused = refl
