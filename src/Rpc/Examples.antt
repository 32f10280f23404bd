-- ===== src/Rpc/Examples.antt =====
-- Sections of settings, mutated and merged (rust/crates/vocoderd/src/rpc.rs).
use dsh_rs.Base.{◌≡◌, inl, inr, refl, String, some, List, [], ◌∷◌, false, ok, arith, eq_iff}
use dsh_rs.Json.{Value, null, bool, string, u64, Fields, fields, json}
use dsh_rs.Rpc.{insert, set_fields, set_path}
use dsh_rs.Rpc.Paths.{get_path, Apart, set_path_lem}

abbrev section : Value
section = json (
    ("theme", string "dark")
    ∷ ("model", json (("name", string "small") ∷ ("limit", u64 3) ∷ []))
    ∷ [])

abbrev to_name : List String
to_name = "model" ∷ "name" ∷ []

abbrev to_limit : List String
to_limit = "model" ∷ "limit" ∷ []

abbrev renamed : Value
renamed = json (
    ("theme", string "dark")
    ∷ ("model", json (("name", string "large") ∷ ("limit", u64 3) ∷ []))
    ∷ [])

set-renamed : set_path section to_name (string "large") ≡ ok renamed
unfolding set_path set_fields insert
set-renamed = refl

name_limit-Apart : Apart to_name to_limit
name_limit-Apart = inr (refl, inl (ground (arith, eq_iff "name" "limit")))

set_path_lem_example :
    (get_path renamed to_name ≡ some (string "large"))
    × ((other : List String)
        → Apart to_name other
        → get_path renamed other ≡ get_path section other)
set_path_lem_example = set_path_lem section renamed to_name (string "large") set-renamed

limit_kept : get_path renamed to_limit ≡ get_path section to_limit
limit_kept =
    (set_path_lem section renamed to_name (string "large") set-renamed).1 to_limit name_limit-Apart

-- A value on the way that is no object makes room.
set-through_text :
    set_path section ("theme" ∷ "name" ∷ []) null
    ≡ ok (
        json (
          ("theme", json (("name", null) ∷ []))
          ∷ ("model", json (("name", string "small") ∷ ("limit", u64 3) ∷ []))
          ∷ []))
unfolding set_path set_fields insert
set-through_text = refl

abbrev patch : Fields
patch = fields (("model", json (("limit", u64 5) ∷ [])) ∷ ("sound", bool false) ∷ [])

abbrev before : Fields
before = fields (
    ("theme", string "dark")
    ∷ ("model", json (("name", string "small") ∷ ("limit", u64 3) ∷ []))
    ∷ [])
