-- ===== src/Settings/Redact.antt =====
-- What a client sees of a section: its secrets blanked out
-- (rust/crates/vocoderd/src/machines/settings.rs).
use dsh_rs.Base.{
  String, Option, none, some, List, [], ◌∷◌, ◌++◌, map, Bool, true, false, ◌||◌, if◌then◌else◌,
}
use dsh_rs.Base.Dict.{lookup}
use dsh_rs.Base.Text.{split, join}
use dsh_rs.Json.{
  Value, null, bool, string, array, object, to_items, Fields, end, field, json, u64, get, unwrap_or,
}
use dsh_rs.Rpc.{deep_merge}
use dsh_rs.Settings.{CatalogEntry, catalog, find, secret_match, Settings}

-- Whether a selector covers what stands at a path.
unfoldable pub hidden : List String → List String → Bool
unfolding secret_match
hidden [] path = false
hidden (sel ∷ sels) path = secret_match sel (join "." path) || hidden sels path

-- The walk leaves objects and arrays, and blanks what else a selector covers.
unfoldable mutual
  unfolding hidden

  pub redact : List String → List String → Value → Value
  redact sels path (object fields) = object (redact_fields sels path fields)
  redact sels path (array items) = array items
  redact sels path v = if hidden sels path then null else v

  pub redact_fields : List String → List String → Fields → Fields
  redact_fields sels path end = end
  redact_fields sels path (field k v rest) =
      field k (redact sels (path ++ k ∷ []) v) (redact_fields sels path rest)

abbrev pub redact_section : CatalogEntry → Value → Value
redact_section entry value = redact entry.secrets [] value

-- Whether something other than null stands where a selector points.
unfoldable pub is_set : List String → Value → Bool
is_set [] null = false
is_set [] _ = true
is_set (seg ∷ segs) v = elim (get v seg) [ none ↦ false | some next ↦ is_set segs next ]

abbrev pub redacted_secrets : CatalogEntry → Value → List Value
redacted_secrets entry value =
    map
      (λ sel. json (
        ("path", array (to_items (map string (split b'.' sel))))
        ∷ ("set", bool (is_set (split b'.' sel) value))
        ∷ []))
      entry.secrets

abbrev pub base_into : Option Value → Value
base_into none = json []
base_into (some b) = deep_merge (json []) b

abbrev pub user_section : Settings → String → Value
user_section m ns = unwrap_or (lookup ns m.document.sections) (json [])

-- The bases and the user's section, merged.
abbrev pub merged : Settings → String → Value
merged m ns = deep_merge (base_into (lookup ns m.bases)) (user_section m ns)

abbrev pub shown : Option CatalogEntry → Value → Value
shown none value = value
shown (some entry) value = redact_section entry value

abbrev schema_of : Option CatalogEntry → Value
schema_of none = json []
schema_of (some entry) = json (("$catalogSchema", string entry.schema) ∷ [])

abbrev secrets_of : Option CatalogEntry → Value → List Value
secrets_of none value = []
secrets_of (some entry) value = redacted_secrets entry value

abbrev pub base_field : Option Value → List (String × Value)
base_field none = []
base_field (some base) = ("base", base) ∷ []

-- An object that has a field.
abbrev pub user_field : Value → List (String × Value)
user_field (object (field k v rest)) = ("user", object (field k v rest)) ∷ []
user_field _ = []

unfoldable pub view_of : Settings → String → Value
view_of m ns =
    let entry = find ns catalog in
    json (
      ("ns", string ns)
      ∷ ("schema", schema_of entry)
      ∷ ("value", shown entry (merged m ns))
      ∷ ("applies", string "live")
      ∷ ("secrets", array (to_items (secrets_of entry (merged m ns))))
      ∷ ("revision", u64 (unwrap_or (lookup ns m.document.revisions) 0))
      ∷ (base_field (lookup ns m.bases) ++ user_field (shown entry (user_section m ns))))
