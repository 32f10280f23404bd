-- ===== src/Rpc/Merge.antt =====
-- What a deep merge leaves at each key of an object (rust/crates/vocoderd/src/rpc.rs).
use dsh_rs.Base.{
  ◌≡◌, ◌≢◌, refl, subst, sym, ap, ◌∙◌, String, Option, none, some, str_eq, eq_iff, arith,
  Bool-cases, inl, inr,
}
use dsh_rs.Json.{Value, object, Fields, end, field, lookup, get}
use dsh_rs.Rpc.{insert, put, deep_merge, merge_fields}
use dsh_rs.Rpc.Paths.{insert_same, insert_other}

-- The keys of a `serde_json` map are distinct.
abbrev pub IsMap : Fields → Type 0
IsMap end = Unit
IsMap (field k v rest) = (lookup k rest ≡ none) × IsMap rest

-- What two objects have at a key, merged.
abbrev pub merged : Option Value → Option Value → Option Value
merged slot none = slot
merged none (some v) = some v
merged (some target) (some v) = some (deep_merge target v)

abbrev put_merged : Option Value → Value → Value
put_merged slot v = put slot v (λ s. deep_merge s v)

merged-put : (slot : Option Value) (v : Value) → merged slot (some v) ≡ some (put_merged slot v)
merged-put none v = refl
merged-put (some slot) v = refl

merge_fields-field :
    (fields : Fields) (k : String) (v : Value) (patch : Fields)
    → merge_fields fields (field k v patch)
      ≡ merge_fields (insert k (put_merged (lookup k fields) v) fields) patch
unfolding merge_fields deep_merge
merge_fields-field fields k (object p) patch = refl
merge_fields-field fields k _ patch = refl

merge_fields-lookup :
    (patch fields : Fields) (k : String)
    → IsMap patch
    → lookup k (merge_fields fields patch) ≡ merged (lookup k fields) (lookup k patch)
merge_fields-lookup end fields k u = unfold merge_fields in refl
merge_fields-lookup (field j v rest) fields k (fresh, u) =
    ap (lookup k) (merge_fields-field fields j v rest)
    ∙ merge_fields-lookup rest (insert j (put_merged (lookup j fields) v) fields) k u
    ∙ elim (Bool-cases (str_eq j k)) [
      | inl here ↦
          let same : j ≡ k = (eq_iff j k).0 here in
          let found : lookup k (insert j (put_merged (lookup j fields) v) fields)
              ≡ some (put_merged (lookup k fields) v) =
            subst
              (λ z.
                lookup z (insert j (put_merged (lookup j fields) v) fields)
                ≡ some (put_merged (lookup z fields) v))
              same (insert_same j (put_merged (lookup j fields) v) fields) in
          rw here (
            ap (λ o. merged o (lookup k rest)) found
            ∙ ap (merged (some (put_merged (lookup k fields) v)))
                (subst (λ z. lookup z rest ≡ none) same fresh)
            ∙ sym (merged-put (lookup k fields) v))
      | inr other ↦
          let apart : j ≢ k = ground (arith, eq_iff j k) in
          rw other (
            ap (λ o. merged o (lookup k rest))
              (insert_other j k (put_merged (lookup j fields) v) fields apart))
    ]

-- Merging a patch with distinct keys into an object merges key by key: a key of one side only
-- keeps its value, and a key of both holds the merge of the two values.
pub deep_merge-get :
    (fields patch : Fields) (k : String)
    → IsMap patch
    → get (deep_merge (object fields) (object patch)) k
      ≡ merged (get (object fields) k) (get (object patch) k)
unfolding deep_merge
deep_merge-get fields patch k u = merge_fields-lookup patch fields k u
