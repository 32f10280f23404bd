-- ===== src/Rpc.antt =====
-- Merging and mutating JSON sections (rust/crates/vocoderd/src/rpc.rs).
pub mod Reply
pub mod Paths
pub mod Unset
pub mod Merge
mod Examples
use dsh_rs.Base.{
  String, concat, Option, none, some, List, [], ◌∷◌, Bool, true, false, Result, ok, err, ◌>>=◌,
  str_eq, if◌then◌else◌,
}
use dsh_rs.Json.{
  Value, null, array, object, Items, nil, cons, Fields, end, field, lookup, get, get_as, as_str,
  unwrap_or,
}

-- `map.insert(key, value)`
unfoldable pub insert : String → Value → Fields → Fields
insert k v end = field k v end
insert k v (field j w rest) =
    let later = insert k v rest in if str_eq j k then field k v rest else field j w later

-- `map.remove(key)`
unfoldable pub remove : String → Fields → Fields
remove k end = end
remove k (field j w rest) =
    let later = remove k rest in if str_eq j k then later else field j w later

-- What a patch's field leaves: its value, merged into what is there.
abbrev pub put : Option Value → Value → (Value → Value) → Value
put none v merge = v
put (some slot) v merge = merge slot

unfoldable mutual
  pub deep_merge : Value → Value → Value
  deep_merge target (object patch) = elim target [
    | object fields ↦ object (merge_fields fields patch)
    | _ ↦ object patch
  ]
  deep_merge target patch = patch

  pub merge_fields : Fields → Fields → Fields
  merge_fields fields end = fields
  merge_fields fields (field k v patch) =
      merge_fields (insert k (put (lookup k fields) v (λ slot. deep_merge slot v)) fields) patch

abbrev pub is_object : Value → Bool
is_object (object _) = true
is_object _ = false

-- The next node of a path: what stands there if it is an object, and else an empty one.
abbrev pub object_at : String → Fields → Fields
object_at k fields = elim (lookup k fields) [
  | none ↦ end
  | some v ↦ elim v [ object inner ↦ inner | _ ↦ end ]
]

-- The walk below a root that is an object.
unfoldable pub set_fields : Fields → String → List String → Value → Fields
set_fields fields k [] value = insert k value fields
set_fields fields k (j ∷ path) value =
    insert k (object (set_fields (object_at k fields) j path value)) fields

unfoldable pub set_path : Value → List String → Value → Result String Value
set_path root [] value =
    if is_object value then ok value else err "replacing the section root requires a plain object"
set_path (object fields) (k ∷ path) value = ok (object (set_fields fields k path value))
set_path _ (k ∷ path) value = err "mutate path traverses a non-object value"

-- A change to the object at a key, if there is one.
abbrev pub change_object : String → Fields → Option Value → (Fields → Fields) → Fields
change_object k fields (some (object inner)) f = insert k (object (f inner)) fields
change_object k fields _ f = fields

unfoldable pub unset_fields : Fields → String → List String → Fields
unset_fields fields k [] = remove k fields
unset_fields fields k (j ∷ path) =
    change_object k fields (lookup k fields) λ inner. unset_fields inner j path

unfoldable pub unset_path : Value → List String → Value
unset_path root [] = null
unset_path (object fields) (k ∷ path) = object (unset_fields fields k path)
unset_path root (k ∷ path) = root

-- The segments of a path; all must be texts.
abbrev pub segments : Items → Result String (List String)
segments nil = ok []
segments (cons v vs) = elim (as_str v) [
  | none ↦ err "mutate op path segments must be strings"
  | some s ↦ segments vs >>= λ path. ok (s ∷ path)
]

abbrev pub path_of : Value → Result String (List String)
path_of (array items) = segments items
path_of _ = err "mutate op requires a string-array path"

abbrev pub apply_kind : Value → String → List String → Value → Result String Value
apply_kind section kind path value =
    if str_eq kind "set"
    then set_path section path value
    else if str_eq kind "unset"
    then ok (unset_path section path)
    else err (concat "unsupported mutate op: " kind)

-- One operation; a failed one leaves the section as it was.
unfoldable pub apply_mutate_op : Value → Value → Result String Value
apply_mutate_op section op = do
  path ← path_of (unwrap_or (get op "path") null)
  apply_kind section (unwrap_or (get_as as_str op "op") "") path (unwrap_or (get op "value") null)
