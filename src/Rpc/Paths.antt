-- ===== src/Rpc/Paths.antt =====
-- What setting and unsetting a path of a JSON section does to it and to every other path
-- (rust/crates/vocoderd/src/rpc.rs).
use dsh_rs.Base.{
  ◌≡◌, ◌≢◌, ◌⊎◌, inl, inr, refl, sym, ap, ◌∙◌, subst, String, Option, none, some, List, [], ◌∷◌, ok,
  ok-injective, and_then, str_eq, eq_iff, if◌then◌else◌, arith,
}
use dsh_rs.Json.{Value, object, Fields, end, field, lookup, get}
use dsh_rs.Rpc.{insert, remove, object_at, set_fields, set_path}

-- What stands at a path.
abbrev pub get_path : Value → List String → Option Value
get_path v [] = some v
get_path v (k ∷ path) = and_then (get v k) λ w. get_path w path

-- The paths part ways before either ends.
abbrev pub Apart : List String → List String → Type 0
Apart (j ∷ js) (k ∷ ks) = (j ≢ k) ⊎ ((j ≡ k) × Apart js ks)
Apart _ _ = ⊥

pub lookup-insert :
    (k j : String) (v : Value) (fields : Fields)
    → lookup j (insert k v fields) ≡ (if str_eq k j then some v else lookup j fields)
unfolding insert
lookup-insert k j v end = refl
lookup-insert k j v (field i w rest) =
    ground (arith, lookup-insert k j v rest, eq_iff i k, eq_iff i j, eq_iff k j)

pub lookup-remove :
    (k j : String) (fields : Fields)
    → lookup j (remove k fields) ≡ (if str_eq k j then none else lookup j fields)
unfolding remove
lookup-remove k j end = ground arith
lookup-remove k j (field i w rest) =
    ground (arith, lookup-remove k j rest, eq_iff i k, eq_iff i j, eq_iff k j)

pub insert_same : (k : String) (v : Value) (fields : Fields) → lookup k (insert k v fields) ≡ some v
insert_same k v fields = ground (arith, lookup-insert k k v fields, eq_iff k k)

pub insert_other :
    (k j : String) (v : Value) (fields : Fields)
    → k ≢ j
    → lookup j (insert k v fields) ≡ lookup j fields
insert_other k j v fields n = ground (arith, lookup-insert k j v fields, eq_iff k j)

set_fields-get :
    (fields : Fields) (k : String) (path : List String) (value : Value)
    → get_path (object (set_fields fields k path value)) (k ∷ path) ≡ some value
unfolding set_fields
set_fields-get fields k [] value = ap (λ o. and_then o λ w. some w) (insert_same k value fields)
set_fields-get fields k (j ∷ path) value =
    ap (λ o. and_then o λ w. get_path w (j ∷ path)) (insert_same k _ fields)
    ∙ set_fields-get (object_at k fields) j path value

-- Below a node that is no object there is nothing, so an empty object in its place changes no path.
object_at-get :
    (k j : String) (path : List String) (fields : Fields)
    → get_path (object fields) (k ∷ j ∷ path) ≡ get_path (object (object_at k fields)) (j ∷ path)
object_at-get k j path fields = at (lookup k fields)
  where
    at :
        (o : Option Value)
        → and_then o (λ w. get_path w (j ∷ path))
          ≡ get_path
              (object
                (elim o [ none ↦ end | some v ↦ (elim v [ object inner ↦ inner | _ ↦ end ]) ]))
              (j ∷ path)
    at none = refl
    at (some (object inner)) = refl
    at (some _) = refl

set_fields-Apart :
    (fields : Fields) (k : String) (path other : List String) (value : Value)
    → Apart (k ∷ path) other
    → get_path (object (set_fields fields k path value)) other ≡ get_path (object fields) other
unfolding set_fields
set_fields-Apart fields k path [] value a = absurd a
set_fields-Apart fields k [] (j ∷ other) value (inl n) =
    ap (λ o. and_then o λ w. get_path w other) (insert_other k j value fields n)
set_fields-Apart fields k [] (j ∷ other) value (inr (e, a)) = absurd a
set_fields-Apart fields k (i ∷ path) (j ∷ other) value (inl n) =
    ap (λ o. and_then o λ w. get_path w other) (insert_other k j _ fields n)
set_fields-Apart fields k (i ∷ path) (j ∷ []) value (inr (e, a)) = absurd a
set_fields-Apart fields k (i ∷ path) (j ∷ l ∷ other) value (inr (e, a)) =
    subst
      (λ z.
        get_path (object (set_fields fields k (i ∷ path) value)) (z ∷ l ∷ other)
        ≡ get_path (object fields) (z ∷ l ∷ other))
      e
      (ap (λ o. and_then o λ w. get_path w (l ∷ other)) (insert_same k _ fields)
        ∙ set_fields-Apart (object_at k fields) i path (l ∷ other) value a
        ∙ sym (object_at-get k l other fields))

set_path-get_path :
    (root root' : Value) (path : List String) (value : Value)
    → set_path root path value ≡ ok root'
    → get_path root' path ≡ some value
unfolding set_path
set_path-get_path root root' [] value e = let same : root' ≡ value = ground arith in ap some same
set_path-get_path (object fields) root' (k ∷ path) value e =
    subst (λ r. get_path r (k ∷ path) ≡ some value) (ok-injective e)
      (set_fields-get fields k path value)
set_path-get_path _ root' (k ∷ path) value e = cc

set_path-Apart :
    (root root' : Value) (path other : List String) (value : Value)
    → set_path root path value ≡ ok root'
    → Apart path other
    → get_path root' other ≡ get_path root other
unfolding set_path
set_path-Apart root root' [] other value e a = absurd a
set_path-Apart (object fields) root' (k ∷ path) other value e a =
    subst (λ r. get_path r other ≡ get_path (object fields) other) (ok-injective e)
      (set_fields-Apart fields k path other value a)
set_path-Apart _ root' (k ∷ path) other value e a = cc

-- Where setting a path succeeds, the path holds the value, whatever stood on the way, and every path
-- that parts from it holds what it held.
pub set_path_lem :
    (root root' : Value) (path : List String) (value : Value)
    → set_path root path value ≡ ok root'
    → (get_path root' path ≡ some value)
      × ((other : List String) → Apart path other → get_path root' other ≡ get_path root other)
set_path_lem root root' path value e = (
  set_path-get_path root root' path value e,
  λ other. set_path-Apart root root' path other value e,
)
