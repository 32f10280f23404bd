-- ===== src/Rpc/Unset.antt =====
-- What unsetting a path of a JSON section does to it and to every other path
-- (rust/crates/vocoderd/src/rpc.rs).
use dsh_rs.Base.{
  ◌≡◌, inl, inr, refl, sym, ap, ◌∙◌, subst, String, Option, none, some, List, [], ◌∷◌, and_then,
  eq_iff, arith,
}
use dsh_rs.Json.{Value, object, Fields, lookup}
use dsh_rs.Rpc.{insert, remove, change_object, unset_fields, unset_path}
use dsh_rs.Rpc.Paths.{get_path, Apart, lookup-remove, insert_same, insert_other}

change_object-none :
    (fields : Fields) (k j : String) (path : List String) (f : Fields → Fields) (o : Option Value)
    → lookup k fields ≡ o
    → ((inner : Fields) → get_path (object (f inner)) (j ∷ path) ≡ none)
    → get_path (object (change_object k fields o f)) (k ∷ j ∷ path) ≡ none
change_object-none fields k j path f (some (object inner)) e ih =
    ap (λ o. and_then o λ w. get_path w (j ∷ path)) (insert_same k _ fields) ∙ ih inner
change_object-none fields k j path f _ e ih = ap (λ o. and_then o λ w. get_path w (j ∷ path)) e

unset_fields_gone :
    (fields : Fields) (k : String) (path : List String)
    → get_path (object (unset_fields fields k path)) (k ∷ path) ≡ none
unfolding unset_fields
unset_fields_gone fields k [] =
    let gone : lookup k (remove k fields) ≡ none =
      ground (arith, lookup-remove k k fields, eq_iff k k) in
    ap (λ o. and_then o λ w. some w) gone
unset_fields_gone fields k (j ∷ path) =
    change_object-none fields k j path (λ inner. unset_fields inner j path) (lookup k fields) refl
      (λ inner. unset_fields_gone inner j path)

change_object-Apart :
    (fields : Fields) (k j : String) (path other : List String) (f : Fields → Fields)
    (o : Option Value)
    → lookup k fields ≡ o
    → ((inner : Fields) (rest : List String)
        → Apart (j ∷ path) rest
        → get_path (object (f inner)) rest ≡ get_path (object inner) rest)
    → Apart (k ∷ j ∷ path) other
    → get_path (object (change_object k fields o f)) other ≡ get_path (object fields) other
change_object-Apart fields k j path [] f o e ih a = absurd a
change_object-Apart fields k j path (l ∷ other) f (some (object inner)) e ih (inl n) =
    ap (λ o. and_then o λ w. get_path w other) (insert_other k l _ fields n)
change_object-Apart fields k j path (l ∷ other) f (some (object inner)) e ih (inr (same, a)) =
    subst
      (λ z.
        get_path (object (insert k (object (f inner)) fields)) (z ∷ other)
        ≡ get_path (object fields) (z ∷ other))
      same
      (ap (λ o. and_then o λ w. get_path w other) (insert_same k _ fields)
        ∙ ih inner other a
        ∙ sym (ap (λ o. and_then o λ w. get_path w other) e))
change_object-Apart fields k j path (l ∷ other) f _ e ih a = refl

unset_fields-Apart :
    (fields : Fields) (k : String) (path other : List String)
    → Apart (k ∷ path) other
    → get_path (object (unset_fields fields k path)) other ≡ get_path (object fields) other
unfolding unset_fields
unset_fields-Apart fields k [] [] a = absurd a
unset_fields-Apart fields k [] (j ∷ other) (inr (e, a)) = absurd a
unset_fields-Apart fields k [] (j ∷ other) (inl n) =
    let same : lookup j (remove k fields) ≡ lookup j fields =
      ground (arith, lookup-remove k j fields, eq_iff k j) in
    ap (λ o. and_then o λ w. get_path w other) same
unset_fields-Apart fields k (j ∷ path) other a =
    change_object-Apart fields k j path other (λ inner. unset_fields inner j path) (lookup k fields)
      refl (λ inner rest. unset_fields-Apart inner j path rest) a

unset_path-get_path :
    (root : Value) (k : String) (path : List String)
    → get_path (unset_path root (k ∷ path)) (k ∷ path) ≡ none
unfolding unset_path
unset_path-get_path (object fields) k path = unset_fields_gone fields k path
unset_path-get_path _ k path = refl

unset_path-Apart :
    (root : Value) (path other : List String)
    → Apart path other
    → get_path (unset_path root path) other ≡ get_path root other
unfolding unset_path
unset_path-Apart root [] other a = absurd a
unset_path-Apart (object fields) (k ∷ path) other a = unset_fields-Apart fields k path other a
unset_path-Apart _ (k ∷ path) other a = refl

-- Nothing stands at a path that was unset, unless it is the section itself, and every path that
-- parts from it holds what it held.
pub unset_path_lem :
    (root : Value) (k : String) (path : List String)
    → (get_path (unset_path root (k ∷ path)) (k ∷ path) ≡ none)
      × ((other : List String)
          → Apart (k ∷ path) other
          → get_path (unset_path root (k ∷ path)) other ≡ get_path root other)
unset_path_lem root k path =
    (unset_path-get_path root k path, λ other. unset_path-Apart root (k ∷ path) other)
