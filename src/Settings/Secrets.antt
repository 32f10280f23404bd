-- ===== src/Settings/Secrets.antt =====
-- What a client is shown at and below a declared secret, in the redacted layers of a view
-- (rust/crates/vocoderd/src/machines/settings.rs).
use text.Mathlib.Text.{starts_with}
use text.Mathlib.TextLemmas.{append_assoc as concat_assoc}
use text.Mathlib.TextPositions.{starts_with-append}
use mathlib.Core.Option.{some-injective}
use dsh_rs.Base.{
  ◌≡◌, ◌⊎◌, inl, inr, Bool-cases, refl, sym, ap, ◌∙◌, subst, String, concat, Option, none, some,
  List, [], ◌∷◌, ◌++◌, Bool, true, false, ◌||◌, and_then, and_then-eq-some, append-nil,
  append_assoc, str_eq, eq_iff, eq_refl, if◌then◌else◌, arith,
}
use dsh_rs.Base.Dict
use dsh_rs.Base.Text.{join}
use dsh_rs.Json.{Value, null, array, object, Items, Fields, fields, end, field, lookup, get}
use dsh_rs.Rpc.Paths.{get_path}
use dsh_rs.Settings.{CatalogEntry, Settings, secret_match, find, catalog}
use dsh_rs.Settings.Redact.{
  hidden, shown, user_section, base_field, user_field, redact, redact_fields, redact_section,
  view_of, merged,
}

abbrev map_some : (Value → Value) → Option Value → Option Value
map_some f none = none
map_some f (some v) = some (f v)

lookup-redact_fields :
    (sels path : List String) (k : String) (fields : Fields)
    → lookup k (redact_fields sels path fields)
      ≡ map_some (redact sels (path ++ k ∷ [])) (lookup k fields)
unfolding redact
lookup-redact_fields sels path k end = refl
lookup-redact_fields sels path k (field j v rest) = elim (Bool-cases (str_eq j k)) [
  | inl same ↦ rw same (ap (λ z. some (redact sels (path ++ z ∷ []) v)) ((eq_iff j k).0 same))
  | inr apart ↦ rw apart (lookup-redact_fields sels path k rest)
]

get-redact :
    (sels path : List String) (k : String) (v : Value)
    → get (redact sels path v) k ≡ map_some (redact sels (path ++ k ∷ [])) (get v k)
unfolding redact
get-redact sels path k (object fields) = lookup-redact_fields sels path k fields
get-redact sels path k (array items) = refl
get-redact sels path k _ = ground arith

below :
    (sels path : List String) (k : String) (rest : List String) (o : Option Value)
    → ((w : Value)
        → get_path (redact sels (path ++ k ∷ []) w) rest
          ≡ map_some (redact sels ((path ++ k ∷ []) ++ rest)) (get_path w rest))
    → and_then (map_some (redact sels (path ++ k ∷ [])) o) (λ w. get_path w rest)
      ≡ map_some (redact sels (path ++ k ∷ rest)) (and_then o λ w. get_path w rest)
below sels path k rest none ih = refl
below sels path k rest (some w) ih =
    subst
      (λ z.
        get_path (redact sels (path ++ k ∷ []) w) rest ≡ map_some (redact sels z) (get_path w rest))
      (append_assoc path (k ∷ []) rest) (ih w)

-- Redaction goes with paths.
redact-get_path :
    (sels path rest : List String) (v : Value)
    → get_path (redact sels path v) rest ≡ map_some (redact sels (path ++ rest)) (get_path v rest)
redact-get_path sels path [] v = rw (append-nil path) refl
redact-get_path sels path (k ∷ rest) v =
    rw (get-redact sels path k v)
      (below sels path k rest (get v k) (λ w. redact-get_path sels (path ++ k ∷ []) rest w))

abbrev pub IsScalar : Value → Type 0
IsScalar (object _) = ⊥
IsScalar (array _) = ⊥
IsScalar _ = Unit {0}

redact-scalar :
    (sels path : List String) (v : Value)
    → IsScalar v
    → redact sels path v ≡ (if hidden sels path then null else v)
unfolding redact
redact-scalar sels path (object _) h = absurd h
redact-scalar sels path (array _) h = absurd h
redact-scalar sels path _ h = refl

or-true : (a : Bool) {b : Bool} → b ≡ true → (a || b) ≡ true
or-true true e = refl
or-true false e = e

-- A selector of one segment covers what stands at it and below it.
secret_match_below :
    (sel : String) (rest : List String) → secret_match sel (join "." (sel ∷ rest)) ≡ true
unfolding secret_match join
secret_match_below sel [] = rw (eq_refl sel) refl
secret_match_below sel (k ∷ rest) =
    let whole = concat sel (concat "." (join "." (k ∷ rest))) in
    let begins =
      subst (λ z. starts_with z (concat sel ".") ≡ true)
        (concat_assoc sel "." (join "." (k ∷ rest)))
        (starts_with-append (concat sel ".") (join "." (k ∷ rest))) in
    or-true (str_eq whole sel) begins

abbrev pub Has : String → List String → Type 0
Has sel [] = ⊥
Has sel (s ∷ sels) = (sel ≡ s) ⊎ Has sel sels

hidden_below :
    (sel : String) (sels rest : List String) → Has sel sels → hidden sels (sel ∷ rest) ≡ true
unfolding hidden
hidden_below sel [] rest h = absurd h
hidden_below sel (s ∷ sels) rest (inl e) = ground (
  arith,
  subst (λ z. secret_match z (join "." (sel ∷ rest)) ≡ true) e (secret_match_below sel rest),
)
hidden_below sel (s ∷ sels) rest (inr h) = ground (arith, hidden_below sel sels rest h)

redact-null :
    (sels path : List String) (v : Value)
    → hidden sels path ≡ true
    → IsScalar (redact sels path v)
    → redact sels path v ≡ null
unfolding redact
redact-null sels path (object fields) h s = absurd s
redact-null sels path (array items) h s = absurd s
redact-null sels path _ h s = rw h refl

map_some-eq :
    (f : Value → Value) (o : Option Value) {w : Value}
    → map_some f o ≡ some w
    → (v : Value) × (f v ≡ w)
map_some-eq f none e = cc e
map_some-eq f (some v) e = (v, cc e)

pub redacted-scalar :
    (e : CatalogEntry) (sel : String) (rest : List String) (v w : Value)
    → Has sel e.secrets
    → get_path (redact_section e v) (sel ∷ rest) ≡ some w
    → IsScalar w
    → w ≡ null
redacted-scalar e sel rest v w h found s =
    let (u, same) =
      map_some-eq (redact e.secrets (sel ∷ rest)) _
        (sym (redact-get_path e.secrets [] (sel ∷ rest) v) ∙ found) in
    sym same
    ∙ redact-null e.secrets (sel ∷ rest) u (hidden_below sel e.secrets rest h)
        (subst IsScalar (sym same) s)

-- The layers of a view that come from the document.
abbrev pub IsLayer : String → Type 0
IsLayer layer = (layer ≡ "value") ⊎ (layer ≡ "user")

user_of_view :
    (b : Option Value) (v u : Value)
    → lookup "user" (fields (base_field b ++ user_field v)) ≡ some u
    → u ≡ v
user_of_view none (object (field k v rest)) u e = cc e
user_of_view (some b) (object (field k v rest)) u e = cc e
user_of_view none _ u e = cc e
user_of_view (some b) _ u e = cc e

layer_of_view :
    (m : Settings) (ns layer : String) (e : CatalogEntry) (u : Value)
    → IsLayer layer
    → find ns catalog ≡ some e
    → get (view_of m ns) layer ≡ some u
    → (v : Value) × (redact_section e v ≡ u)
unfolding view_of
layer_of_view m ns layer e u (inl q) f g =
    let value : get (view_of m ns) "value" ≡ some u =
      subst (λ z. get (view_of m ns) z ≡ some u) q g in
    (merged m ns, ap (λ o. shown o (merged m ns)) (sym f) ∙ some-injective _ _ value)
layer_of_view m ns layer e u (inr q) f g =
    let user : get (view_of m ns) "user" ≡ some u =
      subst (λ z. get (view_of m ns) z ≡ some u) q g in
    (
      user_section m ns,
      ap (λ o. shown o (user_section m ns)) (sym f)
          ∙ sym (user_of_view (Dict.lookup ns m.bases) _ u user),
    )

-- In the layers `value` and `user` of the view of a registered section, whatever stands at a declared
-- secret of one key, or below it by a path of keys, is an object, an array or null. Nothing is said
-- of the items of an array, nor of the layer `base`.
pub view_of-Secret :
    (m : Settings) (ns layer sel : String) (rest : List String) (e : CatalogEntry) (w : Value)
    → find ns catalog ≡ some e
    → Has sel e.secrets
    → IsLayer layer
    → get_path (view_of m ns) (layer ∷ sel ∷ rest) ≡ some w
    → IsScalar w
    → w ≡ null
view_of-Secret m ns layer sel rest e w f h l g s =
    let (u, at, below) = and_then-eq-some (get (view_of m ns) layer) _ g in
    let (v, same) = layer_of_view m ns layer e u l f at in
    redacted-scalar e sel rest v w h
      (subst (λ z. get_path z (sel ∷ rest) ≡ some w) (sym same) below) s

-- An array is no exception to be relied on: one that stands at a declared secret is shown whole.
pub redact_section-array :
    (e : CatalogEntry) (path : List String) (v : Value) (items : Items)
    → get_path v path ≡ some (array items)
    → get_path (redact_section e v) path ≡ some (array items)
unfolding redact
redact_section-array e path v items g =
    redact-get_path e.secrets [] path v ∙ ap (map_some (redact e.secrets path)) g
