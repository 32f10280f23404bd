-- ===== src/Validate/Depth.antt =====
-- The depth of a schema, and what is read of one (rust/crates/vocoderd/src/validate.rs).
use mathlib.Core.Option.{some-injective}
use dsh_rs.Base.{
  ℕ, suc, ◌≡◌, ◌+◌, ◌≤◌, refl, sym, ap, ◌∙◌, subst, inl, inr, String, Option, none, some, List,
  and_then, All, Bool-cases, arith, if◌then◌else◌, str_eq,
}
use dsh_rs.Json.{
  Value, null, bool, number, string, array, object, Items, nil, cons, Fields, end, field, lookup,
  as_array, from_items,
}
use dsh_rs.Validate.Schema.{as_object, entries}

-- How deep a schema is at most, all its parts counted.
unfoldable mutual
  pub depth : Value → ℕ
  depth (array vs) = suc (depth_items vs)
  depth (object fs) = suc (depth_fields fs)
  depth _ = 1

  pub depth_items : Items → ℕ
  depth_items nil = 0
  depth_items (cons v vs) = depth v + depth_items vs

  pub depth_fields : Fields → ℕ
  depth_fields end = 0
  depth_fields (field k v rest) = depth v + depth_fields rest

-- Nothing in a schema has a `$ref`.
unfoldable mutual
  pub NoRef : Value → Type 0
  NoRef (array vs) = NoRefItems vs
  NoRef (object fs) = (lookup "$ref" fs ≡ none) × NoRefFields fs
  NoRef _ = Unit

  NoRefItems : Items → Type 0
  NoRefItems nil = Unit
  NoRefItems (cons v vs) = NoRef v × NoRefItems vs

  pub NoRefFields : Fields → Type 0
  NoRefFields end = Unit
  NoRefFields (field k v rest) = NoRef v × NoRefFields rest

-- A part of a schema of at most some depth.
abbrev pub Small : ℕ → Value → Type 0
Small n v = (depth v ≤ n) × NoRef v

items-Small :
    (n : ℕ) (vs : Items) → depth_items vs ≤ n → NoRefItems vs → All (Small n) (from_items vs)
unfolding depth NoRef
items-Small n nil h r = tt
items-Small n (cons v vs) h (r, rs) =
    ((omega (arith, h), r), items-Small n vs (omega (arith, h)) rs)

pub lookup-Small :
    (n : ℕ) (k : String) (fs : Fields) (v : Value)
    → depth_fields fs ≤ n
    → NoRefFields fs
    → lookup k fs ≡ some v
    → Small n v
unfolding depth NoRef
lookup-Small n k end v h r e = ground arith
lookup-Small n k (field j w rest) v h (r, rs) e = elim (Bool-cases (str_eq j k)) [
  | inl same ↦
      subst (Small n)
        (some-injective _ _ (sym (ap (λ b. if b then some w else lookup k rest) same) ∙ e))
        (omega (arith, h), r)
  | inr other ↦
      lookup-Small n k rest v (omega (arith, h)) rs
        (sym (ap (λ b. if b then some w else lookup k rest) other) ∙ e)
]

pub as_array-Small :
    (n : ℕ) (v : Value) (ms : List Value) → Small n v → as_array v ≡ some ms → All (Small n) ms
unfolding depth NoRef
as_array-Small n (array vs) ms (h, r) e =
    subst (All (Small n)) (some-injective _ _ e) (items-Small n vs (omega (arith, h)) r)
as_array-Small n null ms h e = ground arith
as_array-Small n (bool b) ms h e = ground arith
as_array-Small n (number x) ms h e = ground arith
as_array-Small n (string s) ms h e = ground arith
as_array-Small n (object fs) ms h e = ground arith

entries-Small :
    (n : ℕ) (fs : Fields)
    → depth_fields fs ≤ n
    → NoRefFields fs
    → All (λ e. Small n e.1) (entries fs)
unfolding depth NoRef
entries-Small n end h r = tt
entries-Small n (field k v rest) h (r, rs) =
    ((omega (arith, h), r), entries-Small n rest (omega (arith, h)) rs)

pub as_object-Small :
    (n : ℕ) (v : Value) (ps : Fields)
    → Small n v
    → as_object v ≡ some ps
    → All (λ e. Small n e.1) (entries ps)
unfolding depth NoRef
as_object-Small n (object fs) ps (h, (r, rs)) e =
    subst (λ l. All (λ p. Small n p.1) (entries l)) (some-injective _ _ e)
      (entries-Small n fs (omega (arith, h)) rs)
as_object-Small n null ps h e = ground arith
as_object-Small n (bool b) ps h e = ground arith
as_object-Small n (number x) ps h e = ground arith
as_object-Small n (string s) ps h e = ground arith
as_object-Small n (array vs) ps h e = ground arith

-- What a key's value is read as keeps to the depth.
pub through :
    {B : Type 0} (P : B → Type 0) (n : ℕ) (read : Value → Option B)
    (small : (v : Value) (b : B) → Small n v → read v ≡ some b → P b) (o : Option Value)
    → ((v : Value) → o ≡ some v → Small n v)
    → (b : B) → and_then o read ≡ some b
    → P b
through P n read small none h b e = ground arith
through P n read small (some v) h b e = small v b (h v refl) e
