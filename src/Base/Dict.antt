-- ===== src/Base/Dict.antt =====
-- `BTreeMap` with text keys: the entries in the order of their keys, each key once.
use Prim.Native.Nat.{Ordering}
use Prim.Native.String.{String, compare}
use mathlib.Core.Path.{◌≡◌, refl}
use mathlib.Core.Bool.{Bool, true, false}
use mathlib.Core.Option.{Option, none, some}
use mathlib.Core.List.{List, [], ◌∷◌, map}
use native.Mathlib.Omega.{arith}
use text.Mathlib.Text.{◌==◌}
use text.Mathlib.TextEquality.{eq_iff}
use dsh_rs.Base.Tests.{if◌then◌else◌}

abbrev str_lt : String → String → Bool
str_lt a b = elim (compare a b) [ Ordering.lt ↦ true | _ ↦ false ]

abbrev pub Dict {ℓ} : Type ℓ → Type ℓ
Dict V = List (String × V)

module _ {ℓ} {V : Type ℓ} where
  unfoldable pub lookup : String → Dict V → Option V
  lookup k [] = none
  lookup k ((j, v) ∷ m) = if j == k then some v else lookup k m

  unfoldable pub insert : String → V → Dict V → Dict V
  insert k v [] = (k, v) ∷ []
  insert k v (e ∷ m) =
      let deeper = e ∷ insert k v m in
      if str_lt k e.0 then (k, v) ∷ e ∷ m else if e.0 == k then (k, v) ∷ m else deeper

  unfoldable pub erase : String → Dict V → Dict V
  erase k [] = []
  erase k ((j, v) ∷ m) = let rest = erase k m in if j == k then rest else (j, v) ∷ rest

  -- A change to every value.
  unfoldable pub map_values : (V → V) → Dict V → Dict V
  map_values f [] = []
  map_values f ((j, v) ∷ m) = (j, f v) ∷ map_values f m

  pub keys : Dict V → List String
  keys = map λ e. e.0

  -- What was inserted is found, and nothing else has changed.
  pub lookup-insert :
      (m : Dict V) (k : String) (v : V) (j : String)
      → ((k == j) ≡ true → lookup j (insert k v m) ≡ some v)
        × ((k == j) ≡ false → lookup j (insert k v m) ≡ lookup j m)
  unfolding lookup insert
  lookup-insert [] k v j = ground arith
  lookup-insert (e ∷ m) k v j =
      ground (arith, lookup-insert m k v j, eq_iff e.0 k, eq_iff e.0 j, eq_iff k j)

  pub lookup-erase :
      (m : Dict V) (k j : String) → lookup j (erase k m) ≡ (if k == j then none else lookup j m)
  unfolding lookup erase
  lookup-erase [] k j = ground arith
  lookup-erase (e ∷ m) k j =
      ground (arith, lookup-erase m k j, eq_iff e.0 k, eq_iff e.0 j, eq_iff k j)

  pub lookup-map_values :
      (f : V → V) (j : String) (m : Dict V)
      → lookup j (map_values f m) ≡ elim (lookup j m) [ none ↦ none | some v ↦ some (f v) ]
  unfolding lookup map_values
  lookup-map_values f j [] = refl
  lookup-map_values f j ((i, v) ∷ m) = ground (arith, lookup-map_values f j m)
