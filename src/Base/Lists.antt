-- ===== src/Base/Lists.antt =====
-- Lists measured by native numbers, under the library's names, and predicates by recursion.
use Prim.Native.Nat.{ℕ, zero, suc, ◌+◌, ◌-◌, ◌≤◌}
use mathlib.Core.Path.{◌≡◌, refl, sym, ap, ◌∙◌}
use mathlib.Core.Logic.{◌⊎◌, inl, inr, ◌≢◌}
use mathlib.Core.Bool.{Bool, true, false}
use mathlib.Core.List.{List, [], ◌∷◌, ◌++◌}
use native.Mathlib.Omega.{arith}

suc_out : (d e : ℕ) → suc d + e ≡ suc (d + e)
suc_out d e = omega arith

module _ {ℓ} {A : Type ℓ} where
  abbrev pub length : List A → ℕ
  length [] = 0
  length (x ∷ xs) = suc (length xs)

  abbrev pub take : ℕ → List A → List A
  take zero xs = []
  take (suc n) [] = []
  take (suc n) (x ∷ xs) = x ∷ take n xs

  abbrev pub drop : ℕ → List A → List A
  drop zero xs = xs
  drop (suc n) [] = []
  drop (suc n) (x ∷ xs) = drop n xs

  abbrev pub is_empty : List A → Bool
  is_empty [] = true
  is_empty (x ∷ xs) = false

  pub List-cases : (l : List A) → (l ≡ []) ⊎ ((x : A) × (xs : List A) × (l ≡ x ∷ xs))
  List-cases [] = inl refl
  List-cases (x ∷ xs) = inr (x, xs, refl)

  pub length-append : (xs ys : List A) → length (xs ++ ys) ≡ length xs + length ys
  length-append [] ys = omega arith
  length-append (x ∷ xs) ys = omega (arith, length-append xs ys)

  pub take_all : (xs : List A) → take (length xs) xs ≡ xs
  take_all [] = refl
  take_all (x ∷ xs) = ap (λ t. x ∷ t) (take_all xs)

  pub drop_all : (xs : List A) → drop (length xs) xs ≡ []
  drop_all [] = refl
  drop_all (x ∷ xs) = drop_all xs

  pub take-append-drop : (n : ℕ) (xs : List A) → take n xs ++ drop n xs ≡ xs
  take-append-drop zero xs = refl
  take-append-drop (suc n) [] = refl
  take-append-drop (suc n) (x ∷ xs) = ap (λ t. x ∷ t) (take-append-drop n xs)

  pub length-drop : (d : ℕ) (xs : List A) → length (drop d xs) ≡ length xs - d
  length-drop zero xs = omega arith
  length-drop (suc d) [] = omega arith
  length-drop (suc d) (x ∷ xs) = omega (arith, length-drop d xs)

  drop_nil : (d : ℕ) → drop d [] ≡ []
  drop_nil zero = refl
  drop_nil (suc d) = refl

  pub drop-add : (d e : ℕ) (xs : List A) → drop (d + e) xs ≡ drop e (drop d xs)
  drop-add zero e xs = ap (λ n. drop n xs) (omega arith)
  drop-add (suc d) e [] = drop_nil (suc d + e) ∙ sym (drop_nil e)
  drop-add (suc d) e (x ∷ xs) = ap (λ n. drop n (x ∷ xs)) (suc_out d e) ∙ drop-add d e xs

  pub drop_past : (d : ℕ) (xs : List A) → length xs ≤ d → drop d xs ≡ []
  drop_past d [] h = drop_nil d
  drop_past zero (x ∷ xs) h = absurd (omega (arith, h))
  drop_past (suc d) (x ∷ xs) h = drop_past d xs (omega (arith, h))

  -- Every element satisfies `P`.
  abbrev pub All {κ} : (A → Type κ) → List A → Type κ
  All P [] = Unit
  All P (x ∷ xs) = P x × All P xs

  pub All-append {κ} : (P : A → Type κ) (xs ys : List A) → All P xs → All P ys → All P (xs ++ ys)
  All-append P [] ys hx hy = hy
  All-append P (x ∷ xs) ys (h, hx) hy = (h, All-append P xs ys hx hy)

  -- No element occurs twice.
  abbrev pub Unique : List A → Type ℓ
  Unique [] = Unit
  Unique (x ∷ xs) = All (λ y. x ≢ y) xs × Unique xs
