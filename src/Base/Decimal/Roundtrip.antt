-- ===== src/Base/Decimal/Roundtrip.antt =====
-- Printing a number and reading it back, in both directions.
use Prim.Native.Nat.{ℕ, zero, suc, ◌/◌, ◌%◌, ◌<◌}
use mathlib.Core.Path.{◌≡◌, ap, ◌∙◌}
use mathlib.Core.Logic.{inl, inr}
use mathlib.Core.List.{List, [], ◌∷◌, ◌++◌, reverse, reverse-reverse, reverse-cons}
use native.Mathlib.Omega.{arith}
use dsh_rs.Base.Tests.{ltb, Bool-cases}
use dsh_rs.Base.Lists.{All}
use dsh_rs.Base.Decimal.{low_digits, low_value, digits, value}

low_value-low_digits : (f n : ℕ) → n < f → low_value (low_digits f n) ≡ n
unfolding low_digits low_value
low_value-low_digits zero n h = absurd (omega arith)
low_value-low_digits (suc f) n h = ground (arith, low_value-low_digits f (n / 10))

-- A printed number reads back as itself.
pub value-digits : (n : ℕ) → value (digits n) ≡ n
unfolding value digits
value-digits n = rw reverse-reverse (low_value-low_digits (suc n) n (omega arith))

-- Digits from the lowest, of a positive number: the highest is not zero.
abbrev pub IsLow : List ℕ → Type 0
IsLow [] = ⊥
IsLow (d ∷ []) = (d < 10) × (0 < d)
IsLow (d ∷ e ∷ ds) = (d < 10) × IsLow (e ∷ ds)

low_value-pos : (ds : List ℕ) → IsLow ds → 0 < low_value ds
unfolding low_value
low_value-pos [] h = absurd h
low_value-pos (d ∷ []) h = omega arith
low_value-pos (d ∷ e ∷ ds) h = omega (arith, low_value-pos (e ∷ ds) h.1)

low_digits-low_value :
    (f : ℕ) (ds : List ℕ) → IsLow ds → low_value ds < f → low_digits f (low_value ds) ≡ ds
unfolding low_digits low_value
low_digits-low_value zero ds h b = absurd (omega arith)
low_digits-low_value (suc f) [] h b = absurd h
low_digits-low_value (suc f) (d ∷ []) h b = ground arith
low_digits-low_value (suc f) (d ∷ e ∷ ds) h b =
    ground (arith, low_value-pos (e ∷ ds) h.1, low_digits-low_value f (e ∷ ds) h.1)

IsLow-cons : (d : ℕ) (ds : List ℕ) → d < 10 → IsLow ds → IsLow (d ∷ ds)
IsLow-cons d [] b h = absurd h
IsLow-cons d (e ∷ ds) b h = (b, h)

low_digits-IsLow : (f n : ℕ) → n < f → 0 < n → IsLow (low_digits f n)
unfolding low_digits
low_digits-IsLow zero n b p = absurd (omega arith)
low_digits-IsLow (suc f) n b p = elim (Bool-cases (ltb n 10)) [
  | inl small ↦ rw small (ground arith)
  | inr large ↦ rw large (
      IsLow-cons (n % 10) (low_digits f (n / 10)) (omega arith)
        (low_digits-IsLow f (n / 10) (ground arith) (ground arith)))
]

-- Digits from the highest, which is not zero.
abbrev pub IsHigh : List ℕ → Type 0
IsHigh [] = ⊥
IsHigh (d ∷ ds) = (0 < d) × All (λ e. e < 10) (d ∷ ds)

All-snoc : (ds : List ℕ) (d : ℕ) → All (λ e. e < 10) ds → d < 10 → All (λ e. e < 10) (ds ++ d ∷ [])
All-snoc [] d h b = (b, tt)
All-snoc (e ∷ ds) d h b = (h.0, All-snoc ds d h.1 b)

IsHigh-snoc : (ds : List ℕ) (d : ℕ) → IsHigh ds → d < 10 → IsHigh (ds ++ d ∷ [])
IsHigh-snoc [] d h b = absurd h
IsHigh-snoc (e ∷ ds) d h b = (h.0, All-snoc (e ∷ ds) d h.1 b)

reverse-IsHigh : (ds : List ℕ) → IsLow ds → IsHigh (reverse ds)
reverse-IsHigh [] h = absurd h
reverse-IsHigh (d ∷ []) h = (h.1, (h.0, tt))
reverse-IsHigh (d ∷ e ∷ ds) h =
    rw (reverse-cons d (e ∷ ds))
      (IsHigh-snoc (reverse (e ∷ ds)) d (reverse-IsHigh (e ∷ ds) h.1) h.0)

IsLow-snoc : (ds : List ℕ) (d : ℕ) → All (λ e. e < 10) ds → d < 10 → 0 < d → IsLow (ds ++ d ∷ [])
IsLow-snoc [] d h b p = (b, p)
IsLow-snoc (e ∷ ds) d h b p = IsLow-cons e (ds ++ d ∷ []) h.0 (IsLow-snoc ds d h.1 b p)

All-reverse : (ds : List ℕ) → All (λ e. e < 10) ds → All (λ e. e < 10) (reverse ds)
All-reverse [] h = tt
All-reverse (d ∷ ds) h = rw (reverse-cons d ds) (All-snoc (reverse ds) d (All-reverse ds h.1) h.0)

IsLow-reverse : (ds : List ℕ) → IsHigh ds → IsLow (reverse ds)
IsLow-reverse [] h = absurd h
IsLow-reverse (d ∷ ds) (p, (b, r)) =
    rw (reverse-cons d ds) (IsLow-snoc (reverse ds) d (All-reverse ds r) b p)

-- A positive number is printed with no leading zero.
pub digits-IsHigh : (n : ℕ) → 0 < n → IsHigh (digits n)
unfolding digits
digits-IsHigh n p =
    reverse-IsHigh (low_digits (suc n) n) (low_digits-IsLow (suc n) n (omega arith) p)

-- Digits with no leading zero are what their number prints as.
pub digits-value : (ds : List ℕ) → IsHigh ds → digits (value ds) ≡ ds
unfolding digits value
digits-value ds h =
    ap reverse (
      low_digits-low_value (suc (low_value (reverse ds))) (reverse ds) (IsLow-reverse ds h)
        (omega arith))
    ∙ reverse-reverse ds

pub value-pos : (ds : List ℕ) → IsHigh ds → 0 < value ds
unfolding value
value-pos ds h = low_value-pos (reverse ds) (IsLow-reverse ds h)
