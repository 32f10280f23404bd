-- ===== src/Base/Decimal.antt =====
-- Decimal numerals: `format!("{n}")`, and the number that a run of digits stands for.
pub mod Roundtrip
pub mod Show
use Prim.Native.Nat.{ℕ, zero, suc, ◌+◌, ◌*◌, ◌/◌, ◌%◌}
use Prim.Native.String.{String, ◌++◌ as concat}
use mathlib.Core.List.{List, [], ◌∷◌, reverse}
use dsh_rs.Base.Tests.{ltb, if◌then◌else◌}

-- The digits from the lowest, and the number that they stand for.
unfoldable pub low_digits : ℕ → ℕ → List ℕ
low_digits zero n = []
low_digits (suc f) n =
    let more = low_digits f (n / 10) in if ltb n 10 then n ∷ [] else n % 10 ∷ more

unfoldable pub low_value : List ℕ → ℕ
low_value [] = 0
low_value (d ∷ ds) = d + 10 * low_value ds

-- The decimal digits, the most significant first. A number has fewer digits than its successor.
unfoldable pub digits : ℕ → List ℕ
unfolding low_digits
digits n = reverse (low_digits (suc n) n)

unfoldable pub value : List ℕ → ℕ
unfolding low_value
value ds = low_value (reverse ds)

digit_text : ℕ → String
digit_text zero = "0"
digit_text (suc zero) = "1"
digit_text (suc (suc zero)) = "2"
digit_text (suc (suc (suc zero))) = "3"
digit_text (suc (suc (suc (suc zero)))) = "4"
digit_text (suc (suc (suc (suc (suc zero))))) = "5"
digit_text (suc (suc (suc (suc (suc (suc zero)))))) = "6"
digit_text (suc (suc (suc (suc (suc (suc (suc zero))))))) = "7"
digit_text (suc (suc (suc (suc (suc (suc (suc (suc zero)))))))) = "8"
digit_text _ = "9"

text_of : List ℕ → String
text_of [] = ""
text_of (d ∷ ds) = concat (digit_text d) (text_of ds)

unfoldable pub show : ℕ → String
unfolding digits digit_text text_of
show n = text_of (digits n)
