-- ===== src/Base/Decimal/Show.antt =====
-- Numbers that print alike are equal.
use Prim.Native.Nat.{ℕ, zero, suc, ◌-◌, ◌<◌}
use Prim.Native.Char.{Char, code}
use Prim.Native.String.{String, ◌++◌ as concat}
use text.Mathlib.TextLemmas.{nil-append, cons-append}
use mathlib.Core.Path.{◌≡◌, refl, sym, ap, ◌∙◌}
use mathlib.Core.List.{List, [], ◌∷◌}
use native.Mathlib.Omega.{arith}
use dsh_rs.Base.Lists.{All}
use dsh_rs.Base.Decimal.{digits, value, text_of, digit_text, show}
use dsh_rs.Base.Decimal.Roundtrip.{IsHigh, value-digits, digits-IsHigh}

read : String → List ℕ
read String.[] = []
read (String.◌∷◌ c s) = (code c - b'0') ∷ read s

read-digit :
    (c : Char) (s : String) → read (concat (String.◌∷◌ c String.[]) s) ≡ (code c - b'0') ∷ read s
unfolding read
read-digit c s = ap read (cons-append c String.[] s ∙ ap (String.◌∷◌ c) (nil-append s))

read-text_of : (ds : List ℕ) → All (λ d. d < 10) ds → read (text_of ds) ≡ ds
unfolding read text_of digit_text
read-text_of [] h = refl
read-text_of (zero ∷ ds) h = read-digit "0" (text_of ds) ∙ ap (λ es. 0 ∷ es) (read-text_of ds h.1)
read-text_of ((suc zero) ∷ ds) h =
    read-digit "1" (text_of ds) ∙ ap (λ es. 1 ∷ es) (read-text_of ds h.1)
read-text_of ((suc (suc zero)) ∷ ds) h =
    read-digit "2" (text_of ds) ∙ ap (λ es. 2 ∷ es) (read-text_of ds h.1)
read-text_of ((suc (suc (suc zero))) ∷ ds) h =
    read-digit "3" (text_of ds) ∙ ap (λ es. 3 ∷ es) (read-text_of ds h.1)
read-text_of ((suc (suc (suc (suc zero)))) ∷ ds) h =
    read-digit "4" (text_of ds) ∙ ap (λ es. 4 ∷ es) (read-text_of ds h.1)
read-text_of ((suc (suc (suc (suc (suc zero))))) ∷ ds) h =
    read-digit "5" (text_of ds) ∙ ap (λ es. 5 ∷ es) (read-text_of ds h.1)
read-text_of ((suc (suc (suc (suc (suc (suc zero)))))) ∷ ds) h =
    read-digit "6" (text_of ds) ∙ ap (λ es. 6 ∷ es) (read-text_of ds h.1)
read-text_of ((suc (suc (suc (suc (suc (suc (suc zero))))))) ∷ ds) h =
    read-digit "7" (text_of ds) ∙ ap (λ es. 7 ∷ es) (read-text_of ds h.1)
read-text_of ((suc (suc (suc (suc (suc (suc (suc (suc zero)))))))) ∷ ds) h =
    read-digit "8" (text_of ds) ∙ ap (λ es. 8 ∷ es) (read-text_of ds h.1)
read-text_of ((suc (suc (suc (suc (suc (suc (suc (suc (suc zero))))))))) ∷ ds) h =
    read-digit "9" (text_of ds) ∙ ap (λ es. 9 ∷ es) (read-text_of ds h.1)
read-text_of ((suc (suc (suc (suc (suc (suc (suc (suc (suc (suc d)))))))))) ∷ ds) h =
    absurd (omega (arith, h.0))

IsHigh-All : (ds : List ℕ) → IsHigh ds → All (λ d. d < 10) ds
IsHigh-All [] h = absurd h
IsHigh-All (d ∷ ds) h = h.1

-- Positive numbers that print alike are equal.
pub show-injective : (a b : ℕ) → 0 < a → 0 < b → show a ≡ show b → a ≡ b
unfolding show
show-injective a b p q e =
    sym (value-digits a)
    ∙ ap value (
        sym (read-text_of (digits a) (IsHigh-All (digits a) (digits-IsHigh a p)))
        ∙ ap read e
        ∙ read-text_of (digits b) (IsHigh-All (digits b) (digits-IsHigh b q)))
    ∙ value-digits b
