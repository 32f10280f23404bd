-- ===== src/Tool/Widths.antt =====
-- The bytes of a line as `read` shows it (rust/crates/vocoderd/src/machines/tool.rs).
use text.Mathlib.TextLemmas.{cons-append, nil-append}
use dsh_rs.Base.{
  ◌≡◌, refl, ap, ◌∙◌, ℕ, zero, suc, ◌+◌, ◌*◌, ◌≤◌, String, concat, ltb, if◌then◌else◌, Bool, true,
  false, show, arith,
}
use dsh_rs.Tool.Read.{read_max_line_length}
use dsh_rs.Tool.Page.{byte_len, chars, take_chars, cut_mark, truncate_line}

pub byte_len-concat : (s t : String) → byte_len (concat s t) ≡ byte_len s + byte_len t
unfolding byte_len
byte_len-concat String.[] t = omega (arith, ap byte_len (nil-append t))
byte_len-concat (String.◌∷◌ c s) t =
    ap byte_len (cons-append c s t) ∙ omega (arith, byte_len-concat s t)

byte_len-le : (s : String) → byte_len s ≤ 4 * chars s
unfolding byte_len chars
byte_len-le String.[] = omega arith
byte_len-le (String.◌∷◌ c s) = ground (arith, byte_len-le s)

byte_len-take_chars : (n : ℕ) (s : String) → byte_len (take_chars n s) ≤ 4 * n
unfolding byte_len take_chars
byte_len-take_chars zero s = omega arith
byte_len-take_chars (suc n) String.[] = omega arith
byte_len-take_chars (suc n) (String.◌∷◌ c s) = ground (arith, byte_len-take_chars n s)

cut_mark-le : byte_len cut_mark ≤ 100
unfolding byte_len show
cut_mark-le = omega arith

byte_len-if :
    (b : Bool) (s t : String) (n : ℕ)
    → (b ≡ true → byte_len s ≤ n)
    → (b ≡ false → byte_len t ≤ n)
    → byte_len (if b then s else t) ≤ n
byte_len-if true s t n hs ht = hs refl
byte_len-if false s t n hs ht = ht refl

short : (s : String) → ltb read_max_line_length (chars s) ≡ false → chars s ≤ 2000
short s e = ground arith

pub truncate_line-le : (s : String) → byte_len (truncate_line s) ≤ 8100
unfolding truncate_line
truncate_line-le s =
    let cut = take_chars read_max_line_length s in
    byte_len-if (ltb read_max_line_length (chars s)) (concat cut cut_mark) s 8100
      (λ _. omega (
        arith,
        byte_len-concat cut cut_mark,
        byte_len-take_chars read_max_line_length s,
        cut_mark-le,
      ))
      (λ e. omega (arith, byte_len-le s, short s e))
