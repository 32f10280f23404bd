-- ===== src/Tool/Weight.antt =====
-- The bytes of the lines of a page (rust/crates/vocoderd/src/machines/tool.rs).
use dsh_rs.Base.{◌≡◌, refl, ℕ, suc, ◌+◌, String, concat, List, [], ◌∷◌, map, arith}
use dsh_rs.Base.Text.{join}
use dsh_rs.Tool.Page.{byte_len, truncate_line}
use dsh_rs.Tool.Widths.{byte_len-concat}
use dsh_rs.Tool.Scan.{cost}

-- The bytes of lines as they are shown, with a line break between two.
abbrev pub page_bytes : List String → ℕ
page_bytes lines = byte_len (join "\n" (map truncate_line lines))

line_break : byte_len "\n" ≡ 1
unfolding byte_len
line_break = refl

page_bytes-cost :
    (count : ℕ) (x : String) (xs : List String)
    → page_bytes (x ∷ xs) ≡ byte_len (truncate_line x) + cost (suc count) xs
unfolding join cost
page_bytes-cost c x [] = omega arith
page_bytes-cost c x (y ∷ ys) =
    let after = join "\n" (map truncate_line (y ∷ ys)) in
    grind (
      arith,
      byte_len-concat (truncate_line x) (concat "\n" after),
      byte_len-concat "\n" after,
      line_break,
      page_bytes-cost (suc c) y ys,
    )

pub cost-page_bytes : (lines : List String) → cost 0 lines ≡ page_bytes lines
unfolding cost join byte_len
cost-page_bytes [] = refl
cost-page_bytes (x ∷ xs) = omega (arith, page_bytes-cost 0 x xs)
