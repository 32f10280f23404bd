-- ===== src/Tool/Page.antt =====
-- The page of lines that `read` renders (rust/crates/vocoderd/src/machines/tool.rs). The argument
-- `lang` is the table of `lang_from_path`.
use Prim.Native.Char.{code}
use dsh_rs.Base.{
  ℕ, zero, suc, ◌+◌, ◌-◌, String, concat, Option, none, some, List, [], ◌∷◌, ◌++◌, map, Bool, true,
  false, ◌||◌, ◌&&◌, not, ◌==◌, ltb, leb, if◌then◌else◌, length, is_empty, show,
}
use dsh_rs.Base.Text.{split, join, ends_in, is_nil}
use dsh_rs.Json.{Value, string, array, to_items, u64, json}
use dsh_rs.Tool.{Outcome, text, denied, with_meta}
use dsh_rs.Tool.Read.{ReadWindow, read_max_line_length, read_max_bytes}

-- `line.strip_suffix('\r').unwrap_or(line)`
unfoldable pub strip_cr : String → String
strip_cr String.[] = ""
strip_cr (String.◌∷◌ c String.[]) = if code c == 13 then "" else String.◌∷◌ c ""
strip_cr (String.◌∷◌ c s) = String.◌∷◌ c (strip_cr s)

abbrev pop_last {ℓ} : {A : Type ℓ} → List A → List A
pop_last [] = []
pop_last (x ∷ []) = []
pop_last (x ∷ y ∷ ys) = x ∷ pop_last (y ∷ ys)

unfoldable pub split_lines : String → List String
unfolding strip_cr split ends_in
split_lines s =
    let lines = map strip_cr (split 10 s) in
    if is_nil s then [] else if ends_in 10 s then pop_last lines else lines

-- The bytes of a character, and of a text (`str::len`).
abbrev pub width : ℕ → ℕ
width n = if ltb n 128 then 1 else if ltb n 2048 then 2 else if ltb n 65536 then 3 else 4

unfoldable pub byte_len : String → ℕ
byte_len String.[] = 0
byte_len (String.◌∷◌ c s) = width (code c) + byte_len s

-- `s.chars().count()`
unfoldable pub chars : String → ℕ
chars String.[] = 0
chars (String.◌∷◌ c s) = suc (chars s)

unfoldable pub take_chars : ℕ → String → String
take_chars zero s = ""
take_chars (suc n) String.[] = ""
take_chars (suc n) (String.◌∷◌ c s) = String.◌∷◌ c (take_chars n s)

abbrev pub cut_mark : String
cut_mark = concat "... (line truncated to " (concat (show read_max_line_length) " chars)")

unfoldable pub truncate_line : String → String
unfolding chars take_chars
truncate_line line =
    if ltb read_max_line_length (chars line)
    then concat (take_chars read_max_line_length line) cut_mark
    else line

abbrev pub Lines : Type 0
Lines = List (ℕ × String)

-- The lines kept from line `number` on, `count` kept before and `bytes` spent on them; and whether
-- the cap on the bytes stopped the scan.
unfoldable pub scan : ℕ → ℕ → ℕ → ℕ → ℕ → List String → Lines × Bool
unfolding truncate_line byte_len
scan offset limit number count bytes [] = ([], false)
scan offset limit number count bytes (line ∷ lines) =
    let rendered = truncate_line line in
    let spent = bytes + (byte_len rendered + (if count == 0 then 0 else 1)) in
    elim (ltb number offset || leb limit count) [
      | true ↦ scan offset limit (suc number) count bytes lines
      | false ↦ elim (ltb read_max_bytes spent) [
        | true ↦ ([], true)
        | false ↦
            let (rest, capped) = scan offset limit (suc number) (suc count) spent lines in
            ((number, rendered) ∷ rest, capped)
      ]
    ]

abbrev pub page : ReadWindow → List String → Lines × Bool
page w lines = scan w.offset w.limit 1 0 0 lines

abbrev pub last_number : ℕ → Lines → ℕ
last_number n [] = n
last_number n ((m, s) ∷ rest) = last_number m rest

-- The last line shown.
abbrev pub end_line : ReadWindow → Lines → ℕ
end_line w kept = last_number (w.offset - 1) kept

-- Where the footer says to go on.
abbrev pub next_offset : ReadWindow → List String → Option ℕ
next_offset w lines =
    let (kept, capped) = page w lines in
    if capped || ltb (end_line w kept) (length lines) then some (suc (end_line w kept)) else none

abbrev footer : ReadWindow → List String → String
footer w lines =
    let (kept, capped) = page w lines in
    let shown = concat (show w.offset) (concat "-" (show (end_line w kept))) in
    let go_on = concat "Use offset=" (concat (show (suc (end_line w kept))) " to continue.)") in
    if capped
    then concat "(Output capped. Showing lines " (concat shown (concat ". " go_on))
    else if ltb (end_line w kept) (length lines)
    then concat "(Showing lines "
        (concat shown (concat (concat " of " (show (length lines))) (concat ". " go_on)))
    else concat "(End of file - total " (concat (show (length lines)) " lines)")

abbrev numbered_text : ℕ × String → String
numbered_text (n, s) = concat (show n) (concat ": " s)

abbrev body : ReadWindow → List String → String
body w lines =
    let kept = (page w lines).0 in
    if is_empty kept
    then footer w lines
    else concat (join "\n" (map numbered_text kept)) (concat "\n\n" (footer w lines))

abbrev meta_lang : Option String → List (String × Value)
meta_lang none = []
meta_lang (some lang) = ("lang", string lang) ∷ []

abbrev line_value : ℕ × String → Value
line_value (n, s) = json (("number", u64 n) ∷ ("text", string s) ∷ [])

abbrev out_of_range : ReadWindow → ℕ → Bool
out_of_range w total = ltb total w.offset && not ((total == 0) && (w.offset == 1))

abbrev pub read_lines : (String → Option String) → ReadWindow → List String → Outcome
read_lines lang w lines =
    if out_of_range w (length lines)
    then denied (
        concat (concat "offset " (concat (show w.offset) " is out of range for \""))
          (concat w.path (concat "\" (" (concat (show (length lines)) " lines)"))))
    else with_meta
        (text (
          concat (concat "<path>" (concat w.path "</path>\n<type>file</type>\n<content>\n"))
            (concat (body w lines) "\n</content>")))
        (json (
          (("path", string w.path)
            ∷ ("offset", u64 w.offset)
            ∷ ("lines", array (to_items (map line_value (page w lines).0)))
            ∷ ("totalLines", u64 (length lines))
            ∷ [])
          ++ meta_lang (lang w.path)))

abbrev pub read_outcome : (String → Option String) → ReadWindow → String → Outcome
read_outcome lang w s = read_lines lang w (split_lines s)
