-- ===== src/Tool/Pages.antt =====
-- A page and the pages after it (rust/crates/vocoderd/src/machines/tool.rs).
use dsh_rs.Base.{
  ◌≡◌, refl, sym, ap, ◌∙◌, subst, inl, inr, ◌⊎◌, ℕ, zero, suc, ◌+◌, ◌-◌, ◌≤◌, ◌<◌, String, Option,
  none, some, List, [], ◌∷◌, ◌++◌, Bool, true, false, ◌||◌, ltb, length, take, drop, take_all,
  length-drop, drop-add, drop_past, append-nil, if◌then◌else◌, arith,
}
use dsh_rs.Tool.Read.{ReadWindow, read_max_bytes}
use dsh_rs.Tool.Page.{truncate_line, Lines, scan, page, last_number, end_line, next_offset}
use dsh_rs.Tool.Weight.{page_bytes, cost-page_bytes}
use dsh_rs.Tool.Scan.{numbered, scan-Kept, scan_first, scan_skip}

suc_over : (n k : ℕ) → n + suc k ≡ suc n + k
suc_over n k = omega arith

numbered-append :
    (n k : ℕ) (xs : List String)
    → k ≤ length xs
    → numbered n (take k xs) ++ numbered (n + k) (drop k xs) ≡ numbered n xs
unfolding numbered
numbered-append n zero xs h = ap (λ m. numbered m xs) (omega arith)
numbered-append n (suc k) [] h = absurd (omega (arith, h))
numbered-append n (suc k) (x ∷ xs) h =
    ap (λ r. (n, truncate_line x) ∷ r)
      (ap (λ m. numbered (suc n) (take k xs) ++ numbered m (drop k xs)) (suc_over n k)
        ∙ numbered-append (suc n) k xs (omega (arith, h)))

last_number-numbered :
    (m n k : ℕ) (xs : List String)
    → k ≤ length xs
    → suc m ≡ n
    → last_number m (numbered n (take k xs)) ≡ m + k
unfolding numbered
last_number-numbered m n zero xs h e = omega arith
last_number-numbered m n (suc k) [] h e = absurd (omega (arith, h))
last_number-numbered m n (suc k) (x ∷ xs) h e =
    omega (arith, e, last_number-numbered n (suc n) k xs (omega (arith, h)) refl)

-- A window asks for a first line and for one line at least, as `read_window` makes them.
abbrev pub IsWindow : ReadWindow → Type 0
IsWindow w = (1 ≤ w.offset) × (1 ≤ w.limit)

some_kept :
    (o l k : ℕ) (rest : List String)
    → 1 ≤ l
    → 1 ≤ length rest
    → (scan o l o 0 0 rest).0 ≡ numbered o (take k rest)
    → 1 ≤ k
unfolding numbered
some_kept o l k [] hl h e = absurd (omega (arith, h))
some_kept o l (suc k) (x ∷ xs) hl h e = omega arith
some_kept o l zero (x ∷ xs) hl h e =
    let (rest, first) = scan_first o l o x xs (omega arith) hl in ground arith

-- The lines of a page are those from the offset on, as `read` shows them, under their numbers and in
-- order, and their bytes with the line breaks between them are within the cap. Unless the cap stops them they are as many as the limit says or as stand
-- in the file from there; if it does, there is a next line and its bytes would exceed the cap. An
-- offset within the file gets one line at least.
pub page_lem :
    (w : ReadWindow) (lines : List String)
    → IsWindow w
    → (k : ℕ) × ((page w lines).0 ≡ numbered w.offset (take k (drop (w.offset - 1) lines)))
      × (k ≤ w.limit)
      × (k ≤ length lines - (w.offset - 1))
      × (w.offset ≤ length lines → 1 ≤ k)
      × ((page w lines).1 ≡ true → k < length lines - (w.offset - 1))
      × (page_bytes (take k (drop (w.offset - 1) lines)) ≤ read_max_bytes)
      × ((page w lines).1 ≡ true
          → read_max_bytes < page_bytes (take (suc k) (drop (w.offset - 1) lines)))
      × ((page w lines).1 ≡ false → (k ≡ w.limit) ⊎ (k ≡ length lines - (w.offset - 1)))
page_lem w lines (ho, hl) =
    let e = scan_skip (w.offset - 1) w.offset w.limit 1 lines (omega (arith, ho)) in
    let after = drop (w.offset - 1) lines in
    let (k, ek, room, fits, bytes, cap, over, all) =
      scan-Kept w.offset w.limit w.offset 0 0 after (omega arith) (omega arith) in
    let capped = λ (b : Bool) (t : (page w lines).1 ≡ b). sym (ap (λ r. r.1) e) ∙ t in
    let d = length-drop (w.offset - 1) lines in
    (
      k,
      ap (λ r. r.0) e ∙ ek,
      omega (arith, room),
      omega (arith, fits, d),
      λ range. some_kept w.offset w.limit k _ hl (omega (arith, d, range, ho)) ek,
      (λ t. omega (arith, d, cap (capped true t))),
      omega (arith, bytes, cost-page_bytes (take k after)),
      (λ t. omega (arith, over (capped true t), cost-page_bytes (take (suc k) after))),
      λ f. elim (all (capped false f)) [
        | inl e ↦ inl (omega (arith, e))
        | inr e ↦ inr (omega (arith, e, d))
      ],
    )

-- The pages that a reader gets who follows the footers.
abbrev pub pages : ℕ → ReadWindow → List String → Lines
pages zero w lines = []
pages (suc n) w lines =
    (page w lines).0
    ++ elim (next_offset w lines) [ none ↦ [] | some o ↦ pages n (record w { offset = o }) lines ]

footer_cases :
    (capped : Bool) (last total end : ℕ)
    → last ≡ end
    → end ≤ total
    → (capped ≡ true → end < total)
    → (((if capped || ltb last total then some (suc last) else none) ≡ none) × (end ≡ total))
      ⊎ (((if capped || ltb last total then some (suc last) else none) ≡ some (suc end))
          × (end < total))
footer_cases true last total end e h c = inr (ap (λ n. some (suc n)) e, c refl)
footer_cases false last total end e h c = ground arith

-- After the last page nothing is left; before it, the footer names the line after the last shown.
abbrev GoesOn : ReadWindow → List String → ℕ → Type 0
GoesOn w lines k =
    ((next_offset w lines ≡ none) × (w.offset - 1 + k ≡ length lines))
    ⊎ ((next_offset w lines ≡ some (suc (w.offset - 1 + k))) × (w.offset - 1 + k < length lines))

after_page :
    (w : ReadWindow) (lines : List String) (k : ℕ)
    → IsWindow w
    → (page w lines).0 ≡ numbered w.offset (take k (drop (w.offset - 1) lines))
    → k ≤ length lines - (w.offset - 1)
    → ((page w lines).1 ≡ true → k < length lines - (w.offset - 1))
    → w.offset ≤ suc (length lines)
    → GoesOn w lines k
after_page w lines k (ho, hl) e fits cap range =
    let last =
      last_number-numbered (w.offset - 1) w.offset k (drop (w.offset - 1) lines)
        (omega (arith, fits, length-drop (w.offset - 1) lines)) (omega (arith, ho)) in
    footer_cases (page w lines).1 (end_line w (page w lines).0) (length lines) (w.offset - 1 + k)
      (ap (last_number (w.offset - 1)) e ∙ last) (omega (arith, fits, range, ho))
      (λ t. omega (arith, cap t))

suc_pred : (o k : ℕ) → 1 ≤ o → suc (o - 1 + k) ≡ o + k
suc_pred o k h = omega arith

pred_suc : (n : ℕ) → suc n - 1 ≡ n
pred_suc n = omega arith

-- The pages after one that shows `k` lines.
abbrev followed : ℕ → ReadWindow → List String → Option ℕ → Lines
followed n w lines o =
    (page w lines).0 ++ elim o [ none ↦ [] | some o ↦ pages n (record w { offset = o }) lines ]

last_page :
    (w : ReadWindow) (lines : List String) (k : ℕ)
    → (page w lines).0 ≡ numbered w.offset (take k (drop (w.offset - 1) lines))
    → k ≡ length (drop (w.offset - 1) lines)
    → (page w lines).0 ++ [] ≡ numbered w.offset (drop (w.offset - 1) lines)
last_page w lines k e all =
    append-nil ((page w lines).0)
    ∙ e
    ∙ ap (λ m. numbered w.offset (take m (drop (w.offset - 1) lines))) all
    ∙ ap (numbered w.offset) (take_all (drop (w.offset - 1) lines))

page_then :
    (w : ReadWindow) (lines : List String) (k : ℕ) (after : Lines)
    → 1 ≤ w.offset
    → (page w lines).0 ≡ numbered w.offset (take k (drop (w.offset - 1) lines))
    → k ≤ length (drop (w.offset - 1) lines)
    → after ≡ numbered (suc (w.offset - 1 + k)) (drop (suc (w.offset - 1 + k) - 1) lines)
    → (page w lines).0 ++ after ≡ numbered w.offset (drop (w.offset - 1) lines)
page_then w lines k after h e fits ih =
    ap (λ l. l ++ after) e
    ∙ ap (λ r. numbered w.offset (take k (drop (w.offset - 1) lines)) ++ r)
        (ih
          ∙ ap (λ o. numbered o (drop (suc (w.offset - 1 + k) - 1) lines)) (suc_pred w.offset k h)
          ∙ ap (λ d. numbered (w.offset + k) (drop d lines)) (pred_suc (w.offset - 1 + k))
          ∙ ap (numbered (w.offset + k)) (drop-add (w.offset - 1) k lines))
    ∙ numbered-append w.offset k (drop (w.offset - 1) lines) fits

pages_from :
    (n : ℕ) (w : ReadWindow) (lines : List String)
    → IsWindow w
    → w.offset ≤ suc (length lines)
    → suc (length lines) ≤ n + w.offset
    → pages n w lines ≡ numbered w.offset (drop (w.offset - 1) lines)
unfolding numbered
pages_from zero w lines h range fuel =
    sym (ap (numbered w.offset) (drop_past (w.offset - 1) lines (omega (arith, fuel))))
pages_from (suc n) w lines h range fuel =
    let (k, e, room, fits, some_line, cap, _, _, _) = page_lem w lines h in
    let d = length-drop (w.offset - 1) lines in
    elim (after_page w lines k h e fits cap range) [
      | inl (next, all) ↦
          subst (λ o. followed n w lines o ≡ numbered w.offset (drop (w.offset - 1) lines))
            (sym next) (last_page w lines k e (omega (arith, all, h.0, d)))
      | inr (next, more) ↦
          let w' = record w { offset = suc (w.offset - 1 + k) } in
          let k_pos = some_line (omega (arith, more, h.0)) in
          subst (λ o. followed n w lines o ≡ numbered w.offset (drop (w.offset - 1) lines))
            (sym next)
            (page_then w lines k (pages n w' lines) h.0 e (omega (arith, fits, d)) (
              pages_from n w' lines (omega arith, h.1) (omega (arith, more))
                (omega (arith, fuel, k_pos, h.0))))
    ]

-- A reader who follows the footers from the first line gets every line of the file exactly once,
-- in order and under its number, in at most one page for each line and one.
pub pages_lem :
    (path : String) (limit : ℕ) (lines : List String)
    → 1 ≤ limit
    → pages (suc (length lines)) (record { path = path; offset = 1; limit = limit }) lines
      ≡ numbered 1 lines
pages_lem path limit lines h =
    pages_from (suc (length lines)) _ lines (omega arith, h) (omega arith) (omega arith)
