-- ===== src/Tool/Scan.antt =====
-- The scan that makes a page (rust/crates/vocoderd/src/machines/tool.rs).
use dsh_rs.Base.{
  ◌≡◌, ◌⊎◌, inl, inr, refl, sym, ap, subst, ℕ, zero, suc, ◌+◌, ◌-◌, ◌≤◌, ◌<◌, String, List, [], ◌∷◌,
  Bool, true, false, ◌||◌, ◌==◌, ltb, leb, length, take, drop, if◌then◌else◌, arith,
}
use dsh_rs.Tool.Read.{read_max_bytes}
use dsh_rs.Tool.Page.{byte_len, truncate_line, Lines, scan}
use dsh_rs.Tool.Widths.{truncate_line-le}

-- Lines under their numbers, each as `read` shows it.
unfoldable pub numbered : ℕ → List String → Lines
numbered n [] = []
numbered n (l ∷ ls) = (n, truncate_line l) ∷ numbered (suc n) ls

-- The bytes that lines add to a page that holds `count` lines, each after a line break but the first.
unfoldable pub cost : ℕ → List String → ℕ
cost count [] = 0
cost count (x ∷ xs) =
    byte_len (truncate_line x) + (if count == 0 then 0 else 1) + cost (suc count) xs

-- The lines kept are the next `k`, within the limit and the cap, and all of those unless the cap
-- stops the scan: then there is a next line, and it does not fit.
abbrev pub Kept : ℕ → ℕ → ℕ → ℕ → List String → Lines × Bool → Type 0
Kept room number count bytes lines (kept, capped) =
    (k : ℕ) × (kept ≡ numbered number (take k lines))
    × (k ≤ room)
    × (k ≤ length lines)
    × (bytes + cost count (take k lines) ≤ read_max_bytes)
    × (capped ≡ true → k < length lines)
    × (capped ≡ true → read_max_bytes < bytes + cost count (take (suc k) lines))
    × (capped ≡ false → (k ≡ room) ⊎ (k ≡ length lines))

Kept-nothing :
    (room number count bytes : ℕ) (lines : List String)
    → bytes ≤ read_max_bytes
    → (room ≡ 0) ⊎ (lines ≡ [])
    → Kept room number count bytes lines ([], false)
unfolding numbered cost
Kept-nothing room number c b lines h done = (
  0,
  refl,
  omega arith,
  omega arith,
  omega (arith, h),
  (λ e. ground arith),
  (λ e. ground arith),
  λ _. elim done [ inl e ↦ inl (sym e) | inr e ↦ inr (sym (ap length e)) ],
)

abbrev spent : ℕ → ℕ → String → ℕ
spent c b x = b + (byte_len (truncate_line x) + (if c == 0 then 0 else 1))

abbrev taken : ℕ → String → Lines × Bool → Lines × Bool
taken n x (rest, capped) = ((n, truncate_line x) ∷ rest, capped)

of_elims :
    (P : Lines × Bool → Type 0) (skip over : Bool) (s t u : Lines × Bool)
    → (skip ≡ true → P s)
    → (skip ≡ false → over ≡ true → P t)
    → (skip ≡ false → over ≡ false → P u)
    → P (elim skip [ true ↦ s | false ↦ elim over [ true ↦ t | false ↦ u ] ])
of_elims P true over s t u hs ht hu = hs refl
of_elims P false true s t u hs ht hu = ht refl refl
of_elims P false false s t u hs ht hu = hu refl refl

-- A predicate holds of a step of the scan when it holds of each of its three ends.
of_step :
    (P : Lines × Bool → Type 0) (o l n c b : ℕ) (x : String) (xs : List String)
    → (ltb n o || leb l c ≡ true → P (scan o l (suc n) c b xs))
    → (ltb n o || leb l c ≡ false → ltb read_max_bytes (spent c b x) ≡ true → P ([], true))
    → (ltb n o || leb l c ≡ false
        → ltb read_max_bytes (spent c b x) ≡ false
        → P (taken n x (scan o l (suc n) (suc c) (spent c b x) xs)))
    → P (scan o l n c b (x ∷ xs))
unfolding scan
of_step P o l n c b x xs hs ht hu =
    of_elims P (ltb n o || leb l c) (ltb read_max_bytes (spent c b x)) (scan o l (suc n) c b xs)
      ([], true) (taken n x (scan o l (suc n) (suc c) (spent c b x) xs)) hs ht hu

scan_full :
    (offset limit number count bytes : ℕ) (lines : List String)
    → limit ≤ count
    → scan offset limit number count bytes lines ≡ ([], false)
unfolding scan
scan_full o l n c b [] h = refl
scan_full o l n c b (x ∷ xs) h =
    of_step (λ r. r ≡ ([], false)) o l n c b x xs (λ _. scan_full o l (suc n) c b xs h)
      (λ e _. ground arith) (λ e _. ground arith)

Kept-capped :
    (room number c b : ℕ) (x : String) (xs : List String)
    → b ≤ read_max_bytes
    → ltb read_max_bytes (spent c b x) ≡ true
    → Kept room number c b (x ∷ xs) ([], true)
unfolding numbered cost
Kept-capped room number c b x xs h over = (
  0,
  refl,
  omega arith,
  omega arith,
  omega (arith, h),
  (λ _. omega arith),
  (λ _. ground arith),
  λ e. ground arith,
)

Kept-taken :
    (l n c b : ℕ) (x : String) (xs : List String) (r : Lines × Bool)
    → c < l
    → Kept (l - suc c) (suc n) (suc c) (spent c b x) xs r
    → Kept (l - c) n c b (x ∷ xs) (taken n x r)
unfolding numbered cost
Kept-taken l n c b x xs r h (k, ek, room, fits, bytes, more, over, all) = (
  suc k,
  ap (λ r. (n, truncate_line x) ∷ r) ek,
  omega (arith, room, h),
  omega (arith, fits),
  omega (arith, bytes),
  (λ t. omega (arith, more t)),
  (λ t. omega (arith, over t)),
  λ t. elim (all t) [ inl e ↦ inl (omega (arith, e, h)) | inr e ↦ inr (omega (arith, e)) ],
)

pub scan-Kept :
    (offset limit number count bytes : ℕ) (lines : List String)
    → offset ≤ number
    → bytes ≤ read_max_bytes
    → Kept (limit - count) number count bytes lines (scan offset limit number count bytes lines)
unfolding scan numbered
scan-Kept o l n c b [] h fit = Kept-nothing (l - c) n c b [] fit (inr refl)
scan-Kept o l n c b (x ∷ xs) h fit =
    of_step (Kept (l - c) n c b (x ∷ xs)) o l n c b x xs
      (λ e.
        subst (Kept (l - c) n c b (x ∷ xs)) (sym (scan_full o l (suc n) c b xs (ground arith)))
          (Kept-nothing (l - c) n c b (x ∷ xs) fit (inl (ground arith))))
      (λ _ over. Kept-capped (l - c) n c b x xs fit over)
      (λ e under.
        Kept-taken l n c b x xs (scan o l (suc n) (suc c) (spent c b x) xs) (ground arith)
          (scan-Kept o l (suc n) (suc c) (spent c b x) xs (omega arith) (ground arith)))

-- The first line of a page fits, since a line as shown has fewer bytes than a page.
pub scan_first :
    (offset limit number : ℕ) (x : String) (xs : List String)
    → offset ≤ number
    → 1 ≤ limit
    → (rest : Lines) × ((scan offset limit number 0 0 (x ∷ xs)).0
        ≡ (number, truncate_line x) ∷ rest)
scan_first o l n x xs ho hl =
    of_step (λ r. (rest : Lines) × (r.0 ≡ (n, truncate_line x) ∷ rest)) o l n 0 0 x xs
      (λ e. ground arith) (λ _ e. ground (arith, truncate_line-le x))
      (λ _ _. ((scan o l (suc n) 1 (spent 0 0 x) xs).0, refl))

-- The lines before the offset are passed over.
pub scan_skip :
    (d offset limit number : ℕ) (lines : List String)
    → d + number ≡ offset
    → scan offset limit number 0 0 lines ≡ scan offset limit offset 0 0 (drop d lines)
unfolding scan
scan_skip zero o l n lines e = ap (λ m. scan o l m 0 0 lines) (omega arith)
scan_skip (suc d) o l n [] e = refl
scan_skip (suc d) o l n (x ∷ xs) e =
    of_step (λ r. r ≡ scan o l o 0 0 (drop d xs)) o l n 0 0 x xs
      (λ _. scan_skip d o l (suc n) xs (omega arith)) (λ h _. ground arith) (λ h _. ground arith)
