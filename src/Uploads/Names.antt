-- ===== src/Uploads/Names.antt =====
-- The names of uploaded files are names of files in one directory
-- (rust/crates/vocoderd/src/machines/file_uploads.rs).
use Prim.Native.Char.{Char, code}
use dsh_rs.Base.{
  ℕ, ◌≡◌, ◌≢◌, ◌-◌, ◌≤◌, refl, String, Option, none, some, Bool, true, false, ◌||◌, ◌&&◌, str_eq,
  eq_iff, leb, leb→le, if◌then◌else◌, arith,
}
use dsh_rs.Teams.{is_whitespace, is_blank}
use dsh_rs.Commands.Parse.{trim, trim_start, trim_end}
use dsh_rs.Tool.Page.{byte_len, width}
use dsh_rs.Uploads.{
  is_separator, has_separator, after_last, is_js_control, is_reserved, is_dot_or_space, replaced,
  cleaned, all_dots_and_spaces, strip_trailing_dots_and_spaces, is_windows_device_name, utf8_prefix,
  guarded, or_file, shortened, file_leaf_name,
}

abbrev Plain : String → Type 0
Plain s = has_separator s ≡ false

or-eq_false : (a b : Bool) → a || b ≡ false → (a ≡ false) × (b ≡ false)
or-eq_false a b h = ground arith

or_false : (a b : Bool) → a ≡ false → b ≡ false → a || b ≡ false
or_false a b ha hb = ground arith

if-Plain : (b : Bool) (s t : String) → Plain s → Plain t → Plain (if b then s else t)
if-Plain true s t hs ht = hs
if-Plain false s t hs ht = ht

if-le :
    (b : Bool) (s t : String) (n : ℕ)
    → (b ≡ true → byte_len s ≤ n)
    → (b ≡ false → byte_len t ≤ n)
    → byte_len (if b then s else t) ≤ n
if-le true s t n hs ht = hs refl
if-le false s t n hs ht = ht refl

Plain-tail :
    (c : Char) (s : String) → Plain (String.◌∷◌ c s) → (is_separator (code c) ≡ false) × Plain s
unfolding has_separator
Plain-tail c s h = or-eq_false (is_separator (code c)) (has_separator s) h

Plain-cons :
    (c : Char) (s : String) → is_separator (code c) ≡ false → Plain s → Plain (String.◌∷◌ c s)
unfolding has_separator
Plain-cons c s hc hs = or_false (is_separator (code c)) (has_separator s) hc hs

after_last-Plain : (s : String) → Plain (after_last s)
unfolding after_last has_separator
after_last-Plain String.[] = refl
after_last-Plain (String.◌∷◌ c s) = ground (arith, after_last-Plain s)

one_of :
    (b : Bool) (c : Char)
    → is_separator (code c) ≡ false
    → is_separator (code (if b then "_" else c)) ≡ false
one_of true c h = refl
one_of false c h = h

cleaned-Plain : (s : String) → Plain s → Plain (cleaned s)
unfolding cleaned
cleaned-Plain String.[] h = h
cleaned-Plain (String.◌∷◌ c s) h =
    let (hc, hs) = Plain-tail c s h in
    if-Plain (is_js_control (code c)) _ _ (cleaned-Plain s hs) (
      Plain-cons (replaced c) (cleaned s) (one_of (is_reserved (code c)) c hc) (cleaned-Plain s hs))

trim_start-Plain : (s : String) → Plain s → Plain (trim_start s)
unfolding trim_start
trim_start-Plain String.[] h = h
trim_start-Plain (String.◌∷◌ c s) h =
    if-Plain (is_whitespace (code c)) _ _ (trim_start-Plain s (Plain-tail c s h).1) h

empty-Plain : Plain ""
unfolding has_separator
empty-Plain = refl

trim_end-Plain : (s : String) → Plain s → Plain (trim_end s)
unfolding trim_end
trim_end-Plain String.[] h = h
trim_end-Plain (String.◌∷◌ c s) h =
    let (hc, hs) = Plain-tail c s h in
    if-Plain (is_whitespace (code c) && is_blank s) _ _ empty-Plain
      (Plain-cons c (trim_end s) hc (trim_end-Plain s hs))

strip-Plain : (s : String) → Plain s → Plain (strip_trailing_dots_and_spaces s)
unfolding strip_trailing_dots_and_spaces
strip-Plain String.[] h = h
strip-Plain (String.◌∷◌ c s) h =
    let (hc, hs) = Plain-tail c s h in
    if-Plain (is_dot_or_space (code c) && all_dots_and_spaces s) _ _ empty-Plain
      (Plain-cons c (strip_trailing_dots_and_spaces s) hc (strip-Plain s hs))

guarded-Plain : (s : String) → Plain s → Plain (guarded s)
guarded-Plain s h = if-Plain (is_windows_device_name s) _ _ (Plain-cons "_" s refl h) h

utf8_prefix-Plain : (max : ℕ) (s : String) → Plain s → Plain (utf8_prefix max s)
unfolding utf8_prefix
utf8_prefix-Plain max String.[] h = h
utf8_prefix-Plain max (String.◌∷◌ c s) h =
    let (hc, hs) = Plain-tail c s h in
    if-Plain (leb (width (code c)) max) _ _
      (Plain-cons c _ hc (utf8_prefix-Plain (max - width (code c)) s hs)) empty-Plain

or_file-Plain : (s : String) → Plain s → Plain (or_file s)
unfolding has_separator
or_file-Plain s h = if-Plain (str_eq s "" || (str_eq s "." || str_eq s "..")) _ _ refl h

utf8_prefix-le : (max : ℕ) (s : String) → byte_len (utf8_prefix max s) ≤ max
unfolding utf8_prefix byte_len
utf8_prefix-le max String.[] = omega arith
utf8_prefix-le max (String.◌∷◌ c s) =
    if-le (leb (width (code c)) max) _ _ max
      (λ e. omega (arith, leb→le (width (code c)) max e, utf8_prefix-le (max - width (code c)) s))
      (λ _. omega arith)

strip-le : (s : String) → byte_len (strip_trailing_dots_and_spaces s) ≤ byte_len s
unfolding strip_trailing_dots_and_spaces byte_len
strip-le String.[] = omega arith
strip-le (String.◌∷◌ c s) =
    if-le (is_dot_or_space (code c) && all_dots_and_spaces s) _ _ _ (λ _. omega arith)
      (λ _. omega (arith, strip-le s))

or_file-le : (s : String) → byte_len s ≤ 255 → byte_len (or_file s) ≤ 255
unfolding byte_len
or_file-le s h =
    if-le (str_eq s "" || (str_eq s "." || str_eq s "..")) _ _ 255 (λ _. omega arith) (λ _. h)

apart : (b : Bool) (s t : String) → "file" ≢ t → (b ≡ false → s ≢ t) → (if b then "file" else s) ≢ t
apart true s t n h = n
apart false s t n h = h refl

abbrev fallback : String
fallback = "file"

file-ne : (fallback ≢ "") × (fallback ≢ ".") × (fallback ≢ "..")
file-ne = (
  (λ e. ground (arith, (eq_iff fallback "").1 e)),
  (λ e. ground (arith, (eq_iff fallback ".").1 e)),
  λ e. ground (arith, (eq_iff fallback "..").1 e),
)

or_file-ne : (s : String) → (or_file s ≢ "") × (or_file s ≢ ".") × (or_file s ≢ "..")
or_file-ne s =
    let b = str_eq s "" || (str_eq s "." || str_eq s "..") in
    (
      apart b s "" file-ne.0 (λ e q. ground (arith, eq_iff s "")),
      apart b s "." file-ne.1 (λ e q. ground (arith, eq_iff s ".")),
      apart b s ".." file-ne.2 (λ e q. ground (arith, eq_iff s "..")),
    )

-- An uploaded file is stored under a name that is not empty, not `.` or `..`, holds no separator of
-- paths, and takes 255 bytes at most, whatever name the client gives or none.
pub file_leaf_name_lem :
    (value : Option String)
    → (file_leaf_name value ≢ "")
      × (file_leaf_name value ≢ ".")
      × (file_leaf_name value ≢ "..")
      × (has_separator (file_leaf_name value) ≡ false)
      × (byte_len (file_leaf_name value) ≤ 255)
unfolding file_leaf_name has_separator byte_len
file_leaf_name_lem none = (file-ne.0, file-ne.1, file-ne.2, refl, omega arith)
file_leaf_name_lem (some value) =
    let base = strip_trailing_dots_and_spaces (trim (cleaned (after_last value))) in
    let plain =
      strip-Plain _
        (trim_end-Plain _ (trim_start-Plain _ (cleaned-Plain _ (after_last-Plain value)))) in
    let name = utf8_prefix 255 (guarded base) in
    let (n1, n2, n3) = or_file-ne (shortened (guarded base)) in
    (
      n1,
      n2,
      n3,
      or_file-Plain (shortened (guarded base))
          (strip-Plain name (utf8_prefix-Plain 255 _ (guarded-Plain base plain))),
      or_file-le (shortened (guarded base))
          (omega (arith, strip-le name, utf8_prefix-le 255 (guarded base))),
    )
