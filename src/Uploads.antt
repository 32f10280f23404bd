-- ===== src/Uploads.antt =====
-- The name that an uploaded file is stored under
-- (rust/crates/vocoderd/src/machines/file_uploads.rs).
pub mod Names
mod Examples
use Prim.Native.Char.{Char, code}
use dsh_rs.Base.{
  ℕ, ◌+◌, ◌-◌, String, Option, none, some, Bool, true, false, ◌||◌, ◌&&◌, not, ◌==◌, leb, str_eq,
  if◌then◌else◌,
}
use dsh_rs.Commands.Parse.{trim}
use dsh_rs.Tool.Page.{width}

abbrev pub is_separator : ℕ → Bool
is_separator c = c == b'/' || c == 92

unfoldable pub has_separator : String → Bool
has_separator String.[] = false
has_separator (String.◌∷◌ c s) = is_separator (code c) || has_separator s

-- What follows the last `/` or `\`, or the whole.
unfoldable pub after_last : String → String
unfolding has_separator
after_last String.[] = ""
after_last (String.◌∷◌ c s) =
    let deeper = after_last s in
    if has_separator s then deeper else if is_separator (code c) then s else String.◌∷◌ c s

abbrev pub is_js_control : ℕ → Bool
is_js_control n = leb n 31 || n == 127

-- `<`, `>`, `:`, `"`, `|`, `?` and `*`
abbrev pub is_reserved : ℕ → Bool
is_reserved n =
    n == b'<' || (n == b'>' || (n == b':' || (n == 34 || (n == b'|' || (n == b'?' || n == b'*')))))

abbrev pub replaced : Char → Char
replaced c = if is_reserved (code c) then "_" else c

unfoldable pub cleaned : String → String
cleaned String.[] = ""
cleaned (String.◌∷◌ c s) =
    let rest = cleaned s in if is_js_control (code c) then rest else String.◌∷◌ (replaced c) rest

abbrev pub is_dot_or_space : ℕ → Bool
is_dot_or_space n = n == b'.' || n == b' '

unfoldable pub all_dots_and_spaces : String → Bool
all_dots_and_spaces String.[] = true
all_dots_and_spaces (String.◌∷◌ c s) = is_dot_or_space (code c) && all_dots_and_spaces s

unfoldable pub strip_trailing_dots_and_spaces : String → String
unfolding all_dots_and_spaces
strip_trailing_dots_and_spaces String.[] = ""
strip_trailing_dots_and_spaces (String.◌∷◌ c s) =
    let rest = strip_trailing_dots_and_spaces s in
    if is_dot_or_space (code c) && all_dots_and_spaces s then "" else String.◌∷◌ c rest

unfoldable pub before_dot : String → String
before_dot String.[] = ""
before_dot (String.◌∷◌ c s) =
    let rest = before_dot s in if code c == b'.' then "" else String.◌∷◌ c rest

-- `n.to_ascii_lowercase()`
abbrev lower : ℕ → ℕ
lower n = if leb b'A' n && leb n b'Z' then n + 32 else n

-- What follows a name in small letters, however it is written.
unfoldable pub after_name : String → String → Option String
after_name String.[] s = some s
after_name (String.◌∷◌ c name) String.[] = none
after_name (String.◌∷◌ c name) (String.◌∷◌ d s) =
    let rest = after_name name s in if lower (code d) == code c then rest else none

abbrev is_exactly : Option String → Bool
is_exactly none = false
is_exactly (some s) = str_eq s ""

abbrev is_digit_left : Option String → Bool
is_digit_left none = false
is_digit_left (some String.[]) = false
is_digit_left (some (String.◌∷◌ c String.[])) = leb b'1' (code c) && leb (code c) b'9'
is_digit_left (some (String.◌∷◌ c (String.◌∷◌ d s))) = false

abbrev is_device_stem : String → Bool
is_device_stem stem =
    is_exactly (after_name "con" stem)
    || (is_exactly (after_name "prn" stem)
        || (is_exactly (after_name "aux" stem)
            || (is_exactly (after_name "nul" stem)
                || (is_digit_left (after_name "com" stem)
                    || is_digit_left (after_name "lpt" stem)))))

unfoldable pub is_windows_device_name : String → Bool
unfolding after_name
is_windows_device_name name = is_device_stem (strip_trailing_dots_and_spaces (before_dot name))

-- As many characters as `max` bytes hold.
unfoldable pub utf8_prefix : ℕ → String → String
utf8_prefix max String.[] = ""
utf8_prefix max (String.◌∷◌ c s) =
    let rest = utf8_prefix (max - width (code c)) s in
    if leb (width (code c)) max then String.◌∷◌ c rest else ""

abbrev pub guarded : String → String
guarded s = if is_windows_device_name s then String.◌∷◌ "_" s else s

abbrev pub or_file : String → String
or_file s = if str_eq s "" || (str_eq s "." || str_eq s "..") then "file" else s

abbrev pub shortened : String → String
shortened s = strip_trailing_dots_and_spaces (utf8_prefix 255 s)

unfoldable pub file_leaf_name : Option String → String
file_leaf_name none = "file"
file_leaf_name (some value) =
    or_file
      (shortened (guarded (strip_trailing_dots_and_spaces (trim (cleaned (after_last value))))))
