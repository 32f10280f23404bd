-- ===== src/Tool/Read.antt =====
-- The `read` tool: its window on a file's lines,
-- (rust/crates/vocoderd/src/machines/tool.rs).
use Prim.Native.Char.{code}
use dsh_rs.Base.{
  ℕ, String, concat, Option, none, some, Bool, false, ◌||◌, Result, ok, err, ◌>>=◌, str_eq, ◌==◌,
  ltb, leb, if◌then◌else◌, show,
}
use dsh_rs.Base.Text.{ends_in}
use dsh_rs.Json.{Fields, lookup, as_u64}
use dsh_rs.Teams.{is_blank}
use dsh_rs.Tool.{Arguments, as_object, text_arg}

abbrev pub read_limit : ℕ
read_limit = 2000

abbrev pub read_max_line_length : ℕ
read_max_line_length = 2000

abbrev pub read_max_bytes : ℕ
read_max_bytes = 51200

abbrev is_absolute : String → Bool
is_absolute String.[] = false
is_absolute (String.◌∷◌ c s) = code c == b'/'

-- `PathBuf::join` leaves out the separator after one.
unfoldable pub display_path : String → String → String
unfolding ends_in
display_path root raw =
    if is_absolute raw
    then raw
    else if str_eq root "" || ends_in b'/' root
    then concat root raw
    else concat root (concat "/" raw)

abbrev positive_number : String → Option ℕ → Result String ℕ
positive_number key none = err (concat key " must be a positive integer")
positive_number key (some n) =
    if leb 1 n then ok n else err (concat key " must be a positive integer")

abbrev pub positive : Fields → String → ℕ → Result String ℕ
positive args key default = elim (lookup key args) [
  | none ↦ ok default
  | some v ↦ positive_number key (as_u64 v)
]

pub record ReadWindow : Type 0 where
  pub path : String
  pub offset : ℕ
  pub limit : ℕ

abbrev pub required {ℓ} : {A : Type ℓ} → Option A → String → Result String A
required none message = err message
required (some a) message = ok a

-- The text of `file_path`, which is more than blanks.
abbrev pub file_path : Arguments → Result String (Fields × String)
file_path arguments = do
  args ← required (as_object arguments) "invalid arguments: expected an object"
  raw ← required (text_arg args "file_path") "file_path must be a non-empty string"
  if is_blank raw then err "file_path must be a non-empty string" else ok (args, raw)

unfoldable pub read_window : Arguments → String → Result String ReadWindow
read_window arguments root = do
  (args, raw) ← file_path arguments
  offset ← positive args "offset" 1
  limit ← positive args "limit" read_limit
  if ltb read_limit limit
      then err (concat "limit must be less than or equal to " (show read_limit))
      else ok (record { path = display_path root raw; offset = offset; limit = limit })
