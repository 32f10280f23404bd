-- ===== src/Generation.antt =====
-- Generation names of the session log (rust/crates/vocoder-session/src/lib.rs). A file name is the
-- list of its bytes.
mod Examples
pub mod Names
pub mod Latest
pub mod Migration
pub mod Compose
use Prim.Native.Char.{code}
use mathlib.Core.List.{reverse}
use mathlib.Core.Option
use dsh_rs.Base.{
  and_then, ℕ, zero, suc, ◌+◌, ◌-◌, ◌^◌, String, Option, none, some, List, [], ◌∷◌, ◌++◌, map, Bool,
  true, false, not, ◌&&◌, ◌||◌, ◌==◌, ltb, leb, if◌then◌else◌, length, is_empty, digits, value, max,
}

abbrev pub u32_mod : ℕ
u32_mod = 2 ^ 32

abbrev pub Bytes : Type 0
Bytes = List ℕ

-- The bytes of an ASCII text.
abbrev pub codes : String → Bytes
codes String.[] = []
codes (String.◌∷◌ c s) = code c ∷ codes s

abbrev pub bytes_eq : Bytes → Bytes → Bool
bytes_eq [] [] = true
bytes_eq (a ∷ as') (b ∷ bs) = a == b && bytes_eq as' bs
bytes_eq _ _ = false

abbrev pub strip_prefix : Bytes → Bytes → Option Bytes
strip_prefix [] name = some name
strip_prefix (p ∷ ps) [] = none
strip_prefix (p ∷ ps) (c ∷ name) = if p == c then strip_prefix ps name else none

abbrev pub strip_suffix : Bytes → Bytes → Option Bytes
strip_suffix suffix name = Option.map reverse (strip_prefix (reverse suffix) (reverse name))

abbrev pub is_digit : ℕ → Bool
is_digit b = leb b'0' b && leb b b'9'

abbrev pub all_digits : Bytes → Bool
all_digits [] = true
all_digits (b ∷ bs) = is_digit b && all_digits bs

abbrev pub starts_with_zero : Bytes → Bool
starts_with_zero [] = false
starts_with_zero (b ∷ bs) = b == b'0'

-- `version.to_string()`
unfoldable pub decimal : ℕ → Bytes
decimal n = map (λ d. d + b'0') (digits n)

-- `str::parse::<u32>` of a text of digits: a number that does not fit is an error.
unfoldable pub parse_u32 : Bytes → Option ℕ
unfolding value
parse_u32 bs = let n = value (map (λ b. b - b'0') bs) in if ltb n u32_mod then some n else none

unfoldable pub generation_basename : ℕ → Bytes
generation_basename version =
    if version == 0 then codes "session" else codes "session.v" ++ decimal version

abbrev pub extension : Bool → Bytes
extension compressed = if compressed then codes ".jsonl.zstd" else codes ".jsonl"

unfoldable pub generation_filename : ℕ → Bool → Bytes
generation_filename version compressed = generation_basename version ++ extension compressed

-- The digits after `session.v`.
unfoldable pub parse_version : Bytes → Option ℕ
parse_version rest =
    if is_empty rest || not (all_digits rest)
    then none
    else if ltb 1 (length rest) && starts_with_zero rest
    then none
    else parse_u32 rest

abbrev pub parse_stem : Bytes → Option ℕ
parse_stem stem =
    if bytes_eq stem (codes "session")
    then some 0
    else and_then (strip_prefix (codes "session.v") stem) parse_version

abbrev pub or_else {ℓ} : {A : Type ℓ} → Option A → Option A → Option A
or_else none o = o
or_else (some a) _ = some a

unfoldable pub parse_generation_filename : Bytes → Option ℕ
parse_generation_filename name =
    and_then
      (or_else (strip_suffix (codes ".jsonl.zstd") name) (strip_suffix (codes ".jsonl") name))
      parse_stem

-- `BTreeSet::insert`: a set of versions is the list of its elements in increasing order.
abbrev pub insert : ℕ → List ℕ → List ℕ
insert v [] = v ∷ []
insert v (w ∷ ws) = if ltb v w then v ∷ w ∷ ws else if v == w then w ∷ ws else w ∷ insert v ws

abbrev pub note_version : Option ℕ → List ℕ → List ℕ
note_version none versions = versions
note_version (some v) versions = insert v versions

-- The committed generations among the entries of a directory.
unfoldable pub list_generations : List Bytes → List ℕ
list_generations [] = []
list_generations (name ∷ names) =
    note_version (parse_generation_filename name) (list_generations names)

abbrev pub max_of : List ℕ → Option ℕ
max_of [] = none
max_of (v ∷ vs) = some (elim (max_of vs) [ none ↦ v | some w ↦ max v w ])

unfoldable pub latest_generation : List Bytes → Option ℕ
unfolding list_generations
latest_generation names = max_of (list_generations names)
