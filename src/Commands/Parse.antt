-- ===== src/Commands/Parse.antt =====
-- A line that is a command, and what follows `/goal`
-- (rust/crates/vocoderd/src/machines/commands.rs).
use Prim.Native.Char.{Char, code}
use dsh_rs.Base.{
  ℕ, String, Option, none, some, Bool, true, false, ◌||◌, ◌&&◌, not, str_eq, ◌==◌, leb,
  if◌then◌else◌,
}
use dsh_rs.Teams.{is_whitespace, is_blank}

abbrev pub is_lower : ℕ → Bool
is_lower c = leb b'a' c && leb c b'z'

abbrev pub is_name_char : ℕ → Bool
is_name_char c = is_lower c || ((leb b'0' c && leb c b'9') || ((c == b'_') || (c == b'-')))

unfoldable pub all_name_chars : String → Bool
all_name_chars String.[] = true
all_name_chars (String.◌∷◌ c s) = is_name_char (code c) && all_name_chars s

unfoldable pub is_command_name : String → Bool
unfolding all_name_chars
is_command_name String.[] = false
is_command_name (String.◌∷◌ c s) = is_lower (code c) && all_name_chars s

pub record ParsedCommand : Type 0 where
  pub name : String
  pub raw_input : String

-- `rest.split_at(end)`, the end being before the first character that no name holds.
unfoldable pub split_name : String → String × String
split_name String.[] = ("", "")
split_name (String.◌∷◌ c s) =
    let (name, tail) = split_name s in
    if is_name_char (code c) then (String.◌∷◌ c name, tail) else ("", String.◌∷◌ c s)

abbrev pub at_boundary : String → Bool
at_boundary String.[] = true
at_boundary (String.◌∷◌ c s) = is_whitespace (code c)

abbrev pub of_split : String × String → Option ParsedCommand
of_split (name, tail) =
    if is_command_name name && at_boundary tail
    then some (record { name = name; raw_input = tail })
    else none

unfoldable pub parse_command : String → Option ParsedCommand
unfolding split_name is_command_name
parse_command String.[] = none
parse_command (String.◌∷◌ c rest) = if code c == b'/' then of_split (split_name rest) else none

pub data GoalVerb : Type 0 where
  view : GoalVerb
  clear : GoalVerb
  pause : GoalVerb
  resume : GoalVerb
  edit : String → GoalVerb
  set : String → GoalVerb

-- `s.trim()`
unfoldable pub trim_start : String → String
trim_start String.[] = ""
trim_start (String.◌∷◌ c s) =
    let rest = trim_start s in if is_whitespace (code c) then rest else String.◌∷◌ c s

unfoldable pub trim_end : String → String
unfolding is_blank
trim_end String.[] = ""
trim_end (String.◌∷◌ c s) =
    if is_whitespace (code c) && is_blank s then "" else String.◌∷◌ c (trim_end s)

abbrev pub trim : String → String
trim s = trim_end (trim_start s)

abbrev past : Char → Option (String × String) → Option (String × String)
past c none = none
past c (some (s, t)) = some (String.◌∷◌ c s, t)

-- `s.split_once(char::is_whitespace)`
unfoldable pub split_once : String → Option (String × String)
split_once String.[] = none
split_once (String.◌∷◌ c s) =
    let rest = split_once s in if is_whitespace (code c) then some ("", s) else past c rest

abbrev pub of_words : String → Option (String × String) → GoalVerb
of_words trimmed none = GoalVerb.set trimmed
of_words trimmed (some (word, rest)) =
    if str_eq word "edit" && not (is_blank rest)
    then GoalVerb.edit (trim rest)
    else if str_eq word "clear" || (str_eq word "pause" || str_eq word "resume")
    then GoalVerb.view
    else GoalVerb.set trimmed

abbrev pub of_trimmed : String → GoalVerb
of_trimmed trimmed =
    if str_eq trimmed ""
    then GoalVerb.view
    else if str_eq trimmed "clear"
    then GoalVerb.clear
    else if str_eq trimmed "pause"
    then GoalVerb.pause
    else if str_eq trimmed "resume"
    then GoalVerb.resume
    else of_words trimmed (split_once trimmed)

unfoldable pub parse_goal_input : String → GoalVerb
unfolding trim_start trim_end split_once is_blank
parse_goal_input raw = of_trimmed (trim raw)
