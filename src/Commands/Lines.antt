-- ===== src/Commands/Lines.antt =====
-- Which lines are commands (rust/crates/vocoderd/src/machines/commands.rs).
use dsh_rs.Base.{◌≡◌, String, concat, true}
use dsh_rs.Commands.Parse.{is_command_name, ParsedCommand, at_boundary}

abbrev joined : String × String → String
joined r = concat r.0 r.1

-- A line made of a slash, a command's name and its input.
abbrev pub line_of : ParsedCommand → String
line_of p = String.◌∷◌ "/" (concat p.name p.raw_input)

abbrev IsLine : String → ParsedCommand → Type 0
IsLine rest p =
    (rest ≡ concat p.name p.raw_input)
    × (is_command_name p.name ≡ true)
    × (at_boundary p.raw_input ≡ true)
