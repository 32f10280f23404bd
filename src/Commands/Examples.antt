-- ===== src/Commands/Examples.antt =====
-- `/goal ship it` typed, and the goal that the commands machine then knows
-- (rust/crates/vocoderd/src/machines/commands.rs).
use dsh_rs.Base.{◌≡◌, refl, some, [], ◌∷◌}
use dsh_rs.Base.Dict.{lookup}
use dsh_rs.Json.{string, json}
use dsh_rs.Router.Messages.{MachineIn}
use dsh_rs.Goals.{handle as goals_handle}
use dsh_rs.Commands.Parse.{
  GoalVerb, ParsedCommand, is_command_name, all_name_chars, split_name, parse_command,
  parse_goal_input, trim_start, trim_end, split_once,
}
use dsh_rs.Commands.Mirror.{Mirrors, deliver, handle-Mirrors}
use dsh_rs.Teams.{is_blank}

abbrev goal_line : ParsedCommand
goal_line = record { name = "goal"; raw_input = " ship it" }

parsed : parse_command "/goal ship it" ≡ some goal_line
unfolding parse_command split_name is_command_name all_name_chars
parsed = refl

verb : parse_goal_input "  edit  ship it " ≡ GoalVerb.edit "ship it"
unfolding parse_goal_input trim_start trim_end split_once is_blank
verb = refl

abbrev create : MachineIn
create = MachineIn.event "vocoder/goals/call" (
    json (
      ("method", string "create")
      ∷ (
        "args",
        json (
            ("agentId", string "a-1")
            ∷ ("request", json (("objective", string "ship it") ∷ []))
            ∷ []),
      )
      ∷ []))

nothing-Mirrors : Mirrors [] []
unfolding lookup
nothing-Mirrors agent n = refl

handle-Mirrors_example :
    Mirrors (deliver [] (goals_handle [] create "7" 5).0 "c-1") (goals_handle [] create "7" 5).1
handle-Mirrors_example = handle-Mirrors [] [] create "7" 5 "c-1" nothing-Mirrors
