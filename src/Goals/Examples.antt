-- ===== src/Goals/Examples.antt =====
-- One agent's goal, edited with no objective (rust/crates/vocoderd/src/machines/goals.rs).
use dsh_rs.Base.{◌≡◌, refl, some, [], ◌∷◌}
use dsh_rs.Base.Dict.{lookup}
use dsh_rs.Json.{Value, string, json}
use dsh_rs.Router.Messages.{MachineIn}
use dsh_rs.Goals.{GoalRecord, Goals, created, handle}
use dsh_rs.Goals.Steps.{IsTold, handle-IsTold}

abbrev ship : GoalRecord
ship = created "goal-1" "ship" 0

abbrev one_goal : Goals
one_goal = ("a-1", ship) ∷ []

abbrev args : Value
args = json (("agentId", string "a-1") ∷ [])

abbrev pause : MachineIn
pause =
    MachineIn.event "vocoder/goals/call" (json (("method", string "pause") ∷ ("args", args) ∷ []))

handle-IsTold_example : IsTold "2" "a-1" one_goal (handle one_goal pause "2" 5)
handle-IsTold_example = handle-IsTold one_goal pause "2" 5

ship-found : lookup "a-1" one_goal ≡ some ship
unfolding lookup
ship-found = refl
