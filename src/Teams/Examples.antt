-- ===== src/Teams/Examples.antt =====
-- Boards of three tasks (rust/crates/vocoderd/src/machines/agent_teams.rs).
use dsh_rs.Base.{
  ℕ, ◌≡◌, ◌≢◌, ◌⊎◌, refl, String, none, some, List, [], ◌∷◌, ok, arith, u64_succ, Bool-cases,
  str_eq, inl, inr,
}
use dsh_rs.Base.Dict.{lookup}
use dsh_rs.Json.{Value, json, string, u64, array, to_items, unwrap_or, get_as, as_u64}
use dsh_rs.Router.Messages.{MachineIn}
use dsh_rs.Teams.{Task, Board, AgentTeams, is_blank}
use dsh_rs.Teams.Cycle.{find_cycle, find_cycle_with, walk, walk_deps}
use dsh_rs.Teams.Cycle.Decides.{LeadsBack, find_cycle_cases}
use dsh_rs.Teams.Update.{change, act, edit, handle}
use dsh_rs.Teams.Boards.{IsValid, IsFresh, handle-IsValid}
use dsh_rs.Teams.Idle.{IsIdle, AllIdle, handle-AllIdle}
use dsh_rs.Teams.Gate.{change_gated}

abbrev task : String → List String → Task
task id blocked_by = record {
  id = id;
  revision = 1;
  subject = "subject";
  description = "";
  status = "pending";
  blocked_by = blocked_by;
  write_scopes = [];
  owner = none;
}

-- `c` waits for `b`, which waits for `a`.
abbrev chain : Board
chain = ("a", task "a" []) ∷ ("b", task "b" ("a" ∷ [])) ∷ ("c", task "c" ("b" ∷ [])) ∷ []

find_cycle-back : find_cycle chain "a" ("c" ∷ []) ≡ some (some "a")
unfolding find_cycle find_cycle_with walk walk_deps lookup
find_cycle-back = refl

find_cycle_cases_example :
    ((find_cycle chain "a" ("c" ∷ []) ≡ some (some "a")) × LeadsBack chain "a" ("c" ∷ []))
    ⊎ ((find_cycle chain "a" ("c" ∷ []) ≡ some none) × (¬ LeadsBack chain "a" ("c" ∷ [])))
find_cycle_cases_example = find_cycle_cases chain "a" ("c" ∷ [])

abbrev one_team : AgentTeams
one_team = record { boards = ("lead", chain) ∷ [] }

abbrev arguments : ℕ → Value
arguments expected = json (
    ("agentId", string "lead")
    ∷ (
      "request",
      json (
          ("taskId", string "b")
          ∷ ("expectedRevision", u64 expected)
          ∷ ("action", string "edit")
          ∷ ("subject", string "renamed")
          ∷ []),
    )
    ∷ [])

abbrev request : Value
request = json (
    ("taskId", string "b")
    ∷ ("expectedRevision", u64 1)
    ∷ ("action", string "edit")
    ∷ ("subject", string "renamed")
    ∷ [])

abbrev renamed : Task
renamed = record (task "b" ("a" ∷ [])) { revision = 2; subject = "renamed" }

change-renamed : change one_team "lead" request ≡ ok ("b", renamed)
unfolding change act edit lookup u64_succ is_blank
change-renamed = refl

change_gated_example :
    (board : Board) × (current : Task) × (lookup "lead" one_team.boards ≡ some board)
    × (lookup "b" board ≡ some current)
    × (get_as as_u64 request "expectedRevision" ≡ some current.revision)
    × (renamed.revision ≡ u64_succ current.revision)
    × (renamed.id ≡ current.id)
change_gated_example = change_gated one_team "lead" "b" request renamed change-renamed

lead_board : lookup "lead" one_team.boards ≡ some chain
unfolding lookup
lead_board = refl

b_task : lookup "b" chain ≡ some (task "b" ("a" ∷ []))
unfolding lookup
b_task = refl

stale : (task "b" ("a" ∷ [])).revision ≢ 4
stale = omega arith

-- `a` and `b` are free; the call makes `b` wait for `a`.
abbrev free_board : Board
free_board = ("a", task "a" []) ∷ ("b", task "b" []) ∷ []

abbrev free_team : AgentTeams
free_team = record { boards = ("lead", free_board) ∷ [] }

abbrev wait : MachineIn
wait = MachineIn.event "vocoder/agentTeams/call" (
    json (
      ("method", string "updateTask")
      ∷ (
        "args",
        json (
            ("agentId", string "lead")
            ∷ (
              "request",
              json (
                  ("taskId", string "b")
                  ∷ ("expectedRevision", u64 1)
                  ∷ ("action", string "set_dependencies")
                  ∷ ("blockedBy", array (to_items (string "a" ∷ [])))
                  ∷ []),
            )
            ∷ []),
      )
      ∷ []))

free_task : (a : String) (t : Task) → lookup a free_board ≡ some t → t.blocked_by ≡ []
unfolding lookup
free_task a t l = ground arith

free_team_task :
    (team a : String) (t : Task)
    → lookup a (unwrap_or (lookup team free_team.boards) []) ≡ some t
    → t.blocked_by ≡ []
unfolding lookup
free_team_task team a t l = elim (Bool-cases (str_eq "lead" team)) [
  | inl same ↦ free_task a t cc
  | inr apart ↦ cc
]

free_team-IsValid : IsValid free_team
free_team-IsValid team a b (t, l, m) p = cc (free_team_task team a t l, m)

free_team-IsFresh : IsFresh free_team "task-1"
free_team-IsFresh team a t l = cc (free_team_task team a t l)

handle-IsValid_example : IsValid (handle free_team "1" wait).1
handle-IsValid_example = handle-IsValid free_team "1" wait free_team-IsValid free_team-IsFresh refl

-- An edit of `b` on the board of three tasks.
abbrev rename : MachineIn
rename =
    MachineIn.event "vocoder/agentTeams/call"
      (json (("method", string "updateTask") ∷ ("args", arguments 1) ∷ []))

chain-IsIdle : (a : String) (t : Task) → lookup a chain ≡ some t → IsIdle t
unfolding lookup
chain-IsIdle a t l = ground arith

one_team-AllIdle : AllIdle one_team
unfolding lookup
one_team-AllIdle team a t l = elim (Bool-cases (str_eq "lead" team)) [
  | inl same ↦ chain-IsIdle a t cc
  | inr apart ↦ cc
]

handle-AllIdle_example : AllIdle (handle one_team "1" rename).1
handle-AllIdle_example = handle-AllIdle one_team "1" rename one_team-AllIdle
