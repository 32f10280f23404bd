-- ===== src/Teams/Cycle.antt =====
-- `find_cycle`: the depth-first walk over the dependencies of a board
-- (rust/crates/vocoderd/src/machines/agent_teams.rs).

pub mod Search
pub mod Fuel
pub mod Decides
use dsh_rs.Base.{
  ℕ, zero, suc, String, Option, none, some, List, [], ◌∷◌, ◌++◌, and_then, length, str_eq,
  if◌then◌else◌,
}
use dsh_rs.Base.Dict.{lookup}
use dsh_rs.Teams.{Board, member}

-- The task that was found, and the tasks that were seen.
abbrev pub Found : Type 0
Found = Option String × List String

-- One dependency after the other, until one finds the target.
unfoldable pub walk_deps :
    (String → List String → Option Found) → List String → List String → Option Found
walk_deps visit [] seen = some (none, seen)
walk_deps visit (dep ∷ deps) seen = and_then (visit dep seen) λ (found, seen'). elim found [
  | some id ↦ some (some id, seen')
  | none ↦ walk_deps visit deps seen'
]

-- `fuel` bounds the depth of the recursion, and `none` says that it is used up.
unfoldable pub walk : ℕ → Board → String → String → List String → Option Found
walk zero board target at seen = none
walk (suc fuel) board target at seen =
    let seen' = seen ++ at ∷ [] in
    let deeper : Option Found = elim (lookup at board) [
      | none ↦ some (none, seen')
      | some t ↦ walk_deps (walk fuel board target) t.blocked_by seen'
    ] in
    if str_eq at target
    then some (some at, seen)
    else if member at seen
    then some (none, seen)
    else deeper

-- Each new dependency is walked with nothing seen.
unfoldable pub find_cycle_with : ℕ → Board → String → List String → Option (Option String)
find_cycle_with fuel board task_id [] = some none
find_cycle_with fuel board task_id (dep ∷ deps) =
    and_then (walk fuel board task_id dep []) λ (found, _). elim found [
      | some id ↦ some (some id)
      | none ↦ find_cycle_with fuel board task_id deps
    ]

-- A walk enters a task of the board once, so it nests one level deeper than there are tasks.
unfoldable pub find_cycle : Board → String → List String → Option (Option String)
find_cycle board task_id blocked_by = find_cycle_with (suc (length board)) board task_id blocked_by
