-- ===== src/Teams/Update.antt =====
-- The calls that read and change a board
-- (rust/crates/vocoderd/src/machines/agent_teams.rs).
use dsh_rs.Base.{
  ℕ, String, concat, Option, none, some, List, [], ◌∷◌, map, Bool, not, ◌&&◌, ◌||◌, Result, ok, err,
  ◌>>=◌, length, str_eq, ◌==◌, leb, u64_succ, if◌then◌else◌,
}
use dsh_rs.Base.Dict.{lookup, insert}
use dsh_rs.Json.{Value, null, array, to_items, json, get, get_as, as_str, as_u64, unwrap_or}
use dsh_rs.Router.Messages.{MachineIn, MachineOut, RpcReply}
use dsh_rs.Teams.{
  max_tasks, Task, Board, AgentTeams, values, filter, member, has_key, to_view, replies,
  mutation_ok, business_error, rejected, or_reject, string_array, is_blank, team_of,
}
use dsh_rs.Teams.Cycle.{find_cycle}

abbrev pub request_of : Value → Value
request_of args = unwrap_or (get args "request") null

abbrev is_live : Task → Bool
is_live t = not (str_eq t.status "deleted")

pub view : AgentTeams → Value → List MachineOut
unfolding to_view
view m args = elim (team_of args) [
  | err outs ↦ outs
  | ok team ↦
      let board = unwrap_or (lookup team m.boards) [] in
      replies (
        RpcReply.ok (
          json (
            ("members", array (to_items []))
            ∷ (
              "tasks",
              array (to_items (map (λ t. to_view t board) (filter is_live (values board)))),
            )
            ∷ [])))
]

abbrev unknown_dependency : String → String
unknown_dependency dep = concat "blockedBy names unknown task \"" (concat dep "\"")

-- Every dependency names a task of the board.
abbrev pub check_known : Board → List String → Result (List MachineOut) (Unit {0})
check_known board [] = ok tt
check_known board (dep ∷ deps) =
    if has_key dep board then check_known board deps else rejected (unknown_dependency dep)

abbrev check_room : Board → Result (List MachineOut) (Unit {0})
check_room board =
    if leb max_tasks (length (filter is_live (values board)))
    then rejected "the team has reached its task limit"
    else ok tt

-- What a team's board has to say of a new task; a team without one says nothing.
abbrev pub check_board : Option Board → List String → Result (List MachineOut) (Unit {0})
check_board none blocked_by = ok tt
check_board (some board) blocked_by = check_known board blocked_by >>= λ _. check_room board

abbrev pub non_blank : String → String → Result (List MachineOut) (Unit {0})
non_blank s message = if is_blank s then rejected message else ok tt

abbrev check_subject : Option String → Result (List MachineOut) (Unit {0})
check_subject none = ok tt
check_subject (some s) = non_blank s "subject must be non-empty"

-- A new task, whose id is given: `mint_id` reads the clock.
unfoldable pub new_task : AgentTeams → String → String → Value → Result (List MachineOut) Task
new_task m id team req = do
  subject ← or_reject (get_as as_str req "subject") "task subject is required"
  _ ← non_blank subject "task subject must be non-empty"
  let blocked_by = string_array (get req "blockedBy")
  _ ← check_board (lookup team m.boards) blocked_by
  ok (record {
    id = id;
    revision = 1;
    subject = subject;
    description = unwrap_or (get_as as_str req "description") "";
    status = "pending";
    blocked_by = blocked_by;
    write_scopes = string_array (get req "writeScopes");
    owner = none;
  })

-- Put a task on its team's board and render it from there.
unfoldable pub commit : AgentTeams → String → String → Task → List MachineOut × AgentTeams
unfolding to_view
commit m team id t =
    let board = insert id t (unwrap_or (lookup team m.boards) []) in
    (mutation_ok (to_view t board), record { boards = insert team board m.boards })

abbrev pub created_by :
    AgentTeams → String → Result (List MachineOut) Task → List MachineOut × AgentTeams
created_by m team (err outs) = (outs, m)
created_by m team (ok t) = commit m team t.id t

abbrev pub create_for :
    AgentTeams → String → Value → Result (List MachineOut) String → List MachineOut × AgentTeams
create_for m id req (err outs) = (outs, m)
create_for m id req (ok team) = created_by m team (new_task m id team req)

unfoldable pub create_task : AgentTeams → String → Value → List MachineOut × AgentTeams
create_task m id args = create_for m id (request_of args) (team_of args)

-- The new dependencies of a task: not itself, and tasks of the board.
abbrev pub check_others : Board → String → List String → Result (List MachineOut) (Unit {0})
check_others board task_id [] = ok tt
check_others board task_id (dep ∷ deps) =
    if str_eq dep task_id
    then rejected "a task cannot block on itself"
    else if has_key dep board
    then check_others board task_id deps
    else rejected (unknown_dependency dep)

abbrev pub check_cycle : Option (Option String) → Result (List MachineOut) (Unit {0})
check_cycle (some (some cycle)) =
    rejected (concat "dependency cycle through \"" (concat cycle "\""))
check_cycle _ = ok tt

unfoldable pub edit :
    Task → Option String → Option String → Option Value → Result (List MachineOut) Task
edit next none none none = rejected "task edit requires subject, description, or write_scopes"
edit next subject description scopes = do
  _ ← check_subject subject
  ok (record next {
    subject = unwrap_or subject next.subject;
    description = unwrap_or description next.description;
    write_scopes = elim scopes [ none ↦ next.write_scopes | some v ↦ string_array (some v) ];
  })

unfoldable pub set_dependencies :
    Board → String → Task → List String → Result (List MachineOut) Task
set_dependencies board task_id next blocked_by = do
  _ ← check_others board task_id blocked_by
  _ ← check_cycle (find_cycle board task_id blocked_by)
  ok (record next { blocked_by = blocked_by })

-- A live task, other than this one, that this one blocks.
abbrev blocks_on : String → Task → Bool
blocks_on task_id t = is_live t && not (str_eq t.id task_id) && member task_id t.blocked_by

abbrev first_of : (Task → Bool) → List Task → Option Task
first_of p [] = none
first_of p (t ∷ ts) = if p t then some t else first_of p ts

unfoldable pub delete : Board → String → Task → Result (List MachineOut) Task
delete board task_id next = elim (first_of (blocks_on task_id) (values board)) [
  | some dependent ↦
      rejected (concat "task \"" (concat dependent.id "\" still blocks on this task"))
  | none ↦ ok (record next { status = "deleted"; owner = none })
]

abbrev pub when : String → Task → String → Task → Result (List MachineOut) Task
when status current message next =
    if str_eq current.status status then ok next else rejected message

-- The task that an action makes of the current one; `next` is it at its next revision.
unfoldable pub act : Board → String → Task → Task → String → Value → Result (List MachineOut) Task
act board task_id current next action req =
    if str_eq action "claim" || str_eq action "reassign"
    then rejected "no live team members are available to own a task"
    else if str_eq action "release"
    then when "in_progress" current "only an in-progress task can be released"
        (record next { status = "pending"; owner = none })
    else if str_eq action "complete"
    then when "in_progress" current "only an in-progress task can be completed"
        (record next { status = "completed" })
    else if str_eq action "reopen"
    then when "completed" current "only a completed task can be reopened"
        (record next { status = "pending"; owner = none })
    else if str_eq action "edit"
    then edit next (get_as as_str req "subject") (get_as as_str req "description")
        (get req "writeScopes")
    else if str_eq action "set_dependencies"
    then set_dependencies board task_id next (string_array (get req "blockedBy"))
    else if str_eq action "delete"
    then delete board task_id next
    else rejected (concat "unsupported task action \"" (concat action "\""))

-- The compare-and-set gate.
abbrev pub check_revision : Task → ℕ → Result (List MachineOut) (Unit {0})
check_revision current expected =
    if current.revision == expected
    then ok tt
    else err (business_error "team-task-conflict" "the task revision is stale")

-- The change that a request asks of a team's boards.
unfoldable pub change : AgentTeams → String → Value → Result (List MachineOut) (String × Task)
change m team req = do
  task_id ← or_reject (get_as as_str req "taskId") "taskId is required"
  expected ← or_reject (get_as as_u64 req "expectedRevision") "expectedRevision is required"
  board ← or_reject (lookup team m.boards) "the team has no task board"
  current ← or_reject (lookup task_id board) (concat "unknown task \"" (concat task_id "\""))
  _ ← check_revision current expected
  next ←
      act board task_id current (record current { revision = u64_succ current.revision })
        (unwrap_or (get_as as_str req "action") "") req
  ok (task_id, next)

abbrev pub updated :
    AgentTeams → String → Result (List MachineOut) (String × Task) → List MachineOut × AgentTeams
updated m team (err outs) = (outs, m)
updated m team (ok (task_id, next)) = commit m team task_id next

abbrev pub update_for :
    AgentTeams → Value → Result (List MachineOut) String → List MachineOut × AgentTeams
update_for m req (err outs) = (outs, m)
update_for m req (ok team) = updated m team (change m team req)

unfoldable pub update_task : AgentTeams → Value → List MachineOut × AgentTeams
update_task m args = update_for m (request_of args) (team_of args)

unfoldable pub call : AgentTeams → String → String → Value → List MachineOut × AgentTeams
unfolding view
call m new_id method args =
    if str_eq method "view"
    then (view m args, m)
    else if str_eq method "createTask"
    then create_task m (concat "task-" new_id) args
    else if str_eq method "updateTask"
    then update_task m args
    else (
      replies (
          RpcReply.err "gateway/bad-request" (concat "unsupported agentTeams method: " method)
            none),
      m,
    )

-- `AgentTeamsMachine::handle`, given what `rpc::new_id` would answer.
unfoldable pub handle : AgentTeams → String → MachineIn → List MachineOut × AgentTeams
handle m new_id (MachineIn.event name payload) =
    let method = unwrap_or (get_as as_str payload "method") "" in
    let args = unwrap_or (get payload "args") null in
    let called = call m new_id method args in
    if str_eq name "vocoder/agentTeams/call" then called else ([], m)
handle m new_id _ = ([], m)
