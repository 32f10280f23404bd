-- ===== src/Teams/Gate.antt =====
-- The compare-and-set gate of a board
-- (rust/crates/vocoderd/src/machines/agent_teams.rs).
use dsh_rs.Base.{
  ℕ, ◌≡◌, ◌≢◌, refl, sym, ap, ◌∙◌, subst, String, some, false, ok, err, >>=-eq-ok, ok-injective,
  ◌==◌, u64_succ, arith,
}
use dsh_rs.Base.Dict.{lookup}
use dsh_rs.Json.{Value, get_as, as_str, as_u64, unwrap_or}
use dsh_rs.Teams.{AgentTeams, team_of, or_reject, business_error, Task, Board}
use dsh_rs.Teams.Update.{request_of, check_revision, act, change, updated, update_for, update_task}
use dsh_rs.Teams.Acyclic.{act-Acted}
use dsh_rs.Teams.Boards.{some_of}

revision_of :
    (current : Task) (expected : ℕ)
    → check_revision current expected ≡ ok tt
    → current.revision ≡ expected
revision_of current expected e = ground arith

-- A change is only made at the revision that the request expects: the task stands on the team's
-- board at that revision, and what replaces it has the same id and the next revision.
pub change_gated :
    (m : AgentTeams) (team id : String) (req : Value) (t : Task)
    → change m team req ≡ ok (id, t)
    → (board : Board) × (current : Task) × (lookup team m.boards ≡ some board)
      × (lookup id board ≡ some current)
      × (get_as as_u64 req "expectedRevision" ≡ some current.revision)
      × (t.revision ≡ u64_succ current.revision)
      × (t.id ≡ current.id)
unfolding change
change_gated m team id req t e =
    let (task_id, _, e1) = >>=-eq-ok (or_reject (get_as as_str req "taskId") _) _ e in
    let (expected, wanted, e2) =
      >>=-eq-ok (or_reject (get_as as_u64 req "expectedRevision") _) _ e1 in
    let (board, at_team, e3) = >>=-eq-ok (or_reject (lookup team m.boards) _) _ e2 in
    let (current, at_task, e4) = >>=-eq-ok (or_reject (lookup task_id board) _) _ e3 in
    let (_, checked, e5) = >>=-eq-ok (check_revision current expected) _ e4 in
    let bumped : Task = record current { revision = u64_succ current.revision } in
    let (next, acted, e6) =
      >>=-eq-ok (act board task_id current bumped (unwrap_or (get_as as_str req "action") "") req) _
        e5 in
    let made = ok-injective e6 in
    let ((named, revised), _) = act-Acted board task_id current bumped next _ req acted in
    (
      board,
      current,
      some_of _ board _ at_team,
      subst (λ z. lookup z board ≡ some current) (ap (λ r. r.0) made) (some_of _ current _ at_task),
      some_of _ expected _ wanted ∙ ap some (sym (revision_of current expected checked)),
      ap (λ (r : String × Task). r.1.revision) (sym made) ∙ revised,
      ap (λ (r : String × Task). r.1.id) (sym made) ∙ named,
    )

change_stale :
    (m : AgentTeams) (team id : String) (req : Value) (expected : ℕ) (board : Board)
    (current : Task)
    → get_as as_str req "taskId" ≡ some id
    → get_as as_u64 req "expectedRevision" ≡ some expected
    → lookup team m.boards ≡ some board
    → lookup id board ≡ some current
    → current.revision ≢ expected
    → change m team req ≡ err (business_error "team-task-conflict" "the task revision is stale")
unfolding change
change_stale m team id req expected board current i x b c n =
    let differ : (current.revision == expected) ≡ false = ground arith in
    rw (i, x, b, c, differ) refl

-- A request that expects another revision of a task is answered with a conflict, and changes
-- nothing.
pub update_task_stale :
    (m : AgentTeams) (args : Value) (team id : String) (expected : ℕ) (board : Board)
    (current : Task)
    → team_of args ≡ ok team
    → get_as as_str (request_of args) "taskId" ≡ some id
    → get_as as_u64 (request_of args) "expectedRevision" ≡ some expected
    → lookup team m.boards ≡ some board
    → lookup id board ≡ some current
    → current.revision ≢ expected
    → update_task m args ≡ (business_error "team-task-conflict" "the task revision is stale", m)
unfolding update_task
update_task_stale m args team id expected board current t i x b c n =
    ap (update_for m (request_of args)) t
    ∙ ap (updated m team)
        (change_stale m team id (request_of args) expected board current i x b c n)
