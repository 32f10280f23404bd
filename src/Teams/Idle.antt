-- ===== src/Teams/Idle.antt =====
-- Without a roster no task is ever taken up (rust/crates/vocoderd/src/machines/agent_teams.rs).
use dsh_rs.Base.{
  ◌≡◌, ◌⊎◌, inl, inr, refl, sym, ap, ◌∙◌, subst, String, concat, Option, none, some, List, [], Bool,
  true, false, ◌||◌, Result, ok, err, >>=-eq-ok, ok-injective, if◌then◌else◌, str_eq, eq_iff,
  u64_succ, arith, Bool-cases,
}
use dsh_rs.Base.Dict.{lookup, insert, lookup-insert}
use dsh_rs.Json.{Value, null, get, get_as, as_str, as_u64, unwrap_or}
use dsh_rs.Router.Messages.{MachineIn, MachineOut}
use dsh_rs.Teams.{AgentTeams, team_of, or_reject, string_array, Task, Board}
use dsh_rs.Teams.Cycle.{find_cycle}
use dsh_rs.Teams.Update.{
  request_of, check_revision, check_board, check_others, check_cycle, non_blank, act, when, edit,
  set_dependencies, delete, change, commit, updated, update_for, update_task, new_task, create_for,
  created_by, create_task, call, handle,
}
use dsh_rs.Teams.Acyclic.{either}
use dsh_rs.Teams.Boards.{some_of}

-- A task that waits, or is deleted.
abbrev pub IsIdle : Task → Type 0
IsIdle t = (t.status ≡ "pending") ⊎ (t.status ≡ "deleted")

abbrev pub AllIdle : AgentTeams → Type 0
AllIdle m =
    (team id : String) (t : Task)
    → lookup id (unwrap_or (lookup team m.boards) []) ≡ some t
    → IsIdle t

when-IsIdle :
    (status : String) (current u t : Task) (message : String)
    → IsIdle current
    → (str_eq status "pending" ≡ false) × (str_eq status "deleted" ≡ false)
    → when status current message u ≡ ok t
    → IsIdle t
when-IsIdle status current u t message i n e =
    ground (arith, eq_iff current.status status, eq_iff status "pending", eq_iff status "deleted")

edit-IsIdle :
    (next t : Task) (subject description : Option String) (scopes : Option Value)
    → IsIdle next
    → edit next subject description scopes ≡ ok t
    → IsIdle t
unfolding edit
edit-IsIdle next t none none none i e = cc
edit-IsIdle next t subject description scopes i e = ground arith

delete-IsIdle :
    (board : Board) (id : String) (next t : Task) → delete board id next ≡ ok t → IsIdle t
unfolding delete
delete-IsIdle board id next t e = ground arith

set_dependencies-IsIdle :
    (board : Board) (id : String) (next t : Task) (deps : List String)
    → IsIdle next
    → set_dependencies board id next deps ≡ ok t
    → IsIdle t
unfolding set_dependencies
set_dependencies-IsIdle board id next t deps i e =
    let (_, _, rest) = >>=-eq-ok (check_others board id deps) _ e in
    let (_, _, made) = >>=-eq-ok (check_cycle (find_cycle board id deps)) _ rest in
    subst IsIdle (ok-injective made) i

act-IsIdle :
    (board : Board) (id : String) (current next t : Task) (action : String) (req : Value)
    → IsIdle current
    → IsIdle next
    → act board id current next action req ≡ ok t
    → IsIdle t
unfolding act
act-IsIdle board id current next t action req i j =
    either (str_eq action "claim" || str_eq action "reassign") (λ e. cc e)
      (either (str_eq action "release") (when-IsIdle _ current _ t _ i (refl, refl)) (
        either (str_eq action "complete") (when-IsIdle _ current _ t _ i (refl, refl)) (
          either (str_eq action "reopen") (when-IsIdle _ current _ t _ i (refl, refl)) (
            either (str_eq action "edit") (edit-IsIdle next t _ _ _ j) (
              either (str_eq action "set_dependencies")
                (set_dependencies-IsIdle board id next t _ j)
                (either (str_eq action "delete") (delete-IsIdle board id next t) (λ e. cc e)))))))

changed-IsIdle :
    (m : AgentTeams) (team : String) (req : Value) (id : String) (t : Task)
    → AllIdle m
    → change m team req ≡ ok (id, t)
    → IsIdle t
unfolding change
changed-IsIdle m team req id t v e =
    let (task_id, _, e1) = >>=-eq-ok (or_reject (get_as as_str req "taskId") _) _ e in
    let (expected, _, e2) = >>=-eq-ok (or_reject (get_as as_u64 req "expectedRevision") _) _ e1 in
    let (board, at_team, e3) = >>=-eq-ok (or_reject (lookup team m.boards) _) _ e2 in
    let (current, at_task, e4) = >>=-eq-ok (or_reject (lookup task_id board) _) _ e3 in
    let (_, _, e5) = >>=-eq-ok (check_revision current expected) _ e4 in
    let (next, acted, e6) =
      >>=-eq-ok
        (act board task_id current (record current { revision = u64_succ current.revision })
          (unwrap_or (get_as as_str req "action") "") req)
        _ e5 in
    let idle : IsIdle current = v team task_id current (
      ap (λ o. lookup task_id (unwrap_or o [])) (some_of _ board _ at_team)
      ∙ some_of _ current _ at_task) in
    subst (λ (r : String × Task). IsIdle r.1) (ok-injective e6)
      (act-IsIdle board task_id current _ next _ req idle idle acted)

insert-IsIdle :
    (board : Board) (id a : String) (t u : Task)
    → ((b : String) (w : Task) → lookup b board ≡ some w → IsIdle w)
    → IsIdle t
    → lookup a (insert id t board) ≡ some u
    → IsIdle u
insert-IsIdle board id a t u v i e = elim (Bool-cases (str_eq id a)) [
  | inl same ↦
      let found = (lookup-insert board id t a).0 same in
      let made : t ≡ u = cc (found, e) in subst IsIdle made i
  | inr apart ↦ v a u (sym ((lookup-insert board id t a).1 apart) ∙ e)
]

commit-AllIdle :
    (m : AgentTeams) (team id : String) (t : Task)
    → AllIdle m
    → IsIdle t
    → AllIdle (commit m team id t).1
unfolding commit
commit-AllIdle m team id t v i other a u e = elim (Bool-cases (str_eq team other)) [
  | inl same ↦
      insert-IsIdle (unwrap_or (lookup team m.boards) []) id a t u (v team) i (
        ap (λ o. lookup a (unwrap_or o [])) (sym ((lookup-insert m.boards team _ other).0 same))
        ∙ e)
  | inr apart ↦ v other a u (
      ap (λ o. lookup a (unwrap_or o [])) (sym ((lookup-insert m.boards team _ other).1 apart)) ∙ e)
]

update_team-AllIdle :
    (m : AgentTeams) (team : String) (req : Value) (r : Result (List MachineOut) (String × Task))
    → AllIdle m
    → change m team req ≡ r
    → AllIdle (updated m team r).1
update_team-AllIdle m team req (err outs) v e = v
update_team-AllIdle m team req (ok (id, next)) v e =
    commit-AllIdle m team id next v (changed-IsIdle m team req id next v e)

update_for-AllIdle :
    (m : AgentTeams) (req : Value) (r : Result (List MachineOut) String)
    → AllIdle m
    → AllIdle (update_for m req r).1
update_for-AllIdle m req (err outs) v = v
update_for-AllIdle m req (ok team) v = update_team-AllIdle m team req (change m team req) v refl

new_task-IsIdle :
    (m : AgentTeams) (id team : String) (req : Value) (t : Task)
    → new_task m id team req ≡ ok t
    → IsIdle t
unfolding new_task
new_task-IsIdle m id team req t e =
    let deps = string_array (get req "blockedBy") in
    let (subject, _, e1) = >>=-eq-ok (or_reject (get_as as_str req "subject") _) _ e in
    let (_, _, e2) = >>=-eq-ok (non_blank subject _) _ e1 in
    let (_, _, e3) = >>=-eq-ok (check_board (lookup team m.boards) deps) _ e2 in
    inl (sym (ap (λ u. u.status) (ok-injective e3)))

created_by-AllIdle :
    (m : AgentTeams) (id team : String) (req : Value) (r : Result (List MachineOut) Task)
    → AllIdle m
    → new_task m id team req ≡ r
    → AllIdle (created_by m team r).1
created_by-AllIdle m id team req (err outs) v e = v
created_by-AllIdle m id team req (ok t) v e =
    commit-AllIdle m team t.id t v (new_task-IsIdle m id team req t e)

create_for-AllIdle :
    (m : AgentTeams) (id : String) (req : Value) (r : Result (List MachineOut) String)
    → AllIdle m
    → AllIdle (create_for m id req r).1
create_for-AllIdle m id req (err outs) v = v
create_for-AllIdle m id req (ok team) v =
    created_by-AllIdle m id team req (new_task m id team req) v refl

if-AllIdle :
    (b : Bool) (x y : List MachineOut × AgentTeams)
    → AllIdle x.1
    → AllIdle y.1
    → AllIdle (if b then x else y).1
if-AllIdle true x y vx vy = vx
if-AllIdle false x y vx vy = vy

-- If every task of every team is pending or deleted, this is so after whatever a machine is sent:
-- without a roster no call makes a task in progress or completed.
pub handle-AllIdle :
    (m : AgentTeams) (new_id : String) (ev : MachineIn) → AllIdle m → AllIdle (handle m new_id ev).1
unfolding handle call create_task update_task
handle-AllIdle m new_id (MachineIn.event name payload) v =
    let method = unwrap_or (get_as as_str payload "method") "" in
    let args = unwrap_or (get payload "args") null in
    if-AllIdle (str_eq name "vocoder/agentTeams/call") (call m new_id method args) _
      (if-AllIdle (str_eq method "view") _ _ v (
        if-AllIdle (str_eq method "createTask") _ _
          (create_for-AllIdle m (concat "task-" new_id) (request_of args) (team_of args) v)
          (if-AllIdle (str_eq method "updateTask") _ _
            (update_for-AllIdle m (request_of args) (team_of args) v) v)))
      v
handle-AllIdle m new_id _ v = v
