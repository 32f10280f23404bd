-- ===== src/Teams/Boards.antt =====
-- The boards of every team stay without a cycle, whatever is called
-- (rust/crates/vocoderd/src/machines/agent_teams.rs).
use dsh_rs.Base.{
  ◌≡◌, ◌⊎◌, inl, inr, refl, sym, ap, subst, String, concat, Option, none, some, List, [], Bool,
  true, false, Result, ok, err, >>=-eq-ok, ok-injective, if◌then◌else◌, str_eq, u64_succ,
  Bool-cases,
}
use dsh_rs.Base.Dict.{lookup, insert, lookup-insert}
use dsh_rs.Json.{Value, null, get, get_as, as_str, as_u64, unwrap_or}
use dsh_rs.Router.Messages.{MachineIn, MachineOut}
use dsh_rs.Teams.{AgentTeams, team_of, or_reject, string_array, Task, Board, member}
use dsh_rs.Teams.Cycle.Search.{Edge, Reach, here, edge}
use dsh_rs.Teams.Update.{
  request_of, check_revision, check_board, non_blank, act, change, commit, updated, update_for,
  update_task, new_task, create_for, created_by, create_task, call, handle,
}
use dsh_rs.Teams.Acyclic.{IsAcyclic, insert-IsAcyclic, act-IsAcyclic}

-- Every board of every team.
abbrev pub IsValid : AgentTeams → Type 0
IsValid m = (team : String) → IsAcyclic (unwrap_or (lookup team m.boards) [])

commit-IsValid :
    (m : AgentTeams) (team id : String) (t : Task)
    → IsValid m
    → IsAcyclic (insert id t (unwrap_or (lookup team m.boards) []))
    → IsValid (commit m team id t).1
unfolding commit
commit-IsValid m team id t v h other = elim (Bool-cases (str_eq team other)) [
  | inl same ↦
      subst (λ o. IsAcyclic (unwrap_or o [])) (sym ((lookup-insert m.boards team _ other).0 same)) h
  | inr apart ↦
      subst (λ o. IsAcyclic (unwrap_or o [])) (sym ((lookup-insert m.boards team _ other).1 apart))
        (v other)
]

pub some_of :
    {A : Type 0} (o : Option A) (a : A) (message : String) → or_reject o message ≡ ok a → o ≡ some a
some_of none a message e = cc e
some_of (some b) a message e = ap some (ok-injective e)

changed :
    (m : AgentTeams) (team : String) (req : Value) (id : String) (t : Task)
    → IsValid m
    → change m team req ≡ ok (id, t)
    → IsAcyclic (insert id t (unwrap_or (lookup team m.boards) []))
unfolding change
changed m team req id t v e =
    let (task_id, _, e1) = >>=-eq-ok (or_reject (get_as as_str req "taskId") _) _ e in
    let (expected, _, e2) = >>=-eq-ok (or_reject (get_as as_u64 req "expectedRevision") _) _ e1 in
    let (board, at_team, e3) = >>=-eq-ok (or_reject (lookup team m.boards) _) _ e2 in
    let (current, at_task, e4) = >>=-eq-ok (or_reject (lookup task_id board) _) _ e3 in
    let (_, _, e5) = >>=-eq-ok (check_revision current expected) _ e4 in
    let (next, acted, e6) =
      >>=-eq-ok
        (act board task_id current (record current { revision = u64_succ current.revision })
          (unwrap_or (get_as as_str req "action") "") req)
        _ e5 in
    let team_board : lookup team m.boards ≡ some board = some_of _ board _ at_team in
    let made = ok-injective e6 in
    subst (λ o. IsAcyclic (insert id t (unwrap_or o []))) (sym team_board)
      (subst (λ (r : String × Task). IsAcyclic (insert r.0 r.1 board)) made
        (act-IsAcyclic board task_id current _ next _ req (some_of _ current _ at_task) refl acted
          (subst (λ o. IsAcyclic (unwrap_or o [])) team_board (v team))))

-- The id of a new task names no dependency of any team.
abbrev pub IsFresh : AgentTeams → String → Type 0
IsFresh m id =
    (team a : String) (t : Task)
    → lookup a (unwrap_or (lookup team m.boards) []) ≡ some t
    → member id t.blocked_by ≡ false

update_team-IsValid :
    (m : AgentTeams) (team : String) (req : Value) (r : Result (List MachineOut) (String × Task))
    → IsValid m
    → change m team req ≡ r
    → IsValid (updated m team r).1
update_team-IsValid m team req (err outs) v e = v
update_team-IsValid m team req (ok (id, next)) v e =
    commit-IsValid m team id next v (changed m team req id next v e)

update_task-IsValid :
    (m : AgentTeams) (args : Value) (r : Result (List MachineOut) String)
    → team_of args ≡ r
    → IsValid m
    → IsValid (update_for m (request_of args) r).1
update_task-IsValid m args (err outs) p v = v
update_task-IsValid m args (ok team) p v =
    update_team-IsValid m team (request_of args) (change m team (request_of args)) v refl

Reach-into :
    {board : Board} {a b : String} → Reach board a b → (a ≡ b) ⊎ ((c : String) × Edge board c b)
Reach-into here = inl refl
Reach-into (edge {a} s p) = elim (Reach-into p) [
  | inl same ↦ inr (a, subst (Edge _ a) same s)
  | inr found ↦ inr found
]

created :
    (m : AgentTeams) (id team : String) (req : Value) (t : Task)
    → IsValid m
    → IsFresh m id
    → member id (string_array (get req "blockedBy")) ≡ false
    → new_task m id team req ≡ ok t
    → (t.id ≡ id) × IsAcyclic (insert id t (unwrap_or (lookup team m.boards) []))
unfolding new_task
created m id team req t v fresh apart e =
    let board = unwrap_or (lookup team m.boards) [] in
    let deps = string_array (get req "blockedBy") in
    let (subject, _, e1) = >>=-eq-ok (or_reject (get_as as_str req "subject") _) _ e in
    let (_, _, e2) = >>=-eq-ok (non_blank subject _) _ e1 in
    let (_, _, e3) = >>=-eq-ok (check_board (lookup team m.boards) deps) _ e2 in
    let made = ok-injective e3 in
    let blocked : deps ≡ t.blocked_by = ap (λ u. u.blocked_by) made in
    (
      sym (ap (λ u. u.id) made),
      insert-IsAcyclic board id t
          (λ d k p. elim (Reach-into p) [
            | inl same ↦ cc (subst (λ z. member z t.blocked_by ≡ true) same k, blocked, apart)
            | inr (c, (u, l, n)) ↦ cc (n, fresh team c u l)
          ])
          (v team),
    )

created_by-IsValid :
    (m : AgentTeams) (id team : String) (req : Value) (r : Result (List MachineOut) Task)
    → IsValid m
    → IsFresh m id
    → member id (string_array (get req "blockedBy")) ≡ false
    → new_task m id team req ≡ r
    → IsValid (created_by m team r).1
created_by-IsValid m id team req (err outs) v fresh apart e = v
created_by-IsValid m id team req (ok t) v fresh apart e =
    let (named, acyclic) = created m id team req t v fresh apart e in
    commit-IsValid m team t.id t v (
      subst (λ z. IsAcyclic (insert z t (unwrap_or (lookup team m.boards) []))) (sym named) acyclic)

create_for-IsValid :
    (m : AgentTeams) (id : String) (req : Value) (r : Result (List MachineOut) String)
    → IsValid m
    → IsFresh m id
    → member id (string_array (get req "blockedBy")) ≡ false
    → IsValid (create_for m id req r).1
create_for-IsValid m id req (err outs) v fresh apart = v
create_for-IsValid m id req (ok team) v fresh apart =
    created_by-IsValid m id team req (new_task m id team req) v fresh apart refl

-- The tasks that an event's request names as dependencies.
abbrev pub named_by : MachineIn → List String
named_by (MachineIn.event name payload) =
    string_array (get (request_of (unwrap_or (get payload "args") null)) "blockedBy")
named_by _ = []

if-IsValid :
    (b : Bool) (x y : List MachineOut × AgentTeams)
    → IsValid x.1
    → IsValid y.1
    → IsValid (if b then x else y).1
if-IsValid true x y vx vy = vx
if-IsValid false x y vx vy = vy

-- Whatever a machine is sent, no team's tasks come to depend on themselves, directly or through
-- others, as long as the id that a new task would get is not named as a dependency by any task or
-- by the request.
pub handle-IsValid :
    (m : AgentTeams) (new_id : String) (ev : MachineIn)
    → IsValid m
    → IsFresh m (concat "task-" new_id)
    → member (concat "task-" new_id) (named_by ev) ≡ false
    → IsValid (handle m new_id ev).1
unfolding handle call create_task update_task
handle-IsValid m new_id (MachineIn.event name payload) v fresh apart =
    let method = unwrap_or (get_as as_str payload "method") "" in
    let args = unwrap_or (get payload "args") null in
    if-IsValid (str_eq name "vocoder/agentTeams/call") (call m new_id method args) _
      (if-IsValid (str_eq method "view") _ _ v (
        if-IsValid (str_eq method "createTask") _ _
          (create_for-IsValid m (concat "task-" new_id) (request_of args) (team_of args) v fresh
            apart)
          (if-IsValid (str_eq method "updateTask") _ _
            (update_task-IsValid m args (team_of args) refl v) v)))
      v
handle-IsValid m new_id _ v fresh apart = v
