-- ===== src/Goals.antt =====
-- The goals namespace: one goal for each agent (rust/crates/vocoderd/src/machines/goals.rs).
pub mod Steps
mod Examples
use dsh_rs.Base.{
  ℕ, String, concat, Option, none, some, List, [], ◌∷◌, ◌++◌, Bool, true, false, ◌||◌, str_eq,
  u64_succ, if◌then◌else◌, and_then,
}
use dsh_rs.Base.Dict.{Dict, lookup, insert, erase}
use dsh_rs.Json.{Value, null, number, float, string, u64, json, get, get_as, as_str, unwrap_or}
use dsh_rs.Router.Messages.{MachineIn, MachineOut, DispatchMode}
use dsh_rs.Rpc.Reply

abbrev pub changed_event : String
changed_event = "vocoder/goals/changed"

abbrev max_goal_rounds : ℕ
max_goal_rounds = 256

-- A point in time is the 64 bits of a float.
pub record GoalRecord : Type 0 where
  pub id : String
  pub objective : String
  pub phase : String
  pub activation : String
  pub revision : ℕ
  pub rounds_started : ℕ
  pub created_at : ℕ
  pub updated_at : ℕ
  pub max_goal_rounds : ℕ

unfoldable pub to_view : GoalRecord → Value
to_view g = json (
    ("id", string g.id)
    ∷ ("revision", u64 g.revision)
    ∷ ("objective", string g.objective)
    ∷ ("phase", string g.phase)
    ∷ ("activation", string g.activation)
    ∷ ("roundsStarted", u64 g.rounds_started)
    ∷ ("maxGoalRounds", u64 g.max_goal_rounds)
    ∷ ("createdAt", number (float g.created_at))
    ∷ ("updatedAt", number (float g.updated_at))
    ∷ [])

abbrev pub Goals : Type 0
Goals = Dict GoalRecord

-- What a call leaves: its answer, the goals, and whether they changed.
abbrev pub Done : Type 0
Done = List MachineOut × Goals × Bool

abbrev goal_ref : GoalRecord → Value
goal_ref g = json (("id", string g.id) ∷ ("revision", u64 g.revision) ∷ [])

abbrev pub created : String → String → ℕ → GoalRecord
created id objective now = record {
  id = id;
  objective = objective;
  phase = "active";
  activation = "armed";
  revision = 1;
  rounds_started = 0;
  created_at = now;
  updated_at = now;
  max_goal_rounds = max_goal_rounds;
}

abbrev no_goal : Goals → Done
no_goal m = (Reply.err "goal/not-found" "no current goal", m, false)

-- A change to the goal of an agent, if it has one; it is at its next revision then.
abbrev pub change_goal : Goals → String → ℕ → Option GoalRecord → (GoalRecord → GoalRecord) → Done
change_goal m agent now none f = no_goal m
change_goal m agent now (some g) f =
    let g' = record (f g) { revision = u64_succ g.revision; updated_at = now } in
    (Reply.ok (to_view g'), insert agent g' m, true)

abbrev pub get_goal : Goals → Option GoalRecord → Done
get_goal m none = (Reply.ok null, m, false)
get_goal m (some g) = (Reply.ok (to_view g), m, false)

abbrev pub clear_goal : Goals → String → Option GoalRecord → Done
clear_goal m agent none = (Reply.ok null, m, false)
clear_goal m agent (some g) = (Reply.ok (goal_ref g), erase agent m, true)

abbrev pub phase_of : String → String
phase_of method =
    if str_eq method "complete"
    then "complete"
    else if str_eq method "pause"
    then "paused"
    else "active"

abbrev objective_of : Value → String
objective_of args = unwrap_or (and_then (get args "request") λ r. get_as as_str r "objective") ""

abbrev pub create_goal : Goals → String → String → String → ℕ → Done
create_goal m agent objective new_id now =
    let g = created (concat "goal-" new_id) objective now in
    (Reply.ok (json (("ref", goal_ref g) ∷ [])), insert agent g m, true)

-- The call of a method, given what the clock and `rpc::new_id` answer; an empty objective is
-- refused.
unfoldable pub call : Goals → String → Value → String → String → ℕ → Done
call m method args agent new_id now =
    let objective = objective_of args in
    let found = lookup agent m in
    if str_eq method "create"
    then (if str_eq objective ""
        then (
          Reply.err_details "gateway/bad-request" "invalid payload for goals.create" (json []),
          m,
          false,
        )
        else create_goal m agent objective new_id now)
    else if str_eq method "get"
    then get_goal m found
    else if str_eq method "clear"
    then clear_goal m agent found
    else if str_eq method "complete" || str_eq method "pause" || str_eq method "resume"
    then change_goal m agent now found (λ g. record g { phase = phase_of method })
    else if str_eq method "edit"
    then change_goal m agent now found (λ g. record g { objective = objective })
    else (Reply.err "gateway/bad-request" (concat "unsupported goals method: " method), m, false)

abbrev pub view_or_null : Option GoalRecord → Value
view_or_null none = null
view_or_null (some g) = to_view g

-- The event that tells the others of a change.
abbrev pub changed : String → Goals → MachineOut
changed agent m =
    MachineOut.dispatch changed_event
      (json (("agentId", string agent) ∷ ("goal", view_or_null (lookup agent m)) ∷ []))
      DispatchMode.emit

abbrev pub publish : String → Done → List MachineOut × Goals
publish agent (outs, m, true) = (outs ++ changed agent m ∷ [], m)
publish agent (outs, m, false) = (outs, m)

abbrev pub agent_of : Value → String
agent_of args = unwrap_or (Reply.arg_str args "agentId") ""

-- `GoalsMachine::handle`
unfoldable pub handle : Goals → MachineIn → String → ℕ → List MachineOut × Goals
handle m (MachineIn.services_ready keys) new_id now =
    (MachineOut.subscribe (Reply.call_event "goals") ∷ [], m)
handle m (MachineIn.event name payload) new_id now =
    let args = unwrap_or (get payload "args") null in
    let method = unwrap_or (get_as as_str payload "method") "" in
    let done = publish (agent_of args) (call m method args (agent_of args) new_id now) in
    if str_eq name (Reply.call_event "goals") then done else ([], m)
handle m _ new_id now = ([], m)
