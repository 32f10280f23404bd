-- ===== src/Commands.antt =====
-- The commands namespace: parsing of a line, and `/goal` on the goals namespace
-- (rust/crates/vocoderd/src/machines/commands.rs). The answers of `rpc::new_id` are arguments.
pub mod Parse
pub mod Lines
pub mod Mirror
mod Examples
use dsh_rs.Base.{
  ℕ, String, concat, Option, none, some, List, [], ◌∷◌, ◌++◌, map, Bool, true, false, str_eq,
  if◌then◌else◌,
}
use dsh_rs.Base.Dict.{Dict, lookup, insert, erase}
use dsh_rs.Json.{Value, null, bool, string, array, to_items, json, get, get_as, as_str, unwrap_or}
use dsh_rs.Router.Messages.{MachineIn, MachineOut, DispatchMode}
use dsh_rs.Rpc.Reply
use dsh_rs.Goals.{changed_event}
use dsh_rs.Commands.Parse.{ParsedCommand, parse_command, GoalVerb, parse_goal_input}

pub record Command : Type 0 where
  pub definition_id : Option String
  pub name : String
  pub description : String
  pub hint : Option String
  pub attachments : Bool
  pub runnable : Bool

abbrev shipped_command : String → String → String → Option String → Bool → Bool → Command
shipped_command id name description hint attachments runnable = record {
  definition_id = some id;
  name = name;
  description = description;
  hint = hint;
  attachments = attachments;
  runnable = runnable;
}

unfoldable pub shipped : List Command
shipped =
    shipped_command "@deepseek-ai/dsh-command-compact" "compact"
      "Compact older conversation history" none false false
    ∷ shipped_command "@deepseek-ai/dsh-session-log-export" "export"
        "Download this Session log as a ZIP archive" none false false
    ∷ shipped_command "@deepseek-ai/dsh-command-feedback" "feedback"
        "Record feedback about this session" (some "<text>") false false
    ∷ shipped_command "@deepseek-ai/dsh-command-goal" "goal"
        "Set or view the goal for a long-running task"
        (some "[<objective>|clear|edit <objective>|pause|resume]") true true
    ∷ shipped_command "@deepseek-ai/dsh-permission-presets" "permission"
        "Switch the permission preset (sandbox mode + approval policy)" (some "<preset>") false
        false
    ∷ shipped_command "@deepseek-ai/dsh-plan-mode" "plan" "Enter or leave plan mode"
        (some "[off|message]") true false
    ∷ []

abbrev id_field : Option String → List (String × Value)
id_field none = []
id_field (some id) = ("definitionId", string id) ∷ []

abbrev input_field : Option String → Bool → List (String × Value)
input_field none attachments = []
input_field (some hint) false = ("input", json (("hint", string hint) ∷ [])) ∷ []
input_field (some hint) true =
    ("input", json (("hint", string hint) ∷ ("attachments", bool true) ∷ [])) ∷ []

abbrev pub descriptor : Command → Value
descriptor c = json (
    (("name", string c.name) ∷ ("description", string c.description) ∷ [])
    ++ id_field c.definition_id
    ++ input_field c.hint c.attachments)

unfoldable pub find : List Command → String → Option Command
find [] name = none
find (c ∷ cs) name = let rest = find cs name in if str_eq c.name name then some c else rest

-- An agent's goal as its objective and phase.
abbrev pub Cache : Type 0
Cache = Dict (String × String)

abbrev list : List MachineOut
list = Reply.ok (array (to_items (map descriptor shipped)))

abbrev answered : String → String → String → List MachineOut
answered id kind text = Reply.ok (
    json (
      ("commandId", string id)
      ∷ ("result", json (("kind", string kind) ∷ ("text", string text) ∷ []))
      ∷ []))

abbrev if_set : Option (String × String) → String → String
if_set none text = "No goal set."
if_set (some _) text = text

abbrev view_text : Option (String × String) → String
view_text none = "No goal set."
view_text (some (objective, state)) = concat "Goal (" (concat state (concat "): " objective))

-- The reply to a verb, and the call of the goals namespace that it makes.
abbrev verb_text : Option (String × String) → GoalVerb → String
verb_text goal GoalVerb.view = view_text goal
verb_text goal (GoalVerb.set objective) = concat "Goal set: " objective
verb_text goal (GoalVerb.edit objective) = if_set goal (concat "Goal updated: " objective)
verb_text goal GoalVerb.clear = "Goal cleared."
verb_text goal GoalVerb.pause = if_set goal "Goal paused."
verb_text goal GoalVerb.resume = if_set goal "Goal resumed."

abbrev request : String → List (String × Value)
request objective = ("request", json (("objective", string objective) ∷ [])) ∷ []

abbrev pub verb_call : GoalVerb → Option (String × List (String × Value))
verb_call GoalVerb.view = none
verb_call (GoalVerb.set objective) = some ("create", request objective)
verb_call (GoalVerb.edit objective) = some ("edit", request objective)
verb_call GoalVerb.clear = some ("clear", [])
verb_call GoalVerb.pause = some ("pause", [])
verb_call GoalVerb.resume = some ("resume", [])

abbrev goal_call : String → Option (String × List (String × Value)) → List MachineOut
goal_call agent none = []
goal_call agent (some (method, args)) =
    MachineOut.dispatch (Reply.call_event "goals")
      (json
        (("method", string method) ∷ ("args", json (args ++ ("agentId", string agent) ∷ [])) ∷ []))
      DispatchMode.emit
    ∷ []

abbrev pub run_goal : Cache → String → String → String → List MachineOut
run_goal m agent raw_input new_id =
    let verb = parse_goal_input raw_input in
    answered new_id "success" (verb_text (lookup agent m) verb) ++ goal_call agent (verb_call verb)

abbrev pub run_found : Cache → String → String → String → Option Command → List MachineOut
run_found m agent raw_input new_id none = Reply.ok null
run_found m agent raw_input new_id (some c) =
    if c.runnable
    then run_goal m agent raw_input new_id
    else answered new_id "error" (
        concat "/"
          (concat c.name " is not available in this host yet: its handler needs the agent core"))

abbrev pub run_parsed : Cache → String → String → Option ParsedCommand → List MachineOut
run_parsed m agent new_id none = Reply.ok null
run_parsed m agent new_id (some p) = run_found m agent p.raw_input new_id (find shipped p.name)

unfoldable pub execute : Cache → Value → String → List MachineOut
execute m args new_id =
    run_parsed m (unwrap_or (Reply.arg_str args "agentId") "") new_id
      (parse_command (unwrap_or (Reply.arg_str args "line") ""))

abbrev adopt : String → Cache → Option Value → Cache
adopt agent m none = erase agent m
adopt agent m (some null) = erase agent m
adopt agent m (some goal) =
    insert agent
      (
        unwrap_or (get_as as_str goal "objective") "",
        unwrap_or (get_as as_str goal "phase") "active",
      )
      m

abbrev pub observe_goal : Cache → Value → Cache
observe_goal m payload =
    let agent = unwrap_or (get_as as_str payload "agentId") "" in
    if str_eq agent "" then m else adopt agent m (get payload "goal")

abbrev on_call : Cache → Value → String → List MachineOut
on_call m payload new_id =
    let method = unwrap_or (get_as as_str payload "method") "" in
    if str_eq method "list"
    then list
    else if str_eq method "execute"
    then execute m (unwrap_or (get payload "args") null) new_id
    else Reply.err "gateway/bad-request" (concat "unsupported commands method: " method)

unfoldable pub handle : Cache → MachineIn → String → List MachineOut × Cache
handle m (MachineIn.services_ready keys) new_id =
    (MachineOut.subscribe changed_event ∷ MachineOut.subscribe (Reply.call_event "goals") ∷ [], m)
handle m (MachineIn.event name payload) new_id =
    if str_eq name changed_event
    then ([], observe_goal m payload)
    else if str_eq name (Reply.call_event "goals")
    then ([], m)
    else if str_eq name (Reply.call_event "commands")
    then (on_call m payload new_id, m)
    else ([], m)
handle m _ new_id = ([], m)
