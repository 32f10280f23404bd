-- ===== src/Tool.antt =====
-- A tool call: its arguments, its outcome, and the gate before it
-- (rust/crates/vocoderd/src/machines/tool.rs). A text of JSON is read by the argument `from_str`
-- and written by `to_text`, which stand for serde_json.
pub mod Read
pub mod Page
pub mod Widths
pub mod Scan
pub mod Weight
pub mod Pages
pub mod Edit
pub mod Replaced
pub mod Gating
mod Examples
use dsh_rs.Base.{
  ℕ, String, concat, Option, none, some, List, [], ◌∷◌, ◌++◌, map, Bool, true, false, ◌||◌, Result,
  ok, err, str_eq, if◌then◌else◌, and_then,
}
use dsh_rs.Base.Text.{join}
use dsh_rs.Json.{
  Value, bool, string, array, object, to_items, Fields, end, u64, json, fields, as_str, lookup,
}
use dsh_rs.Teams.{is_blank}
use dsh_rs.Sandbox.{
  Mode, mode_as_str, parse_mode, targets, Escape, widening, Denial, message, Fence, fence,
}

pub record Call : Type 0 where
  pub id : String
  pub name : String
  pub arguments : String

abbrev pub call_row_data : Call → ℕ → ℕ → Value
call_row_data call turn step = json (
    ("turn", u64 turn)
    ∷ ("step", u64 step)
    ∷ ("callId", string call.id)
    ∷ ("name", string call.name)
    ∷ ("arguments", string call.arguments)
    ∷ [])

-- `not_an_object` holds the text the model gave.
pub data Arguments : Type 0 where
  an_object : Fields → Arguments
  not_an_object : String → Arguments

abbrev of_value : (Value → String) → Value → Arguments
of_value to_text (object fs) = Arguments.an_object fs
of_value to_text v = Arguments.not_an_object (to_text v)

abbrev pub parse_arguments : (String → Result String Value) → (Value → String) → String → Arguments
parse_arguments from_str to_text raw =
    if is_blank raw
    then Arguments.an_object end
    else elim (from_str raw) [ err _ ↦ Arguments.not_an_object raw | ok v ↦ of_value to_text v ]

abbrev pub as_object : Arguments → Option Fields
as_object (Arguments.an_object fs) = some fs
as_object (Arguments.not_an_object _) = none

-- `args.get(key).and_then(Value::as_str)`
abbrev pub text_arg : Fields → String → Option String
text_arg args key = and_then (lookup key args) as_str

abbrev pub is_mutating : String → Bool
is_mutating name = str_eq name "write" || str_eq name "edit"

pub record Outcome : Type 0 where
  pub content : List Value
  pub is_error : Bool
  pub meta : Option Value
  pub error : Option Value

pub record ErrorInfo : Type 0 where
  pub name : String
  pub code : String

abbrev pub to_json : ErrorInfo → Value
to_json e = json (("name", string e.name) ∷ ("code", string e.code) ∷ [])

abbrev pub sandbox_unavailable : ErrorInfo
sandbox_unavailable = record { name = "SandboxUnavailableError"; code = "SANDBOX_UNAVAILABLE" }

abbrev pub fs_error : String → ErrorInfo
fs_error code = record { name = "FsError"; code = code }

abbrev text_block : String → Value
text_block s = json (("type", string "text") ∷ ("text", string s) ∷ [])

abbrev pub text : String → Outcome
text s = record { content = text_block s ∷ []; is_error = false; meta = none; error = none }

abbrev pub denied : String → Outcome
denied s = record {
  content = text_block (concat "Error: " s) ∷ [];
  is_error = true;
  meta = none;
  error = none;
}

abbrev pub with_meta : Outcome → Value → Outcome
with_meta o v = record o { meta = some v }

abbrev pub with_error : Outcome → ErrorInfo → Outcome
with_error o e = record o { error = some (to_json e) }

abbrev given : String → Option Value → List (String × Value)
given key none = []
given key (some v) = (key, v) ∷ []

abbrev result_part : Outcome → Call → Value
result_part o call = json (
    ("type", string "tool-result")
    ∷ ("toolCallId", string call.id)
    ∷ ("content", array (to_items o.content))
    ∷ ("isError", bool o.is_error)
    ∷ [])

abbrev result_message : Outcome → Call → Value
result_message o call = json (
    ("source", json (("kind", string "tool") ∷ ("callId", string call.id) ∷ []))
    ∷ ("content", array (to_items (result_part o call ∷ [])))
    ∷ ("role", string "user")
    ∷ [])

abbrev pub row_data : Outcome → ℕ → ℕ → Call → ℕ → Value
row_data o turn step call call_seq = json (
    (("turn", u64 turn)
      ∷ ("step", u64 step)
      ∷ ("message", result_message o call)
      ∷ ("sourceEventSeqs", array (to_items (u64 call_seq ∷ [])))
      ∷ ("surfaceOp", string "append")
      ∷ [])
    ++ given "meta" o.meta
    ++ given "error" o.error)

abbrev pub unknown_tool : String → Outcome
unknown_tool name = denied (concat "unknown tool \"" (concat name "\""))

abbrev pub approval_denial : String → String → Outcome
approval_denial tool outcome =
    if str_eq outcome "rejected"
    then denied (concat "the user rejected tool \"" (concat tool "\""))
    else if str_eq outcome "cancelled"
    then denied (concat "approval for tool \"" (concat tool "\" was cancelled"))
    else denied (
        concat "tool \"" (concat tool "\" requires approval, but no approval channel is available"))

pub data Gate : Type 0 where
  allow : Gate
  ask : String → Gate
  refuse : Outcome → Gate

abbrev quoted : String → String
quoted s = concat "\"" (concat s "\"")

-- A request for a mode, judged by the ladder.
abbrev pub judged : Mode → Mode → String → String → Escape → Gate
judged mode target requested reason Escape.wider =
    Gate.ask (concat "escalate sandbox to " (concat (mode_as_str target) (concat ": " reason)))
judged mode target requested reason Escape.same = Gate.refuse (
    denied (
      concat (concat "sandbox escalation to " (quoted requested)) (
        concat " is not strictly wider than this call's current "
          (concat (quoted (mode_as_str mode)) " mode"))))
judged mode target requested reason Escape.narrower = Gate.refuse (
    denied (
      concat (concat "sandbox escalation to " (quoted requested)) (
        concat " is narrower than this call's current "
          (concat (quoted (mode_as_str mode)) " mode"))))

abbrev pub to_mode : Mode → String → String → Option Mode → Gate
to_mode mode requested reason none = Gate.refuse (
    denied (
      concat (concat "sandbox escalation to " (quoted requested)) (
        concat " is not a known mode (expected one of "
          (concat (join ", " (map (λ m. quoted (mode_as_str m)) targets)) ")"))))
to_mode mode requested reason (some target) =
    judged mode target requested reason (widening mode target)

-- The request and its reason go together, and the reason says something.
abbrev pub paired : Mode → Option String → Option String → Gate
paired mode none none = Gate.allow
paired mode (some requested) none =
    Gate.refuse (denied "invalid escalation: sandbox_permissions requires a justification")
paired mode none (some reason) =
    Gate.refuse
      (denied "invalid escalation: justification is only valid together with sandbox_permissions")
paired mode (some requested) (some reason) =
    if is_blank reason
    then Gate.refuse (denied "invalid justification: expected a non-empty sentence")
    else to_mode mode requested reason (parse_mode requested)

abbrev pub gate_object : Mode → Option Fields → Gate
gate_object mode none = Gate.allow
gate_object mode (some args) =
    paired mode (text_arg args "sandbox_permissions") (text_arg args "justification")

unfoldable pub gate : String → Arguments → Fence → Gate
gate name arguments f =
    if str_eq name "read" then Gate.allow else gate_object f.mode (as_object arguments)

abbrev pub escalated_fence : Fence → String → Fence
escalated_fence f requested = elim (parse_mode requested) [
  | none ↦ f
  | some mode ↦ fence mode f.root
]

abbrev pub confinement : Denial → Outcome
confinement d = with_error (denied (message d)) (fs_error "FS_SANDBOX_DENIED")
