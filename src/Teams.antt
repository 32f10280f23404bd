-- ===== src/Teams.antt =====
-- The shared task board of a team (rust/crates/vocoderd/src/machines/agent_teams.rs).
pub mod Cycle
pub mod Update
pub mod Acyclic
pub mod Boards
pub mod Gate
pub mod Idle
mod Examples
use Prim.Native.Char.{code}
use text.Mathlib.Text.{starts_with}
use dsh_rs.Base.{
  ℕ, String, concat, Option, none, some, List, [], ◌∷◌, map, Bool, true, false, not, ◌&&◌, ◌||◌,
  Result, ok, err, and_then, str_eq, ◌==◌, leb, if◌then◌else◌,
}
use dsh_rs.Base.Dict.{Dict, lookup}
use dsh_rs.Json.{
  Value, string, array, to_items, json, u64, bool, get_as, as_str, as_array, unwrap_or,
}
use dsh_rs.Router.Messages.{MachineOut, RpcReply}

abbrev pub max_tasks : ℕ
max_tasks = 256

pub record Task : Type 0 where
  pub id : String
  pub revision : ℕ
  pub subject : String
  pub description : String
  pub status : String
  pub blocked_by : List String
  pub write_scopes : List String
  pub owner : Option String

abbrev pub Board : Type 0
Board = Dict Task

pub record AgentTeams : Type 0 where
  pub boards : Dict Board

abbrev pub values : {A : Type 0} → Dict A → List A
values board = map (λ e. e.1) board

abbrev pub any : {A : Type 0} → (A → Bool) → List A → Bool
any p [] = false
any p (x ∷ xs) = p x || any p xs

abbrev all : {A : Type 0} → (A → Bool) → List A → Bool
all p [] = true
all p (x ∷ xs) = p x && all p xs

abbrev pub filter : {A : Type 0} → (A → Bool) → List A → List A
filter p [] = []
filter p (x ∷ xs) = let rest = filter p xs in if p x then x ∷ rest else rest

abbrev pub member : String → List String → Bool
member s = any λ x. str_eq x s

abbrev pub has_key : String → Board → Bool
has_key id board = elim (lookup id board) [ none ↦ false | some _ ↦ true ]

-- Whether two path prefixes overlap on component boundaries.
pub scopes_overlap : String → String → Bool
scopes_overlap left right =
    str_eq left right || starts_with left (concat right "/") || starts_with right (concat left "/")

-- Every dependency is completed; one that does not exist is not.
pub ready : Task → Board → Bool
ready t board =
    all (λ id. elim (lookup id board) [ none ↦ false | some d ↦ str_eq d.status "completed" ])
      t.blocked_by

clashes : Task → Task → Bool
unfolding scopes_overlap
clashes t other =
    not (str_eq other.id t.id)
    && str_eq other.status "in_progress"
    && any (λ l. any (λ r. scopes_overlap l r) other.write_scopes) t.write_scopes

abbrev strings : List String → Value
strings ss = array (to_items (map string ss))

write_scope_warnings : Task → Board → List String
unfolding clashes
write_scope_warnings t board =
    if str_eq t.status "in_progress"
    then map (λ other. concat "write scopes overlap with " other.id)
        (filter (clashes t) (values board))
    else []

abbrev with_owner : Option String → List (String × Value)
with_owner none = []
with_owner (some owner) = ("ownerName", string owner) ∷ []

unfoldable pub to_view : Task → Board → Value
unfolding ready write_scope_warnings
to_view t board = json (
    ("id", string t.id)
    ∷ ("revision", u64 t.revision)
    ∷ ("subject", string t.subject)
    ∷ ("description", string t.description)
    ∷ ("status", string t.status)
    ∷ ("blockedBy", strings t.blocked_by)
    ∷ ("writeScopes", strings t.write_scopes)
    ∷ ("ready", bool (str_eq t.status "pending" && ready t board))
    ∷ ("writeScopeWarnings", strings (write_scope_warnings t board))
    ∷ with_owner t.owner)

-- `rpc::ok`, `rpc::err`, `rpc::err_details`
abbrev pub replies : RpcReply → List MachineOut
replies r = MachineOut.reply r ∷ []

abbrev pub mutation_ok : Value → List MachineOut
mutation_ok view = replies (RpcReply.ok (json (("ok", bool true) ∷ ("value", view) ∷ [])))

abbrev pub business_error : String → String → List MachineOut
business_error code message = replies (
    RpcReply.ok (
      json (
        ("ok", bool false)
        ∷ ("error", json (("code", string code) ∷ ("message", string message) ∷ []))
        ∷ [])))

abbrev pub rejected : {A : Type 0} → String → Result (List MachineOut) A
rejected message = err (business_error "team-rejected" message)

-- `let Some(x) = o else { return ... }`
abbrev pub or_reject : {A : Type 0} → Option A → String → Result (List MachineOut) A
or_reject none message = rejected message
or_reject (some a) message = ok a

abbrev pub texts : List Value → List String
texts [] = []
texts (v ∷ vs) = elim (as_str v) [ none ↦ texts vs | some s ↦ s ∷ texts vs ]

-- A `string[]` argument, ignoring anything that is not a string.
abbrev pub string_array : Option Value → List String
string_array o = texts (unwrap_or (and_then o as_array) [])

-- `char::is_whitespace`
abbrev pub is_whitespace : ℕ → Bool
is_whitespace c =
    (leb 9 c && leb c 13)
    || c == 32
    || c == 133
    || c == 160
    || c == 5760
    || (leb 8192 c && leb c 8202)
    || c == 8232
    || c == 8233
    || c == 8239
    || c == 8287
    || c == 12288

-- `s.trim().is_empty()`
unfoldable pub is_blank : String → Bool
is_blank String.[] = true
is_blank (String.◌∷◌ c s) = is_whitespace (code c) && is_blank s

abbrev pub team_of : Value → Result (List MachineOut) String
team_of args = elim (get_as as_str args "agentId") [
  | none ↦ err bad
  | some id ↦ if str_eq id "" then err bad else ok id
]
  where
    bad : List MachineOut
    bad =
        replies
          (RpcReply.err "gateway/bad-request" "agentId must be a non-empty string" (some (json [])))
