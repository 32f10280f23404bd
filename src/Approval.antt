-- ===== src/Approval.antt =====
-- The approval machine, which answers `approval/request` in its chain, and the audit of a log
-- (rust/crates/vocoderd/src/machines/approval.rs).

pub mod Audit
pub mod Closed
pub mod Ids
mod Examples
use dsh_rs.Base.{
  ℕ, suc, ◌+◌, String, concat, Option, none, some, List, [], ◌∷◌, Bool, true, false, Result, ok,
  err, ◌>>=◌, and_then, str_eq, show, u64_succ, if◌then◌else◌,
}
use dsh_rs.Base.Dict.{Dict, lookup, insert}
use dsh_rs.Json.{Value, null, string, json, get, get_as, as_str, unwrap_or}
use dsh_rs.Router.Messages.{MachineIn, MachineOut}

pub data Outcome : Type 0 where
  allowed_once rejected cancelled unavailable : Outcome

abbrev pub outcome_as_str : Outcome → String
outcome_as_str allowed_once = "allowed-once"
outcome_as_str rejected = "rejected"
outcome_as_str cancelled = "cancelled"
outcome_as_str unavailable = "unavailable"

abbrev pub parse_outcome : String → Option Outcome
parse_outcome s =
    if str_eq s "allowed-once"
    then some allowed_once
    else if str_eq s "rejected"
    then some rejected
    else if str_eq s "cancelled"
    then some cancelled
    else if str_eq s "unavailable"
    then some unavailable
    else none

pub data Policy : Type 0 where
  ask never : Policy

abbrev pub parse_policy : String → Option Policy
parse_policy s = if str_eq s "ask" then some ask else if str_eq s "never" then some never else none

pub record Pending : Type 0 where
  pub id : String
  pub tool_name : String
  pub call_id : Option String

pub data AuditError : Type 0 where
  decided_without_ask duplicate_decision : String → AuditError

-- The ids that were asked and decided, and the number of pairs.
pub record Seen : Type 0 where
  pub asked : Dict (Unit {0})
  pub decided : Dict (Unit {0})
  pub pairs : ℕ

abbrev pub unseen : Seen
unseen = record { asked = []; decided = []; pairs = 0 }

abbrev pub check_decided : Seen → String → Result AuditError Seen
check_decided s id = elim (lookup id s.asked) [
  | none ↦ err (decided_without_ask id)
  | some _ ↦ elim (lookup id s.decided) [
    | some _ ↦ err (duplicate_decision id)
    | none ↦ ok (record s { decided = insert id tt s.decided; pairs = suc s.pairs })
  ]
]

abbrev pub check_typed : Seen → Option String → String → Result AuditError Seen
check_typed s none id = ok s
check_typed s (some ty) id =
    if str_eq ty "approval/asked"
    then ok (record s { asked = insert id tt s.asked })
    else if str_eq ty "approval/decided"
    then check_decided s id
    else ok s

-- `row.pointer("/data/id")`, as a text
abbrev pub row_id : Value → String
row_id row = unwrap_or (and_then (get row "data") λ d. get_as as_str d "id") ""

unfoldable pub check_row : Seen → Value → Result AuditError Seen
check_row s row =
    if str_eq (row_id row) "" then ok s else check_typed s (get_as as_str row "type") (row_id row)

unfoldable pub check_rows : Seen → List Value → Result AuditError ℕ
check_rows s [] = ok s.pairs
check_rows s (row ∷ rows) = check_row s row >>= λ t. check_rows t rows

-- Check a log's approval audit pairs.
unfoldable pub check_audit : List Value → Result AuditError ℕ
check_audit rows = check_rows unseen rows

pub record ApprovalMachine : Type 0 where
  pub pending : Dict Pending
  pub asks : ℕ

abbrev pub new : ApprovalMachine
new = record { pending = []; asks = 0 }

unfoldable pub decide : Option Policy → Outcome
decide none = unavailable
decide (some ask) = unavailable
decide (some never) = unavailable

pub record ApprovalRequest : Type 0 where
  pub session : Option String
  pub tool_name : String
  pub call_id : Option String
  pub reason : Option String
  pub policy : Option Policy
  pub claimed : Option Outcome

abbrev or_else : Option Value → Option Value → Option Value
or_else none o = o
or_else (some v) o = some v

abbrev pub from_payload : Value → ApprovalRequest
from_payload v = record {
  session =
      and_then (or_else (get v "sessionId") (and_then (get v "agent") λ a. get a "sessionId"))
        as_str;
  tool_name = unwrap_or (get_as as_str v "toolName") "";
  call_id = get_as as_str v "callId";
  reason = get_as as_str v "reason";
  policy = and_then (get_as as_str v "policy") parse_policy;
  claimed = and_then (get_as as_str v "outcome") parse_outcome;
}

abbrev pub optional : Option String → Value
optional none = null
optional (some s) = string s

-- `format!("approval-{}", self.asks)`
abbrev pub approval_id : ℕ → String
approval_id n = concat "approval-" (show n)

-- The answer to a request, which no earlier listener claimed if `claimed` is `none`.
unfoldable pub answer :
    ApprovalMachine → ApprovalRequest → Option Outcome → List MachineOut × ApprovalMachine
answer m req (some claimed) =
    (MachineOut.waterfall_return (json (("outcome", string (outcome_as_str claimed)) ∷ [])) ∷ [], m)
answer m req none =
    let asks = u64_succ m.asks in
    let id = approval_id asks in
    (
      MachineOut.waterfall_return (
            json (
              ("outcome", string (outcome_as_str (decide req.policy)))
              ∷ ("approvalId", string id)
              ∷ ("reason", optional req.reason)
              ∷ []))
          ∷ [],
      record {
        pending =
            insert id (record { id = id; tool_name = req.tool_name; call_id = req.call_id })
              m.pending;
        asks = asks;
      },
    )

-- `ApprovalMachine::handle`
unfoldable pub handle : ApprovalMachine → MachineIn → List MachineOut × ApprovalMachine
unfolding answer
handle m (MachineIn.services_ready keys) =
    (MachineOut.subscribe "approval/request" ∷ MachineOut.subscribe "approval/asked" ∷ [], m)
handle m (MachineIn.waterfall_turn name value) =
    let req = from_payload value in
    let answered = answer m req req.claimed in
    if str_eq name "approval/request" then answered else ([], m)
handle m _ = ([], m)
