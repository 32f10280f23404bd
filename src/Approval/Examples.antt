-- ===== src/Approval/Examples.antt =====
-- The approval machine and the audit on concrete inputs
-- (rust/crates/vocoderd/src/machines/approval.rs).
use dsh_rs.Base.{
  ℕ, ◌+◌, ◌<◌, ◌≡◌, ◌↔◌, refl, String, some, List, [], ◌∷◌, ◌++◌, ok, err, length, u64_mod, arith,
}
use dsh_rs.Base.Dict.{lookup, insert}
use dsh_rs.Json.{Value, json, string}
use dsh_rs.Router.Messages.{EventName, MachineIn, waterfall}
use dsh_rs.Router.{Step, subscribers, set_machine, dispatch}
use dsh_rs.Approval.{
  unavailable, ApprovalMachine, new, handle, check_audit, check_rows, check_row,
  decided_without_ask,
}
use dsh_rs.Approval.Audit.{IsPaired, entries, decisions, check_audit_iff}
use dsh_rs.Approval.Closed.{outcome_of, dispatch-Settled}

abbrev audit_row : String → String → Value
audit_row ty id = json (("type", string ty) ∷ ("data", json (("id", string id) ∷ [])) ∷ [])

abbrev one : ℕ
one = 1

abbrev two_asks : List Value
two_asks =
    audit_row "approval/asked" "a"
    ∷ audit_row "approval/asked" "b"
    ∷ audit_row "turn/end" "b"
    ∷ audit_row "approval/decided" "b"
    ∷ []

check_audit-two_asks : check_audit two_asks ≡ ok 1
unfolding check_audit check_rows check_row lookup insert
check_audit-two_asks = refl

check_audit-unasked :
    check_audit (audit_row "approval/decided" "a" ∷ []) ≡ err (decided_without_ask "a")
unfolding check_audit check_rows check_row lookup
check_audit-unasked = refl

check_audit_iff_example :
    (check_audit two_asks ≡ ok 1)
    ↔ (IsPaired (entries two_asks) × (one ≡ decisions (entries two_asks)))
check_audit_iff_example = check_audit_iff two_asks 1

abbrev request : Value
request = json (("toolName", string "bash") ∷ ("policy", string "never") ∷ [])

abbrev granted : Value
granted = json (("toolName", string "bash") ∷ ("outcome", string "allowed-once") ∷ [])

abbrev two_listeners : Step ApprovalMachine
two_listeners = record {
  router = record {
    machines = ("approval", new) ∷ ("other", new) ∷ [];
    subscriptions = ("approval/request", "approval" ∷ "other" ∷ []) ∷ [];
  };
  queue = [];
  results = [];
}

listeners : subscribers two_listeners.router "approval/request" ≡ "approval" ∷ "other" ∷ []
unfolding subscribers lookup
listeners = refl

mounted : lookup "approval" two_listeners.machines ≡ some new
unfolding lookup
mounted = refl

dispatch-Settled_example :
    (v : Value) × (outcome_of v ≡ some unavailable)
    × (dispatch handle 3 "tool" "approval/request" request waterfall two_listeners
        ≡ some (
            let w' =
              set_machine "approval"
                (handle new (MachineIn.waterfall_turn "approval/request" request)).1
                two_listeners in
            record w' {
              queue = [] ++ ("tool", MachineIn.dispatch_result "approval/request" v) ∷ [];
            }))
dispatch-Settled_example =
    dispatch-Settled handle 3 "tool" "approval" ("other" ∷ []) new new request two_listeners
      listeners mounted refl

abbrev turns : List (EventName × Value)
turns =
    ("approval/request", request)
    ∷ ("approval/request", granted)
    ∷ ("approval/request", request)
    ∷ []

turns_fit : new.asks + length turns < u64_mod
turns_fit = omega arith
