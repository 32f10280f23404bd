-- ===== src/Approval/Closed.antt =====
-- The approval machine fails closed, alone and in the router's chain
-- (rust/crates/vocoderd/src/machines/approval.rs, rust/crates/vocoder-cordis/src/lib.rs).
use dsh_rs.Base.{
  ℕ, zero, suc, ◌≡◌, refl, ap, Option, none, some, List, [], ◌∷◌, ◌++◌, and_then, Option-cases, inl,
  inr,
}
use dsh_rs.Base.Dict.{lookup}
use dsh_rs.Json.{Value, get_as, as_str}
use dsh_rs.Router.Messages.{MachineId, EventName, waterfall, MachineIn, MachineOut}
use dsh_rs.Router.{
  Step, done, fold_chain, subscribers, set_machine, absorb, absorb_with, dispatch, dispatch_with,
}
use dsh_rs.Router.Nesting.{chain_found}
use dsh_rs.Approval.{
  Outcome, Policy, ask, never, outcome_as_str, allowed_once, rejected, cancelled, unavailable,
  parse_outcome, ApprovalMachine, from_payload, answer, decide, handle,
}

-- The outcome that a payload carries.
abbrev pub outcome_of : Value → Option Outcome
outcome_of v = and_then (get_as as_str v "outcome") parse_outcome

-- The verdict that a request gets: one that was claimed before, or else a denial.
abbrev pub or_denied : Option Outcome → Outcome
or_denied none = unavailable
or_denied (some claimed) = claimed

abbrev Settled : ApprovalMachine → Value → Type 0
Settled m value =
    (v : Value) × (fold_chain (handle m (MachineIn.waterfall_turn "approval/request" value)).0
      ≡ (done v, []))
    × (outcome_of v ≡ some (or_denied (outcome_of value)))

parse-outcome_as_str : (o : Outcome) → parse_outcome (outcome_as_str o) ≡ some o
parse-outcome_as_str allowed_once = refl
parse-outcome_as_str rejected = refl
parse-outcome_as_str cancelled = refl
parse-outcome_as_str unavailable = refl

decide-denies : (policy : Option Policy) → decide policy ≡ unavailable
unfolding decide
decide-denies none = refl
decide-denies (some ask) = refl
decide-denies (some never) = refl

-- Whatever the policy and whatever was asked before, the machine ends the chain of a request,
-- with the outcome that an earlier listener claimed, or as unavailable if none did: it grants
-- nothing itself.
pub handle-Settled : (m : ApprovalMachine) (value : Value) → Settled m value
unfolding handle answer fold_chain
handle-Settled m value = elim (Option-cases (outcome_of value)) [
  | inl p ↦
      rw (p, answer)
        (
          _,
          refl,
          ap (λ o. parse_outcome (outcome_as_str o)) (decide-denies (from_payload value).policy),
        )
  | inr (claimed, p) ↦ rw (p, answer) (_, refl, parse-outcome_as_str claimed)
]

module _ {M : Type 0} (react : M → MachineIn → List MachineOut × M) where
  absorb_nothing :
      (depth : ℕ) (from : MachineId) (w : Step M) → absorb react depth from [] w ≡ some w
  unfolding absorb absorb_with
  absorb_nothing zero from w = refl
  absorb_nothing (suc depth) from w = refl

  -- In any router, if the first listener of `approval/request` answers as an approval machine
  -- does, then no other listener takes a turn: the initiator is delivered the outcome that the
  -- request itself claims, or unavailable, and no machine but that listener has changed.
  pub dispatch-Settled :
      (depth : ℕ) (initiator sub : MachineId) (subs : List MachineId) (m : M) (a : ApprovalMachine)
      (value : Value) (w : Step M)
      → subscribers w.router "approval/request" ≡ sub ∷ subs
      → lookup sub w.machines ≡ some m
      → (react m (MachineIn.waterfall_turn "approval/request" value)).0
        ≡ (handle a (MachineIn.waterfall_turn "approval/request" value)).0
      → (v : Value) × (outcome_of v ≡ some (or_denied (outcome_of value)))
        × (dispatch react depth initiator "approval/request" value waterfall w
            ≡ some (
                let m' = (react m (MachineIn.waterfall_turn "approval/request" value)).1 in
                let w' = set_machine sub m' w in
                record w' {
                  queue =
                      w.queue ++ (initiator, MachineIn.dispatch_result "approval/request" v) ∷ [];
                }))
  unfolding dispatch dispatch_with
  dispatch-Settled depth initiator sub subs m a value w first mounted same =
      let (v, verdict, settled) = handle-Settled a value in
      let name : EventName = "approval/request" in
      (
        v,
        settled,
        rw
            (
              first,
              chain_found react (absorb react depth) waterfall "approval/request" sub subs value w m
                  mounted,
              same,
              verdict,
            )
            (rw (absorb_nothing depth sub) refl),
      )
