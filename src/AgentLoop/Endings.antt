-- ===== src/AgentLoop/Endings.antt =====
-- How turns end: the sticky token ceiling, cancellation, and what a reply decides.
use dsh_rs.Base.{
  ℕ, ◌≡◌, ◌≢◌, ◌⊎◌, inl, inr, refl, Bool, true, false, ◌||◌, List, [], ◌∷◌, ◌++◌, Option, none,
  some, str_eq, if◌then◌else◌, u64_succ, arith, eq_iff, is_empty, not,
}
use dsh_rs.Json.{Value, u64, json, get}
use dsh_rs.AgentLoop.{
  AgentLoop, idle, running, Draft, draft, CancelCause, StepOutcome, TurnEnd, LoopOutput, append,
  turn_ended, call_model, to_reason, begin_turn, enter_step, step_reply, reject_step, cancel,
  is_running,
}
use dsh_rs.AgentLoop.Trace.{
  Call, begins, enters, rejects, replies, cancels, step, run, appended, log,
}

-- The kind of reason with which the first `turn/end` of a log ends its turn.
unfoldable pub first_end : List Draft → Option Value
first_end [] = none
first_end (d ∷ ds) = if str_eq d.row_type "turn/end" then get d.payload "reason" else first_end ds

abbrev IsSticky : AgentLoop → Type 0
IsSticky s = (is_running s ≡ true) × (s.turn_saw_max_tokens ≡ true)

abbrev first_end_of : List Draft → Option Value → Option Value
first_end_of [] o = o
first_end_of (d ∷ ds) o =
    if str_eq d.row_type "turn/end" then get d.payload "reason" else first_end_of ds o

first_end-append : (ds es : List Draft) → first_end (ds ++ es) ≡ first_end_of ds (first_end es)
unfolding first_end
first_end-append [] es = refl
first_end-append (d ∷ ds) es = ground (arith, first_end-append ds es)

-- The log tells a completed turn from any other.
reason-ne-completed :
    (reason : TurnEnd) → reason ≢ TurnEnd.completed → to_reason reason ≢ to_reason TurnEnd.completed
unfolding to_reason
reason-ne-completed TurnEnd.completed h = λ _. h refl
reason-ne-completed TurnEnd.blocked h = ground (arith, eq_iff "blocked" "completed")
reason-ne-completed TurnEnd.max_tokens h = ground (arith, eq_iff "max-tokens" "completed")
reason-ne-completed (TurnEnd.aborted cause) h = ground (arith, eq_iff "aborted" "completed")
reason-ne-completed (TurnEnd.error code message) h = ground (arith, eq_iff "error" "completed")

-- One call either keeps the flag and ends no turn, or ends the turn, and not as completed.
step-IsSticky :
    (s : AgentLoop) (c : Call) (o : Option Value)
    → IsSticky s
    → (IsSticky (step s c).0 × (first_end_of (appended (step s c).1) o ≡ o))
      ⊎ (first_end_of (appended (step s c).1) o ≢ some (to_reason TurnEnd.completed))
unfolding step begin_turn enter_step step_reply reject_step cancel is_running
step-IsSticky s (begins ms) o k = ground arith
step-IsSticky s enters o k = ground arith
step-IsSticky s rejects o k = ground (arith, reason-ne-completed TurnEnd.blocked)
step-IsSticky s (replies (StepOutcome.error code message) tools more) o k = ground (
  arith,
  reason-ne-completed (TurnEnd.error code message),
  λ (c : CancelCause). reason-ne-completed (TurnEnd.aborted c),
)
step-IsSticky s (replies outcome tools more) o k =
    ground (arith, reason-ne-completed TurnEnd.max_tokens, reason-ne-completed TurnEnd.completed)
step-IsSticky s (cancels cause) o k = ground arith

-- While the flag is set and the turn runs, the first turn that ends does not end as completed.
log-IsSticky :
    (s : AgentLoop) (cs : List Call)
    → IsSticky s
    → first_end (log s cs) ≢ some (to_reason TurnEnd.completed)
unfolding log first_end
log-IsSticky s [] k = λ e. cc e
log-IsSticky s (c ∷ cs) k =
    rw (first_end-append (appended (step s c).1) (log (step s c).0 cs))
      (elim (step-IsSticky s c (first_end (log (step s c).0 cs)) k) [
        | inl (kept, same) ↦ rw same (log-IsSticky (step s c).0 cs kept)
        | inr ended ↦ ended
      ])

-- A reply that reached the token ceiling sets the flag and goes on, or ends the turn.
ceiling-IsSticky :
    (s : AgentLoop) (turn n : ℕ) (opened tools more : Bool) (o : Option Value)
    → s.phase ≡ running turn n opened
    → s.step_open ≡ true
    → (IsSticky (step s (replies StepOutcome.max_tokens tools more)).0
        × (first_end_of (appended (step s (replies StepOutcome.max_tokens tools more)).1) o ≡ o))
      ⊎ (first_end_of (appended (step s (replies StepOutcome.max_tokens tools more)).1) o
          ≢ some (to_reason TurnEnd.completed))
unfolding step step_reply is_running
ceiling-IsSticky s turn n opened tools more o p q = ground (
  arith,
  reason-ne-completed TurnEnd.max_tokens,
  λ (c : CancelCause). reason-ne-completed (TurnEnd.aborted c),
)

-- After a reply that says that the open step of the running turn reached its token ceiling, no
-- later reply downgrades the turn: whatever calls follow, the first turn that ends, with that reply
-- or later, does not end as completed.
pub max_tokens_sticky :
    (s : AgentLoop) (turn n : ℕ) (opened tools more : Bool) (cs : List Call)
    → s.phase ≡ running turn n opened
    → s.step_open ≡ true
    → first_end (log s (replies StepOutcome.max_tokens tools more ∷ cs))
      ≢ some (to_reason TurnEnd.completed)
unfolding log first_end
max_tokens_sticky s turn n opened tools more cs p q =
    let c = replies StepOutcome.max_tokens tools more in
    rw (first_end-append (appended (step s c).1) (log (step s c).0 cs))
      (elim (ceiling-IsSticky s turn n opened tools more (first_end (log (step s c).0 cs)) p q) [
        | inl (kept, same) ↦ rw same (log-IsSticky (step s c).0 cs kept)
        | inr ended ↦ ended
      ])

abbrev end_rows : ℕ → ℕ → TurnEnd → List Draft
end_rows turn n reason =
    draft "step/end" (json (("turn", u64 turn) ∷ ("step", u64 n) ∷ []))
    ∷ draft "turn/end" (json (("turn", u64 turn) ∷ ("reason", to_reason reason) ∷ []))
    ∷ []

-- How the reply of an open step ends its turn; `none` if the turn goes on.
abbrev pub verdict : AgentLoop → StepOutcome → Bool → Option TurnEnd
verdict s outcome more = elim s.cancelled [
  | some cause ↦ some (TurnEnd.aborted cause)
  | none ↦ elim outcome [
    | StepOutcome.error code message ↦ some (TurnEnd.error code message)
    | StepOutcome.max_tokens ↦ if more then none else some TurnEnd.max_tokens
    | StepOutcome.completed ↦
        if more
        then none
        else some (if s.turn_saw_max_tokens then TurnEnd.max_tokens else TurnEnd.completed)
  ]
]

-- Whether a step of the turn has reached its ceiling, with the outcome that just came.
abbrev pub ceiling_seen : AgentLoop → StepOutcome → Bool
ceiling_seen s outcome = elim outcome [ StepOutcome.max_tokens ↦ true | _ ↦ s.turn_saw_max_tokens ]

abbrev pub Settles :
    AgentLoop → ℕ → ℕ → StepOutcome → Option TurnEnd → AgentLoop × List LoopOutput → Type 0
Settles s turn n outcome (some reason) (s', outs) =
    (s'.phase ≡ idle turn)
    × (s'.step_open ≡ false)
    × (s'.cancelled ≡ none)
    × (outs
        ≡ append (draft "step/end" (json (("turn", u64 turn) ∷ ("step", u64 n) ∷ [])))
          ∷ append
              (draft "turn/end" (json (("turn", u64 turn) ∷ ("reason", to_reason reason) ∷ [])))
          ∷ turn_ended reason
          ∷ [])
Settles s turn n outcome none (s', outs) =
    (s'.phase ≡ running turn (u64_succ n) true)
    × (s'.step_open ≡ true)
    × (s'.cancelled ≡ none)
    × (s'.turn_saw_max_tokens ≡ ceiling_seen s outcome)
    × (outs
        ≡ append (draft "step/end" (json (("turn", u64 turn) ∷ ("step", u64 n) ∷ [])))
          ∷ append
              (draft "step/start" (json (("turn", u64 turn) ∷ ("step", u64 (u64_succ n)) ∷ [])))
          ∷ call_model turn (u64_succ n)
          ∷ [])

-- A reply to an open step closes it, and then ends the turn with a reason that it logs and reports,
-- or opens the next step and calls the model: a latched cancel outranks the outcome, a failed call
-- ends the turn, and otherwise the turn goes on while there is a tool call or further input, and
-- remembers a token ceiling that this step or an earlier one reached; without either it ends, by the
-- ceiling if this step reached it or it is remembered.
pub step_reply-verdict :
    (s : AgentLoop) (turn n : ℕ) (opened : Bool) (outcome : StepOutcome) (tools more : Bool)
    → s.phase ≡ running turn n opened
    → s.step_open ≡ true
    → Settles s turn n outcome (verdict s outcome (tools || more)) (step_reply s outcome tools more)
unfolding step_reply
step_reply-verdict s turn n opened (StepOutcome.error _ _) tools more p o = ground arith
step_reply-verdict s turn n opened StepOutcome.completed tools more p o = ground arith
step_reply-verdict s turn n opened StepOutcome.max_tokens tools more p o = ground arith

-- A cancel of a running turn, and the reply that follows it, leave exactly the closers that are
-- owed, whatever the reply says, and the turn is over.
pub cancel_settles :
    (s : AgentLoop) (turn n : ℕ) (opened : Bool) (cause : CancelCause) (outcome : StepOutcome)
    (tools more : Bool)
    → s.phase ≡ running turn n opened
    → (log s (cancels cause ∷ replies outcome tools more ∷ []) ≡ (
        if s.step_open
        then end_rows turn n (TurnEnd.aborted cause)
        else draft "turn/end"
            (json (("turn", u64 turn) ∷ ("reason", to_reason (TurnEnd.aborted cause)) ∷ []))
          ∷ []))
      × ((run s (cancels cause ∷ replies outcome tools more ∷ [])).phase ≡ idle turn)
unfolding log run step cancel step_reply is_running
cancel_settles s turn n opened cause (StepOutcome.error _ _) tools more p = ground arith
cancel_settles s turn n opened cause _ tools more p = ground arith

-- A cancel does not outlive its turn: whatever was latched, a turn that begins from idle is open
-- after its `turn/start`, and ends at once, as completed, exactly if it was given no message.
pub begin_turn_forgets_cancel :
    (s : AgentLoop) (last : ℕ) (messages : List Value)
    → s.phase ≡ idle last
    → (is_running (begin_turn s messages).0 ≡ not (is_empty messages))
      × ((begin_turn s messages).0.cancelled ≡ none)
      × (first_end (appended (begin_turn s messages).1)
          ≡ (if is_empty messages then some (to_reason TurnEnd.completed) else none))
unfolding begin_turn is_running first_end
begin_turn_forgets_cancel s last [] p = ground arith
begin_turn_forgets_cancel s last (m ∷ ms) p = ground arith
