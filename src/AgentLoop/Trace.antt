-- ===== src/AgentLoop/Trace.antt =====
-- Sequences of calls on one agent loop, and the rows that they append.
use dsh_rs.Base.{◌≡◌, Bool, false, List, [], ◌∷◌, ◌++◌}
use dsh_rs.Json.{Value}
use dsh_rs.AgentLoop.{
  AgentLoop, idle, running, Answer, Draft, CancelCause, StepOutcome, LoopOutput, append, call_model,
  turn_ended, begin_turn, enter_step, step_reply, reject_step, cancel,
}

pub data Call : Type 0 where
  begins : List Value → Call
  enters rejects : Call
  replies : StepOutcome → Bool → Bool → Call
  cancels : CancelCause → Call

unfoldable pub step : AgentLoop → Call → Answer
step s (begins messages) = begin_turn s messages
step s enters = enter_step s
step s rejects = reject_step s
step s (replies outcome has_tool_calls more_input) = step_reply s outcome has_tool_calls more_input
step s (cancels cause) = cancel s cause

unfoldable pub run : AgentLoop → List Call → AgentLoop
run s [] = s
run s (c ∷ cs) = run (step s c).0 cs

-- The rows of some outputs, in order.
abbrev pub appended : List LoopOutput → List Draft
appended [] = []
appended (append d ∷ outs) = d ∷ appended outs
appended (call_model _ _ ∷ outs) = appended outs
appended (turn_ended _ ∷ outs) = appended outs

-- The rows that a sequence of calls appends to the log.
unfoldable pub log : AgentLoop → List Call → List Draft
log s [] = []
log s (c ∷ cs) = appended (step s c).1 ++ log (step s c).0 cs

-- No step is open while the loop is idle.
abbrev pub IsValid : AgentLoop → Type 0
IsValid s = elim s.phase [ idle _ ↦ s.step_open ≡ false | running _ _ _ ↦ Unit {0} ]

-- The driver asks `step_is_open` before it enters a step.
abbrev pub Allowed : AgentLoop → Call → Type 0
Allowed s enters = s.step_open ≡ false
Allowed s _ = Unit {0}

abbrev pub Disciplined : AgentLoop → List Call → Type 0
Disciplined s [] = Unit
Disciplined s (c ∷ cs) = Allowed s c × Disciplined (step s c).0 cs
