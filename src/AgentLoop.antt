-- ===== src/AgentLoop.antt =====
-- The turn/step machine of the agent loop (rust/crates/vocoderd/src/machines/agent_loop.rs).
-- A method that mutates the loop returns the new loop and its outputs.
mod Drafts
mod Examples
pub mod Trace
pub mod Shape
pub mod Resume
pub mod Endings
unfoldable pub use Drafts.{to_value, to_reason}
pub use Drafts.{
  Draft, draft, CancelCause, TurnEnd, StepOutcome, LoopOutput, append, call_model, turn_ended,
}
use dsh_rs.Base.{
  ℕ, String, concat, Option, none, some, List, [], ◌∷◌, ◌++◌, Bool, true, false, ◌||◌, max,
  u64_succ, show, is_empty, str_eq, if◌then◌else◌,
}
use dsh_rs.Json.{Value, null, json, u64, get, get_as, as_str, as_u64, unwrap_or}

pub data Phase : Type 0 where
  -- the last turn
  idle : ℕ → Phase
  -- turn, step, open
  running : ℕ → ℕ → Bool → Phase

pub record AgentLoop : Type 0 where
  pub phase : Phase
  pub cancelled : Option CancelCause
  pub turn_saw_max_tokens : Bool
  pub step_open : Bool

abbrev pub new_with_last_turn : ℕ → AgentLoop
new_with_last_turn last_turn = record {
  phase = idle last_turn;
  cancelled = none;
  turn_saw_max_tokens = false;
  step_open = false;
}

abbrev pub new : AgentLoop
new = new_with_last_turn 0

-- What a method answers: the loop that it leaves behind, and its outputs.
abbrev pub Answer : Type 0
Answer = AgentLoop × List LoopOutput

-- `outs.extend(self.method())`
abbrev pub extend : List LoopOutput → Answer → Answer
extend outs (s, more) = (s, outs ++ more)

at_turn : ℕ → Value
at_turn turn = json (("turn", u64 turn) ∷ [])

at_step : ℕ → ℕ → Value
at_step turn step = json (("turn", u64 turn) ∷ ("step", u64 step) ∷ [])

pub is_running : AgentLoop → Bool
is_running s = elim s.phase [ idle _ ↦ false | running _ _ _ ↦ true ]

pub current_turn : AgentLoop → Option ℕ
current_turn s = elim s.phase [ idle _ ↦ none | running turn _ _ ↦ some turn ]

pub position : AgentLoop → ℕ × ℕ
position s = elim s.phase [ idle last_turn ↦ (last_turn, 0) | running turn step _ ↦ (turn, step) ]

-- Close the open step, emitting `step/end`.
close_step : AgentLoop → ℕ → ℕ → Answer
unfolding at_step
close_step s turn step =
    if s.step_open
    then (record s { step_open = false }, append (draft "step/end" (at_step turn step)) ∷ [])
    else (s, [])

-- Close the running turn, emitting `turn/end`.
close_turn : AgentLoop → TurnEnd → Answer
unfolding to_reason
close_turn s reason = elim s.phase [
  | idle _ ↦ (s, [])
  | running turn _ _ ↦ (
    record s { phase = idle turn; step_open = false; cancelled = none },
    append (draft "turn/end" (json (("turn", u64 turn) ∷ ("reason", to_reason reason) ∷ [])))
        ∷ turn_ended reason
        ∷ [],
  )
]

pub begin_turn : AgentLoop → List Value → Answer
unfolding at_turn close_turn show
begin_turn s messages = elim s.phase [
  | running turn _ _ ↦ (
    s,
    turn_ended (TurnEnd.error "AGENT_BUSY" (concat "agent is already running turn " (show turn)))
        ∷ [],
  )
  | idle last_turn ↦
      let turn = u64_succ last_turn in
      let opened : AgentLoop = record s {
        phase = running turn 0 true;
        turn_saw_max_tokens = false;
        cancelled = none;
      } in
      let outs : List LoopOutput = append (draft "turn/start" (at_turn turn)) ∷ [] in
      elim opened.cancelled [
        | some cause ↦ extend outs (close_turn opened (TurnEnd.aborted cause))
        | none ↦
            if is_empty messages
            then extend outs (close_turn opened TurnEnd.completed)
            else (opened, outs)
      ]
]

-- Open the next step of the running turn.
begin_step : AgentLoop → Answer
unfolding at_step
begin_step s = elim s.phase [
  | idle _ ↦ (s, [])
  | running turn step _ ↦ elim s.cancelled [
    | some _ ↦ (s, [])
    | none ↦
        let next = u64_succ step in
        (
          record s { phase = running turn next true; step_open = true },
          append (draft "step/start" (at_step turn next)) ∷ call_model turn next ∷ [],
        )
  ]
]

pub enter_step : AgentLoop → Answer
unfolding is_running begin_step
enter_step s = if is_running s then begin_step s else (s, [])

no_open_step : String → LoopOutput
no_open_step message = turn_ended (TurnEnd.error "AGENT_NO_OPEN_STEP" message)

-- The outcome of an uncancelled reply, once its step is closed.
settle : AgentLoop → StepOutcome → Bool → Bool → Answer
unfolding begin_step close_turn
settle s (StepOutcome.error code message) has_tool_calls more_input =
    close_turn s (TurnEnd.error code message)
settle s outcome has_tool_calls more_input =
    let noted : AgentLoop = elim outcome [
      | StepOutcome.max_tokens ↦ record s { turn_saw_max_tokens = true }
      | _ ↦ s
    ] in
    if has_tool_calls || more_input
    then begin_step noted
    else close_turn noted
        (if noted.turn_saw_max_tokens then TurnEnd.max_tokens else TurnEnd.completed)

pub step_reply : AgentLoop → StepOutcome → Bool → Bool → Answer
unfolding close_step settle no_open_step show
step_reply s outcome has_tool_calls more_input = elim s.phase [
  | idle _ ↦ (s, no_open_step "no turn is running, so no step can be settled" ∷ [])
  | running turn step _ ↦
      if s.step_open
      then (let (closed, outs) = close_step s turn step in
          elim s.cancelled [
            | some cause ↦ extend outs (close_turn closed (TurnEnd.aborted cause))
            | none ↦ extend outs (settle closed outcome has_tool_calls more_input)
          ])
      else (
        s,
        no_open_step (
              concat "reply for turn "
                (concat (show turn) (concat " step " (concat (show step) " but no step is open"))))
            ∷ [],
      )
]

-- The pre-step hook rejected the step.
pub reject_step : AgentLoop → Answer
unfolding close_step close_turn
reject_step s = elim s.phase [
  | running turn step _ ↦
      let (closed, outs) = close_step s turn step in extend outs (close_turn closed TurnEnd.blocked)
  | idle _ ↦ extend [] (close_turn s TurnEnd.blocked)
]

pub cancel : AgentLoop → CancelCause → Answer
unfolding is_running close_turn
cancel s cause =
    if is_running s
    then (let latched : AgentLoop = record s { cancelled = some cause } in
        if s.step_open then (latched, []) else close_turn latched (TurnEnd.aborted cause))
    else (s, [])

pub cancel_pending : AgentLoop → Bool
cancel_pending s = elim s.cancelled [ none ↦ false | some _ ↦ true ]
