-- ===== src/AgentLoop/Examples.antt =====
-- The agent loop on concrete calls and logs
-- (rust/crates/vocoderd/src/machines/agent_loop.rs).
use dsh_rs.Base.{
  ◌≡◌, ◌≢◌, refl, some, none, List, [], ◌∷◌, true, false, length, u64_mod, u64_succ, ◌<◌, arith,
}
use dsh_rs.Json.{Value, string, json, u64}
use dsh_rs.AgentLoop.{
  AgentLoop, idle, running, new, Draft, draft, CancelCause, StepOutcome, TurnEnd, to_reason,
  begin_turn, step_reply, enter_step, is_running, position,
}
use dsh_rs.AgentLoop.Trace.{Call, begins, enters, replies, step, run, log, IsValid, Disciplined}
use dsh_rs.AgentLoop.Shape.{accept_all, place, run-accepted}
use dsh_rs.AgentLoop.Endings.{first_end, Settles, max_tokens_sticky, step_reply-verdict}
use dsh_rs.AgentLoop.Resume.{resume_from}
use dsh_rs.AgentLoop.Resume.Roundtrip.{Written, done, row, other, resume_from-run}

-- A turn with two steps: the first hits the token ceiling and calls a tool.
abbrev two_steps : List Call
two_steps =
    begins (string "hi" ∷ [])
    ∷ enters
    ∷ replies StepOutcome.max_tokens true false
    ∷ replies StepOutcome.completed false false
    ∷ []

abbrev two_steps_rows : List Draft
two_steps_rows =
    draft "turn/start" (json (("turn", u64 1) ∷ []))
    ∷ draft "step/start" (json (("turn", u64 1) ∷ ("step", u64 1) ∷ []))
    ∷ draft "step/end" (json (("turn", u64 1) ∷ ("step", u64 1) ∷ []))
    ∷ draft "step/start" (json (("turn", u64 1) ∷ ("step", u64 2) ∷ []))
    ∷ draft "step/end" (json (("turn", u64 1) ∷ ("step", u64 2) ∷ []))
    ∷ draft "turn/end" (json (("turn", u64 1) ∷ ("reason", to_reason TurnEnd.max_tokens) ∷ []))
    ∷ []

log-two_steps : log new two_steps ≡ two_steps_rows
unfolding log step begin_turn enter_step step_reply u64_succ
log-two_steps = refl

two_steps-Disciplined : Disciplined new two_steps
unfolding step begin_turn enter_step step_reply u64_succ
two_steps-Disciplined = (tt, (refl, (tt, (tt, tt))))

run-accepted_example :
    (accept_all (some (place new)) (log new two_steps) ≡ some (place (run new two_steps)))
    × IsValid (run new two_steps)
run-accepted_example = run-accepted new two_steps refl two_steps-Disciplined

-- In step 1 of turn 1, after a token ceiling.
abbrev in_first_step : AgentLoop
in_first_step = record {
  phase = running 1 1 true;
  cancelled = none;
  turn_saw_max_tokens = true;
  step_open = true;
}

-- In step 1 of turn 1, before its reply.
abbrev fresh_step : AgentLoop
fresh_step = record {
  phase = running 1 1 true;
  cancelled = none;
  turn_saw_max_tokens = false;
  step_open = true;
}

max_tokens_sticky_example :
    first_end (
      log fresh_step (
        replies StepOutcome.max_tokens true false ∷ replies StepOutcome.completed false false ∷ []))
    ≢ some (to_reason TurnEnd.completed)
max_tokens_sticky_example =
    max_tokens_sticky fresh_step 1 1 true true false
      (replies StepOutcome.completed false false ∷ []) refl refl

step_reply-verdict_example :
    Settles in_first_step 1 1 StepOutcome.completed
      (some TurnEnd.max_tokens)
      (step_reply in_first_step StepOutcome.completed false false)
step_reply-verdict_example =
    step_reply-verdict in_first_step 1 1 true StepOutcome.completed false false refl refl

-- Idle after turn 3, with a cancel that arrived late.
abbrev late_cancel : AgentLoop
late_cancel = record {
  phase = idle 3;
  cancelled = some CancelCause.user;
  turn_saw_max_tokens = false;
  step_open = false;
}

abbrev published : Draft → Value
published d = json (("seq", u64 1) ∷ ("type", string d.row_type) ∷ ("data", d.payload) ∷ [])

abbrev message_row : Value
message_row = json (("type", string "user/message") ∷ [])

-- A turn that is still in its first step, with a message between its rows.
abbrev crashed : List Call
crashed = begins (string "hi" ∷ []) ∷ enters ∷ []

abbrev crashed_rows : List Value
crashed_rows =
    published (draft "turn/start" (json (("turn", u64 1) ∷ [])))
    ∷ message_row
    ∷ published (draft "step/start" (json (("turn", u64 1) ∷ ("step", u64 1) ∷ [])))
    ∷ []

crashed-Disciplined : Disciplined new crashed
unfolding step begin_turn
crashed-Disciplined = (tt, (refl, tt))

crashed-Written : Written (log new crashed) crashed_rows
unfolding log step begin_turn enter_step u64_succ
crashed-Written =
    row (draft "turn/start" (json (("turn", u64 1) ∷ [])))
      (published (draft "turn/start" (json (("turn", u64 1) ∷ [])))) refl refl
      (other message_row (refl, refl, refl)
        (row (draft "step/start" (json (("turn", u64 1) ∷ ("step", u64 1) ∷ [])))
          (published (draft "step/start" (json (("turn", u64 1) ∷ ("step", u64 1) ∷ [])))) refl refl
          done))

crashed-short : length (log new crashed) < u64_mod
unfolding log step begin_turn enter_step
crashed-short = omega arith

resume_from-run_example :
    (position (resume_from crashed_rows) ≡ position (run new crashed))
    × (is_running (resume_from crashed_rows) ≡ is_running (run new crashed))
resume_from-run_example =
    resume_from-run crashed crashed_rows crashed-Disciplined crashed-Written crashed-short

position-crashed : position (run new crashed) ≡ (1, 1)
unfolding position run step begin_turn enter_step u64_succ
position-crashed = refl
