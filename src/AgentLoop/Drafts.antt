-- ===== src/AgentLoop/Drafts.antt =====
-- The rows that the agent loop appends and the reasons for which a turn ends
-- (rust/crates/vocoderd/src/machines/agent_loop.rs).
use dsh_rs.Base.{ℕ, String, [], ◌∷◌}
use dsh_rs.Json.{Value, string, json}

-- A row before `seq` and `time` are assigned.
pub record Draft : Type 0 where
  pub row_type : String
  pub payload : Value

abbrev pub draft : String → Value → Draft
draft row_type payload = record { row_type = row_type; payload = payload }

pub data CancelCause : Type 0 where
  user parent disposed legacy : CancelCause
  hook : String → CancelCause

pub data TurnEnd : Type 0 where
  completed blocked max_tokens : TurnEnd
  aborted : CancelCause → TurnEnd
  error : String → String → TurnEnd

unfoldable pub to_value : CancelCause → Value
to_value user = json (("kind", string "user") ∷ [])
to_value parent = json (("kind", string "parent") ∷ [])
to_value (hook reason) = json (("kind", string "hook") ∷ ("reason", string reason) ∷ [])
to_value disposed = json (("kind", string "disposed") ∷ [])
to_value legacy = json (("kind", string "legacy") ∷ [])

unfoldable pub to_reason : TurnEnd → Value
unfolding to_value
to_reason completed = json (("kind", string "completed") ∷ [])
to_reason (aborted cause) = json (("kind", string "aborted") ∷ ("reason", to_value cause) ∷ [])
to_reason blocked = json (("kind", string "blocked") ∷ [])
to_reason (error code message) = json (
    ("kind", string "error")
    ∷ ("error", json (("message", string message) ∷ ("code", string code) ∷ []))
    ∷ [])
to_reason max_tokens = json (("kind", string "max-tokens") ∷ [])

pub data StepOutcome : Type 0 where
  completed max_tokens : StepOutcome
  error : String → String → StepOutcome

pub data LoopOutput : Type 0 where
  append : Draft → LoopOutput
  call_model : ℕ → ℕ → LoopOutput
  turn_ended : TurnEnd → LoopOutput
