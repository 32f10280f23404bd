-- ===== src/AgentLoop/Resume.antt =====
-- `AgentLoop::resume_from`: rebuilding the loop's phase from a session log.
pub mod Roundtrip
use dsh_rs.Base.{
  ℕ, String, Option, none, some, List, [], ◌∷◌, false, true, max, str_eq, if◌then◌else◌,
}
use dsh_rs.Json.{Value, null, get, get_as, as_str, as_u64, unwrap_or}
use dsh_rs.AgentLoop.{AgentLoop, running, new_with_last_turn}

-- The local variables of the loop over the rows.
pub record Scan : Type 0 where
  pub last_turn : ℕ
  pub open_turn : Option (ℕ × ℕ)

abbrev pub start : Scan
start = record { last_turn = 0; open_turn = none }

abbrev at_step : ℕ → Option (ℕ × ℕ) → Option (ℕ × ℕ)
at_step step none = none
at_step step (some (turn, _)) = some (turn, step)

-- One row, by its type and the turn and step that its data names.
abbrev pub scan_typed : Scan → String → Option ℕ → Option ℕ → Scan
scan_typed s ty turn step =
    if str_eq ty "turn/start"
    then record s { open_turn = some (unwrap_or turn 1, 0) }
    else if str_eq ty "step/start"
    then record s { open_turn = at_step (unwrap_or step 1) s.open_turn }
    else if str_eq ty "turn/end"
    then record s { last_turn = max s.last_turn (unwrap_or turn s.last_turn); open_turn = none }
    else s

unfoldable pub scan_row : Scan → Value → Scan
scan_row s row =
    let payload = unwrap_or (get row "data") null in
    scan_typed s (unwrap_or (get_as as_str row "type") "") (get_as as_u64 payload "turn")
      (get_as as_u64 payload "step")

unfoldable pub scan : Scan → List Value → Scan
scan s [] = s
scan s (row ∷ rows) = scan (scan_row s row) rows

-- A turn that a crash left open counts as reached, and its step as open.
abbrev pub resumed : Scan → AgentLoop
resumed s = elim s.open_turn [
  | none ↦ new_with_last_turn s.last_turn
  | some (turn, step) ↦ record {
    phase = running turn step false;
    cancelled = none;
    turn_saw_max_tokens = false;
    step_open = true;
  }
]

unfoldable pub resume_from : List Value → AgentLoop
unfolding scan scan_row
resume_from rows = resumed (scan start rows)
