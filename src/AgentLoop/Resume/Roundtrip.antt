-- ===== src/AgentLoop/Resume/Roundtrip.antt =====
-- Resuming from the log that a loop wrote finds the turn and step where that loop stood.
use dsh_rs.Base.{
  and_then, ℕ, ◌+◌, ◌≤◌, ◌<◌, ◌≡◌, refl, String, Option, none, some, List, [], ◌∷◌, length, str_eq,
  eq_iff, u64_succ_lem, u64_mod, arith, ◌∙◌, ap, sym, Bool, false, true, inl, inr, Option-cases,
}
use dsh_rs.Json.{Value, string, null, get, get_as, as_str, as_u64, unwrap_or}
use dsh_rs.AgentLoop.{
  AgentLoop, running, new, new_with_last_turn, Draft, StepOutcome, position, is_running, step_reply,
}
use dsh_rs.AgentLoop.Trace.{Call, run, log, Disciplined, appended}
use dsh_rs.AgentLoop.Shape.{
  Place, outside, in_turn, in_step, accept, accept_typed, accept_all, place, run-accepted,
}
use dsh_rs.AgentLoop.Resume.{Scan, start, scan_typed, scan_row, scan, resumed, resume_from}

-- A row that the scan passes over.
abbrev pub IsOther : Value → Type 0
IsOther row =
    let ty = unwrap_or (get_as as_str row "type") "" in
    (str_eq ty "turn/start" ≡ false)
    × (str_eq ty "step/start" ≡ false)
    × (str_eq ty "turn/end" ≡ false)

-- The log holds the drafts, in order, each with whatever `seq` and `time` the publisher gave it,
-- among rows of other types.
pub data Written : List Draft → List Value → Type 0 where
  done : Written [] []
  row :
      {ds : List Draft} {rows : List Value} (d : Draft) (v : Value)
      → get v "type" ≡ some (string d.row_type)
      → get v "data" ≡ some d.payload
      → Written ds rows
      → Written (d ∷ ds) (v ∷ rows)
  other :
      {ds : List Draft} {rows : List Value} (v : Value)
      → IsOther v
      → Written ds rows
      → Written ds (v ∷ rows)

abbrev reached : Place → ℕ
reached (outside last) = last
reached (in_turn turn _) = turn
reached (in_step turn _) = turn

abbrev Agrees : Scan → Place → Type 0
Agrees s (outside last) = (s.open_turn ≡ none) × (s.last_turn ≡ last)
Agrees s (in_turn turn k) = (s.open_turn ≡ some (turn, k)) × (s.last_turn ≤ turn)
Agrees s (in_step turn k) = (s.open_turn ≡ some (turn, k)) × (s.last_turn ≤ turn)

-- A type is one of the grammar's at most.
tag_laws :
    (ty : String)
    → (str_eq ty "step/end" ≡ true
        → (str_eq ty "turn/start" ≡ false)
          × (str_eq ty "step/start" ≡ false)
          × (str_eq ty "turn/end" ≡ false))
tag_laws ty h = rw ((eq_iff ty "step/end").0 h) (refl, refl, refl)

scan-accept :
    (s : Scan) (p q : Place) (ty : String) (turn n : Option ℕ)
    → reached p + 1 < u64_mod
    → Agrees s p
    → accept_typed p ty turn n ≡ some q
    → Agrees (scan_typed s ty turn n) q × (reached q ≤ reached p + 1)
scan-accept s (outside last) q ty turn n b a e = ground (arith, u64_succ_lem last, tag_laws ty)
scan-accept s (in_turn t k) q ty turn n b a e = ground (arith, tag_laws ty)
scan-accept s (in_step t k) q ty turn n b a e = ground (arith, tag_laws ty)

scan-other : (s : Scan) (v : Value) → IsOther v → scan_row s v ≡ s
unfolding scan_row
scan-other s v h = ground arith

-- `scan_row` reads a row's type and data only.
abbrev scan_fields : Scan → Option Value → Option Value → Scan
scan_fields s ty found =
    let payload = unwrap_or found null in
    scan_typed s (unwrap_or (and_then ty as_str) "") (get_as as_u64 payload "turn")
      (get_as as_u64 payload "step")

scan_row_written :
    (s : Scan) (d : Draft) (v : Value)
    → get v "type" ≡ some (string d.row_type)
    → get v "data" ≡ some d.payload
    → scan_row s v
      ≡ scan_typed s d.row_type (get_as as_u64 d.payload "turn") (get_as as_u64 d.payload "step")
unfolding scan_row
scan_row_written s d v ty found =
    ap (λ t. scan_fields s t (get v "data")) ty
    ∙ ap (scan_fields s (some (string d.row_type))) found

scan-row :
    (s : Scan) (p q : Place) (d : Draft) (v : Value)
    → reached p + 1 < u64_mod
    → Agrees s p
    → get v "type" ≡ some (string d.row_type)
    → get v "data" ≡ some d.payload
    → accept p d ≡ some q
    → Agrees (scan_row s v) q × (reached q ≤ reached p + 1)
scan-row s p q d v b a ty found e = rw (scan_row_written s d v ty found) (
    scan-accept s p q d.row_type (get_as as_u64 d.payload "turn") (get_as as_u64 d.payload "step") b
      a e)

accept_all-none : (ds : List Draft) → accept_all none ds ≡ none
unfolding accept_all
accept_all-none [] = refl
accept_all-none (d ∷ ds) = refl

-- The scan of a log that follows the grammar agrees with the place where the grammar ends.
scan-Agrees :
    {ds : List Draft} {rows : List Value}
    → Written ds rows
    → (s : Scan) (p q : Place) → reached p + length ds < u64_mod
    → Agrees s p
    → accept_all (some p) ds ≡ some q
    → Agrees (scan s rows) q
unfolding scan accept_all
scan-Agrees done s p q b a e = ground arith
scan-Agrees (row {ds} d v ty pl w) s p q b a e = elim (Option-cases (accept p d)) [
  | inl stuck ↦ cc (stuck, accept_all-none ds)
  | inr (r, here) ↦
      let (a', grown) = scan-row s p r d v (omega arith) a ty pl here in
      scan-Agrees w (scan_row s v) r q (omega arith) a' (ap (λ o. accept_all o ds) (sym here) ∙ e)
]
scan-Agrees (other v o w) s p q b a e = rw (scan-other s v o) (scan-Agrees w s p q b a e)

-- Where a resumed loop stands, for a log that ends at a place of the grammar.
abbrev pub resumed_at : Place → AgentLoop
resumed_at (outside last) = new_with_last_turn last
resumed_at (in_turn turn n) = record (new_with_last_turn 0) {
  phase = running turn n false;
  step_open = true;
}
resumed_at (in_step turn n) = record (new_with_last_turn 0) {
  phase = running turn n false;
  step_open = true;
}

resumed-Agrees : (s : Scan) (p : Place) → Agrees s p → resumed s ≡ resumed_at p
resumed-Agrees s (outside last) a = ground arith
resumed-Agrees s (in_turn turn n) a = ground arith
resumed-Agrees s (in_step turn n) a = ground arith

-- A log of fewer than 2^64 rows that follows the grammar resumes where the grammar ends: idle
-- after its last turn, or inside its last turn, whose latest step then counts as open.
pub resume_from-accepted :
    (ds : List Draft) (rows : List Value) (p : Place)
    → Written ds rows
    → length ds < u64_mod
    → accept_all (some (outside 0)) ds ≡ some p
    → resume_from rows ≡ resumed_at p
unfolding resume_from
resume_from-accepted ds rows p w b e =
    resumed-Agrees (scan start rows) p
      (scan-Agrees w start (outside 0) p (omega arith) (refl, refl) e)

position-resumed_at :
    (s : AgentLoop)
    → (position (resumed_at (place s)) ≡ position s)
      × (is_running (resumed_at (place s)) ≡ is_running s)
unfolding position is_running
position-resumed_at s = ground arith

-- A loop that is rebuilt from the rows that a fresh loop appended, in whatever order it was called
-- with no step entered while one was open, stands at the same turn and step as that loop.
pub resume_from-run :
    (cs : List Call) (rows : List Value)
    → Disciplined new cs
    → Written (log new cs) rows
    → length (log new cs) < u64_mod
    → (position (resume_from rows) ≡ position (run new cs))
      × (is_running (resume_from rows) ≡ is_running (run new cs))
resume_from-run cs rows d w b =
    rw
      (resume_from-accepted (log new cs) rows (place (run new cs)) w b
        (run-accepted new cs refl d).0)
      (position-resumed_at (run new cs))

-- A log that stops between two steps resumes with the closed step open again, so the reply that
-- settles it appends a second `step/end`, which the grammar refuses.
pub resume_from_between_steps :
    (turn n : ℕ) (outcome : StepOutcome) (tools more : Bool)
    → accept_all
        (some (in_turn turn n))
        (appended (step_reply (resumed_at (in_turn turn n)) outcome tools more).1)
      ≡ none
unfolding step_reply accept_all
resume_from_between_steps turn n (StepOutcome.error _ _) tools more = refl
resume_from_between_steps turn n _ tools more = ground arith
