-- ===== src/AgentLoop/Shape.antt =====
-- The grammar of a session log's turn and step rows, written down independently of the loop, and
-- the proof that the loop's rows follow it.
use dsh_rs.Base.{
  ℕ, String, ◌≡◌, refl, Bool, true, false, ◌&&◌, List, [], ◌∷◌, ◌++◌, Option, none, some, u64_succ,
  str_eq, ◌==◌, if◌then◌else◌, arith,
}
use dsh_rs.Json.{get_as, as_u64}
use dsh_rs.AgentLoop.{
  AgentLoop, idle, running, Draft, StepOutcome, begin_turn, enter_step, step_reply, reject_step,
  cancel, is_running,
}
use dsh_rs.AgentLoop.Trace.{
  Call, begins, enters, rejects, replies, cancels, step, run, appended, log, IsValid, Disciplined,
  Allowed,
}

-- Where a log stands: after turn `n`, in turn `n` after step `k`, or inside step `k` of turn `n`.
pub data Place : Type 0 where
  outside : ℕ → Place
  in_turn in_step : ℕ → ℕ → Place

abbrev guard : Bool → Place → Option Place
guard true p = some p
guard false p = none

abbrev open_turn : Place → Option ℕ → Option Place
open_turn (outside last) (some turn) = guard (turn == u64_succ last) (in_turn turn 0)
open_turn _ _ = none

abbrev open_step : Place → Option ℕ → Option ℕ → Option Place
open_step (in_turn turn k) (some t) (some n) = guard (t == turn && n == u64_succ k) (in_step turn n)
open_step _ _ _ = none

abbrev shut_step : Place → Option ℕ → Option ℕ → Option Place
shut_step (in_step turn k) (some t) (some n) = guard (t == turn && n == k) (in_turn turn k)
shut_step _ _ _ = none

abbrev shut_turn : Place → Option ℕ → Option Place
shut_turn (in_turn turn k) (some t) = guard (t == turn) (outside turn)
shut_turn _ _ = none

abbrev pub accept_typed : Place → String → Option ℕ → Option ℕ → Option Place
accept_typed p ty turn n =
    if str_eq ty "turn/start"
    then open_turn p turn
    else if str_eq ty "step/start"
    then open_step p turn n
    else if str_eq ty "step/end"
    then shut_step p turn n
    else if str_eq ty "turn/end"
    then shut_turn p turn
    else none

-- Turns and steps are numbered one after the other, and each is closed before the next opens.
abbrev pub accept : Place → Draft → Option Place
accept p d =
    accept_typed p d.row_type (get_as as_u64 d.payload "turn") (get_as as_u64 d.payload "step")

unfoldable pub accept_all : Option Place → List Draft → Option Place
accept_all p [] = p
accept_all none (d ∷ ds) = none
accept_all (some p) (d ∷ ds) = accept_all (accept p d) ds

accept_all-append :
    (p : Option Place) (ds es : List Draft)
    → accept_all p (ds ++ es) ≡ accept_all (accept_all p ds) es
unfolding accept_all
accept_all-append p [] es = refl
accept_all-append none (d ∷ ds) [] = refl
accept_all-append none (d ∷ ds) (e ∷ es) = refl
accept_all-append (some p) (d ∷ ds) es = accept_all-append (accept p d) ds es

abbrev pub place : AgentLoop → Place
place s = elim s.phase [
  | idle last ↦ outside last
  | running turn k _ ↦ if s.step_open then in_step turn k else in_turn turn k
]

-- One call: what it appends leads from the loop's place to its new place.
step-place :
    (s : AgentLoop) (c : Call)
    → IsValid s
    → Allowed s c
    → (accept_all (some (place s)) (appended (step s c).1) ≡ some (place (step s c).0))
      × IsValid (step s c).0
unfolding accept_all step begin_turn enter_step step_reply reject_step cancel
step-place s (begins []) v a = ground arith
step-place s (begins (m ∷ ms)) v a = ground arith
step-place s enters v a = ground arith
step-place s rejects v a = ground arith
step-place s (replies (StepOutcome.error _ _) tools more) v a = ground arith
step-place s (replies _ tools more) v a = ground arith
step-place s (cancels cause) v a = ground arith

-- From a valid loop, after any calls that enter no step while one is open, the rows that were
-- appended follow the grammar from the loop's first place to its last, and the loop is valid.
pub run-accepted :
    (s : AgentLoop) (cs : List Call)
    → IsValid s
    → Disciplined s cs
    → (accept_all (some (place s)) (log s cs) ≡ some (place (run s cs))) × IsValid (run s cs)
unfolding accept_all run log
run-accepted s [] v a = (refl, v)
run-accepted s (c ∷ cs) v (a, rest) =
    let (here, v') = step-place s c v a in
    let (there, v'') = run-accepted (step s c).0 cs v' rest in
    (
      rw (accept_all-append (some (place s)) (appended (step s c).1) (log (step s c).0 cs), here)
          there,
      v'',
    )

-- The discipline is needed: entering a step of an uncancelled turn while one is open opens a
-- second step without closing the first, which the grammar refuses.
pub enter_step_unbalanced :
    (s : AgentLoop)
    → is_running s ≡ true
    → s.step_open ≡ true
    → s.cancelled ≡ none
    → accept_all (some (place s)) (appended (step s enters).1) ≡ none
unfolding accept_all step enter_step is_running
enter_step_unbalanced s r o c = ground arith
