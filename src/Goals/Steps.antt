-- ===== src/Goals/Steps.antt =====
-- How goals change, and what the others are told (rust/crates/vocoderd/src/machines/goals.rs).
use dsh_rs.Base.{
  ℕ, ◌≡◌, ◌≢◌, ◌⊎◌, inl, inr, refl, sym, subst, String, concat, Option, none, some, List, [], ◌∷◌,
  ◌++◌, Bool, true, false, ◌||◌, str_eq, eq_iff, u64_succ, if◌then◌else◌, arith,
}
use dsh_rs.Base.Dict.{lookup, insert, erase, lookup-insert, lookup-erase}
use dsh_rs.Json.{Value, null, get, unwrap_or}
use dsh_rs.Router.Messages.{MachineIn, MachineOut}
use dsh_rs.Goals.{
  objective_of, phase_of, GoalRecord, Goals, Done, created, change_goal, get_goal, clear_goal,
  create_goal, call, changed, publish, agent_of, handle,
}

-- What may happen to the goal of one agent.
pub data GoalStep (new_id : String) : Option GoalRecord → Option GoalRecord → Type 0 where
  made :
      {o : Option GoalRecord} {g : GoalRecord}
      → g.id ≡ concat "goal-" new_id
      → g.revision ≡ 1
      → g.phase ≡ "active"
      → g.objective ≢ ""
      → GoalStep new_id o (some g)
  cleared : {g : GoalRecord} → GoalStep new_id (some g) none
  moved :
      {g g' : GoalRecord}
      → g'.id ≡ g.id
      → g'.revision ≡ u64_succ g.revision
      → g'.created_at ≡ g.created_at
      → (g'.phase ≡ g.phase) ⊎ (g'.objective ≡ g.objective)
      → GoalStep new_id (some g) (some g')

-- Whether an event is sent out.
abbrev pub tells : List MachineOut → Bool
tells [] = false
tells (MachineOut.dispatch _ _ _ ∷ rest) = true
tells (_ ∷ rest) = tells rest

-- Only one agent's goal takes a step.
pub record IsChange (new_id agent : String) (m m' : Goals) : Type 0 where
  pub stepped : GoalStep new_id (lookup agent m) (lookup agent m')
  pub others : (other : String) → agent ≢ other → lookup other m' ≡ lookup other m

IsChange-insert :
    (new_id agent : String) (m : Goals) (g : GoalRecord)
    → GoalStep new_id (lookup agent m) (some g)
    → IsChange new_id agent m (insert agent g m)
IsChange-insert new_id agent m g s = record {
  stepped =
      subst (GoalStep new_id (lookup agent m))
        (sym ((lookup-insert m agent g agent).0 ((eq_iff agent agent).1 refl))) s;
  others = λ other n. (lookup-insert m agent g other).1 (ground (arith, eq_iff agent other));
}

IsChange-erase :
    (new_id agent : String) (m : Goals) (g : GoalRecord)
    → lookup agent m ≡ some g
    → IsChange new_id agent m (erase agent m)
IsChange-erase new_id agent m g e =
    let gone : lookup agent (erase agent m) ≡ none =
      ground (arith, lookup-erase m agent agent, eq_iff agent agent) in
    record {
      stepped =
          subst (λ o. GoalStep new_id o (lookup agent (erase agent m))) (sym e)
            (subst (GoalStep new_id (some g)) (sym gone) GoalStep.cleared);
      others = λ other n. ground (arith, lookup-erase m agent other, eq_iff agent other);
    }

-- A call that changes no goal tells nothing; one that does, says so.
data IsLawful (new_id agent : String) (m : Goals) (d : Done) : Type 0 where
  quiet : d.2 ≡ false → d.1 ≡ m → tells d.0 ≡ false → IsLawful new_id agent m d
  loud : d.2 ≡ true → tells d.0 ≡ false → IsChange new_id agent m d.1 → IsLawful new_id agent m d

if-IsLawful :
    (new_id agent : String) (m : Goals) (b : Bool) (x y : Done)
    → (b ≡ true → IsLawful new_id agent m x)
    → (b ≡ false → IsLawful new_id agent m y)
    → IsLawful new_id agent m (if b then x else y)
if-IsLawful new_id agent m true x y hx hy = hx refl
if-IsLawful new_id agent m false x y hx hy = hy refl

change_goal-IsLawful :
    (new_id agent : String) (m : Goals) (now : ℕ) (o : Option GoalRecord)
    (f : GoalRecord → GoalRecord)
    → lookup agent m ≡ o
    → ((g : GoalRecord)
        → ((f g).id ≡ g.id)
          × ((f g).created_at ≡ g.created_at)
          × (((f g).phase ≡ g.phase) ⊎ ((f g).objective ≡ g.objective)))
    → IsLawful new_id agent m (change_goal m agent now o f)
change_goal-IsLawful new_id agent m now none f e keeps = quiet refl refl refl
change_goal-IsLawful new_id agent m now (some g) f e keeps =
    let (same_id, same_birth, one) = keeps g in
    let g' = record (f g) { revision = u64_succ g.revision; updated_at = now } in
    loud refl refl (
      IsChange-insert new_id agent m g' (
        subst (λ o. GoalStep new_id o (some g')) (sym e)
          (GoalStep.moved {g = g} {g' = g'} same_id refl same_birth one)))

get_goal-IsLawful :
    (new_id agent : String) (m : Goals) (o : Option GoalRecord)
    → IsLawful new_id agent m (get_goal m o)
get_goal-IsLawful new_id agent m none = quiet refl refl refl
get_goal-IsLawful new_id agent m (some g) = quiet refl refl refl

clear_goal-IsLawful :
    (new_id agent : String) (m : Goals) (o : Option GoalRecord)
    → lookup agent m ≡ o
    → IsLawful new_id agent m (clear_goal m agent o)
clear_goal-IsLawful new_id agent m none e = quiet refl refl refl
clear_goal-IsLawful new_id agent m (some g) e = loud refl refl (IsChange-erase new_id agent m g e)

create_goal-IsLawful :
    (new_id agent : String) (m : Goals) (objective : String) (now : ℕ)
    → str_eq objective "" ≡ false
    → IsLawful new_id agent m (create_goal m agent objective new_id now)
create_goal-IsLawful new_id agent m objective now e =
    let g = created (concat "goal-" new_id) objective now in
    loud refl refl (
      IsChange-insert new_id agent m g
        (GoalStep.made refl refl refl (ground (arith, eq_iff objective ""))))

call-IsLawful :
    (m : Goals) (method : String) (args : Value) (agent new_id : String) (now : ℕ)
    → IsLawful new_id agent m (call m method args agent new_id now)
unfolding call
call-IsLawful m method args agent new_id now =
    let o = lookup agent m in
    let asked = objective_of args in
    if-IsLawful new_id agent m (str_eq method "create") _ _
      (λ _.
        if-IsLawful new_id agent m (str_eq asked "") _ (create_goal m agent asked new_id now)
          (λ _. quiet refl refl refl) (λ e. create_goal-IsLawful new_id agent m asked now e))
      (λ _.
        if-IsLawful new_id agent m (str_eq method "get") (get_goal m o) _
          (λ _. get_goal-IsLawful new_id agent m o)
          (λ _.
            if-IsLawful new_id agent m (str_eq method "clear") (clear_goal m agent o) _
              (λ _. clear_goal-IsLawful new_id agent m o refl)
              (λ _.
                if-IsLawful new_id agent m
                  (str_eq method "complete" || str_eq method "pause" || str_eq method "resume") _ _
                  (λ _.
                    change_goal-IsLawful new_id agent m now o
                      (λ g. record g { phase = phase_of method }) refl
                      (λ g. (refl, refl, inr refl)))
                  (λ _.
                    if-IsLawful new_id agent m (str_eq method "edit") _ _
                      (λ _.
                        change_goal-IsLawful new_id agent m now o
                          (λ g. record g { objective = asked }) refl (λ g. (refl, refl, inl refl)))
                      (λ _. quiet refl refl refl)))))

-- A call's changes are published for the agent that it names.
pub data IsTold (new_id agent : String) (m : Goals) (out : List MachineOut × Goals) : Type 0 where
  unchanged : out.1 ≡ m → tells out.0 ≡ false → IsTold new_id agent m out
  told :
      (rest : List MachineOut)
      → tells rest ≡ false
      → IsChange new_id agent m out.1
      → out.0 ≡ rest ++ changed agent out.1 ∷ []
      → IsTold new_id agent m out

publish-IsTold :
    (new_id agent : String) (m : Goals) (d : Done)
    → IsLawful new_id agent m d
    → IsTold new_id agent m (publish agent d)
publish-IsTold new_id agent m (outs, m', true) (quiet e _ _) = cc e
publish-IsTold new_id agent m (outs, m', false) (quiet _ same silent) = unchanged same silent
publish-IsTold new_id agent m (outs, m', true) (loud _ silent change) = told outs silent change refl
publish-IsTold new_id agent m (outs, m', false) (loud e _ _) = cc e

if-IsTold :
    (new_id agent : String) (m : Goals) (b : Bool) (x y : List MachineOut × Goals)
    → IsTold new_id agent m x
    → IsTold new_id agent m y
    → IsTold new_id agent m (if b then x else y)
if-IsTold new_id agent m true x y hx hy = hx
if-IsTold new_id agent m false x y hx hy = hy

-- The agent that an input is about.
abbrev pub agent_in : MachineIn → String
agent_in (MachineIn.event name payload) = agent_of (unwrap_or (get payload "args") null)
agent_in _ = ""

-- Whatever the machine is sent, either no goal changes and no event is sent out, or the goal of the
-- agent that the call names takes one step (it is made, cleared, or moves to its next revision), the
-- goals of the others stay, and the last output, and no other, tells of the goal as it is now.
pub handle-IsTold :
    (m : Goals) (ev : MachineIn) (new_id : String) (now : ℕ)
    → IsTold new_id (agent_in ev) m (handle m ev new_id now)
unfolding handle
handle-IsTold m (MachineIn.event name payload) new_id now =
    let agent = agent_in (MachineIn.event name payload) in
    if-IsTold new_id agent m (str_eq name "vocoder/goals/call") _ _
      (publish-IsTold new_id agent m _ (call-IsLawful m _ _ agent new_id now)) (unchanged refl refl)
handle-IsTold m _ new_id now = unchanged refl refl

-- `create` refuses an empty objective, but an edit whose request has none leaves the goal with an
-- empty objective.
pub edit_blanks :
    (m : Goals) (agent new_id : String) (now : ℕ) (g : GoalRecord) (args : Value)
    → lookup agent m ≡ some g
    → get args "request" ≡ none
    → lookup agent (call m "edit" args agent new_id now).1
      ≡ some (record g { objective = ""; revision = u64_succ g.revision; updated_at = now })
unfolding call
edit_blanks m agent new_id now g args e r =
    rw (e, r) ((lookup-insert m agent _ agent).0 ((eq_iff agent agent).1 refl))
