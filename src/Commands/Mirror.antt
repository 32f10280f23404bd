-- ===== src/Commands/Mirror.antt =====
-- The commands machine knows the goals of the goals namespace
-- (rust/crates/vocoderd/src/machines/commands.rs and goals.rs).
use dsh_rs.Base.{
  ℕ, ◌≡◌, ◌≢◌, inl, inr, refl, sym, ap, ◌∙◌, subst, String, Option, none, some, List, [], ◌∷◌, ◌++◌,
  Bool, false, str_eq, eq_iff, if◌then◌else◌, Bool-cases, arith,
}
use dsh_rs.Base.Dict.{lookup, lookup-insert, lookup-erase}
use dsh_rs.Json.{json, string}
use dsh_rs.Router.Messages.{MachineIn, MachineOut}
use dsh_rs.Goals.{GoalRecord, Goals, changed, to_view, view_or_null, handle as goals_handle}
use dsh_rs.Goals.Steps.{IsTold, IsChange, agent_in, tells, handle-IsTold}
use dsh_rs.Commands.{Cache, observe_goal, handle}

-- What the cache is to hold of a goal.
abbrev pub seen : Option GoalRecord → Option (String × String)
seen none = none
seen (some g) = some (g.objective, g.phase)

-- The cache holds the goal of every agent that has a name.
abbrev pub Mirrors : Cache → Goals → Type 0
Mirrors c m = (agent : String) → agent ≢ "" → lookup agent c ≡ seen (lookup agent m)

-- The events among some outputs, delivered to the commands machine.
abbrev pub deliver : Cache → List MachineOut → String → Cache
deliver c [] id = c
deliver c (MachineOut.dispatch name payload mode ∷ rest) id =
    deliver (handle c (MachineIn.event name payload) id).1 rest id
deliver c (_ ∷ rest) id = deliver c rest id

deliver-append :
    (c : Cache) (xs ys : List MachineOut) (id : String)
    → deliver c (xs ++ ys) id ≡ deliver (deliver c xs id) ys id
deliver-append c [] ys id = refl
deliver-append c (MachineOut.dispatch name payload mode ∷ xs) ys id =
    deliver-append (handle c (MachineIn.event name payload) id).1 xs ys id
deliver-append c (_ ∷ xs) ys id = deliver-append c xs ys id

deliver_silent :
    (c : Cache) (xs : List MachineOut) (id : String) → tells xs ≡ false → deliver c xs id ≡ c
deliver_silent c [] id e = refl
deliver_silent c (MachineOut.dispatch name payload mode ∷ xs) id e = ground arith
deliver_silent c (_ ∷ xs) id e = deliver_silent c xs id e

observe_goal-lookup :
    (c : Cache) (agent : String) (o : Option GoalRecord) (other : String)
    → other ≢ ""
    → lookup other
        (observe_goal c (json (("agentId", string agent) ∷ ("goal", view_or_null o) ∷ [])))
      ≡ (if str_eq agent other then seen o else lookup other c)
unfolding to_view
observe_goal-lookup c agent none other n =
    ground (arith, lookup-erase c agent other, eq_iff agent "", eq_iff agent other)
observe_goal-lookup c agent (some g) other n =
    ground (
      arith,
      lookup-insert c agent (g.objective, g.phase) other,
      eq_iff agent "",
      eq_iff agent other,
    )

deliver-changed :
    (c : Cache) (agent : String) (m : Goals) (id other : String)
    → other ≢ ""
    → lookup other (deliver c (changed agent m ∷ []) id)
      ≡ (if str_eq agent other then seen (lookup agent m) else lookup other c)
unfolding handle
deliver-changed c agent m id other n = observe_goal-lookup c agent (lookup agent m) other n

changed-Mirrors :
    (c : Cache) (new_id agent id : String) (m m' : Goals)
    → Mirrors c m
    → IsChange new_id agent m m'
    → Mirrors (deliver c (changed agent m' ∷ []) id) m'
changed-Mirrors c new_id agent id m m' h change other n =
    let e = deliver-changed c agent m' id other n in
    let pick = λ (b : Bool). if b then seen (lookup agent m') else lookup other c in
    elim (Bool-cases (str_eq agent other)) [
      | inl same ↦ e ∙ ap pick same ∙ ap (λ a. seen (lookup a m')) ((eq_iff agent other).0 same)
      | inr apart ↦
          e
          ∙ ap pick apart
          ∙ h other n
          ∙ ap seen (sym (change.others other (ground (arith, eq_iff agent other))))
    ]

told-Mirrors :
    (c : Cache) (m : Goals) (new_id agent id : String) (out : List MachineOut × Goals)
    → Mirrors c m
    → IsTold new_id agent m out
    → Mirrors (deliver c out.0 id) out.1
told-Mirrors c m new_id agent id (outs, m') h (IsTold.unchanged same silent) =
    subst (λ c'. Mirrors c' m') (sym (deliver_silent c outs id silent))
      (subst (Mirrors c) (sym same) h)
told-Mirrors c m new_id agent id (outs, m') h (IsTold.told rest silent change e) =
    subst (λ l. Mirrors (deliver c l id) m') (sym e)
      (subst (λ c'. Mirrors c' m') (sym (deliver-append c rest (changed agent m' ∷ []) id))
        (subst (λ c'. Mirrors (deliver c' (changed agent m' ∷ []) id) m')
          (sym (deliver_silent c rest id silent))
          (changed-Mirrors c new_id agent id m m' h change)))

-- If the commands machine holds the goal of every named agent, it does so again when the goals
-- machine has taken any input and the events it sent have been delivered.
pub handle-Mirrors :
    (c : Cache) (m : Goals) (ev : MachineIn) (new_id : String) (now : ℕ) (id : String)
    → Mirrors c m
    → Mirrors (deliver c (goals_handle m ev new_id now).0 id) (goals_handle m ev new_id now).1
handle-Mirrors c m ev new_id now id h =
    told-Mirrors c m new_id (agent_in ev) id (goals_handle m ev new_id now) h
      (handle-IsTold m ev new_id now)
