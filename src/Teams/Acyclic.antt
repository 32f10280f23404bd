-- ===== src/Teams/Acyclic.antt =====
-- The dependencies of a board never form a cycle
-- (rust/crates/vocoderd/src/machines/agent_teams.rs).
use mathlib.Core.Option.{some-injective}
use dsh_rs.Base.{
  ◌≡◌, ◌⊎◌, inl, inr, refl, sym, ap, ◌∙◌, subst, String, Option, none, some, List, Bool, true,
  false, ◌||◌, ok, >>=-eq-ok, ok-injective, if◌then◌else◌, str_eq, eq_iff, arith, Bool-cases,
}
use dsh_rs.Base.Dict.{lookup, insert, lookup-insert}
use dsh_rs.Teams.{Task, Board, member}
use dsh_rs.Teams.Cycle.{find_cycle}
use dsh_rs.Teams.Cycle.Search.{Edge, Reach, here, edge}
use dsh_rs.Teams.Cycle.Decides.{LeadsBack, find_cycle_cases}
use dsh_rs.Json.{Value}
use dsh_rs.Teams.Update.{act, when, check_others, check_cycle, edit, set_dependencies, delete}

-- No task leads back to itself.
abbrev pub IsAcyclic : Board → Type 0
IsAcyclic board = (a b : String) → Edge board a b → ¬ Reach board b a

Reach-append :
    {board : Board} {a b c : String} → Reach board a b → Reach board b c → Reach board a c
Reach-append here q = q
Reach-append (edge s p) q = edge s (Reach-append p q)

module _ (board : Board) (id : String) (t : Task) where
  abbrev after : Board
  after = insert id t board

  -- A dependency of the new board is one of the old board, or one of the task put in.
  Edge-after :
      (a b : String) → Edge after a b → Edge board a b ⊎ ((a ≡ id) × (member b t.blocked_by ≡ true))
  Edge-after a b (u, l, m) = elim (Bool-cases (str_eq id a)) [
    | inl same ↦
        let task : t ≡ u = some-injective _ _ (sym ((lookup-insert board id t a).0 same) ∙ l) in
        inr (sym ((eq_iff id a).0 same), subst (λ v. member b v.blocked_by ≡ true) (sym task) m)
    | inr other ↦ inl (u, sym ((lookup-insert board id t a).1 other) ∙ l, m)
  ]

  abbrev Detour : String → String → Type 0
  Detour a b = Reach board a id × (d : String) × (member d t.blocked_by ≡ true) × Reach after d b

  -- A path of the new board is one of the old board, or passes by the task put in.
  Reach-after : {a b : String} → Reach after a b → Reach board a b ⊎ Detour a b
  Reach-after here = inl here
  Reach-after (edge {a} {b} {c} s p) = elim (Edge-after a b s) [
    | inr (e, m) ↦ inr (subst (λ z. Reach board z id) (sym e) here, b, m, p)
    | inl old ↦ elim (Reach-after p) [
      | inl q ↦ inl (edge old q)
      | inr (q, d, m, r) ↦ inr (edge old q, d, m, r)
    ]
  ]

  -- A path of the new board from a new dependency ends without passing by the task.
  abbrev Clear : Type 0
  Clear = (d : String) → member d t.blocked_by ≡ true → ¬ Reach board d id

  from_dependency :
      Clear → {d b : String} → member d t.blocked_by ≡ true → Reach after d b → Reach board d b
  from_dependency c {d} m p = elim (Reach-after p) [
    | inl q ↦ q
    | inr (q, _, _, _) ↦ absurd (c d m q)
  ]

  pub insert-IsAcyclic :
      ((d : String) → member d t.blocked_by ≡ true → ¬ Reach board d id)
      → IsAcyclic board
      → IsAcyclic after
  insert-IsAcyclic c h a b s p = elim (Edge-after a b s) [
    | inr (e, m) ↦ c b m (subst (Reach board b) e (from_dependency c m p))
    | inl old ↦ elim (Reach-after p) [
      | inl q ↦ h a b old q
      | inr (q, d, m, r) ↦ c d m (Reach-append (from_dependency c m r) (edge old q))
    ]
  ]

when-eq :
    (status : String) (current next t : Task) (message : String)
    → when status current message next ≡ ok t
    → next ≡ t
when-eq status current next t message e = ground arith

-- What every action keeps, and the dependencies, which all but one keep.
abbrev Kept : Task → Task → Type 0
Kept next t = (t.id ≡ next.id) × (t.revision ≡ next.revision)

abbrev Same : Task → Task → Type 0
Same next t = Kept next t × (t.blocked_by ≡ next.blocked_by)

edit-Same :
    (next t : Task) (subject description : Option String) (scopes : Option Value)
    → edit next subject description scopes ≡ ok t
    → Same next t
unfolding edit
edit-Same next t none none none e = cc
edit-Same next t subject description scopes e = ground arith

delete-Same :
    (board : Board) (id : String) (next t : Task) → delete board id next ≡ ok t → Same next t
unfolding delete
delete-Same board id next t e = ground arith

set_dependencies-LeadsBack :
    (board : Board) (id : String) (next t : Task) (deps : List String)
    → set_dependencies board id next deps ≡ ok t
    → Kept next t × (¬ LeadsBack board id t.blocked_by)
unfolding set_dependencies
set_dependencies-LeadsBack board id next t deps e =
    let (_, _, rest) = >>=-eq-ok (check_others board id deps) _ e in
    let (_, passed, made) = >>=-eq-ok (check_cycle (find_cycle board id deps)) _ rest in
    let same : record next { blocked_by = deps } ≡ t = ok-injective made in
    elim (find_cycle_cases board id deps) [
      | inl (found, _) ↦ absurd (cc (ap check_cycle found, passed))
      | inr (_, clear) ↦
          subst (λ u. Kept next u × (¬ LeadsBack board id u.blocked_by)) same ((refl, refl), clear)
    ]

-- What an action makes of a task: its dependencies are kept, or new ones do not lead back.
abbrev Acted : Board → String → Task → Task → Type 0
Acted board id next t =
    Kept next t × ((t.blocked_by ≡ next.blocked_by) ⊎ (¬ LeadsBack board id t.blocked_by))

Same-Acted : (board : Board) (id : String) (next t : Task) → Same next t → Acted board id next t
Same-Acted board id next t (k, b) = (k, inl b)

when-Acted :
    (board : Board) (id : String) (current next u t : Task)
    → Same next u
    → (status message : String) → when status current message u ≡ ok t
    → Acted board id next t
when-Acted board id current next u t same status message e =
    Same-Acted board id next t (subst (Same next) (when-eq status current u t message e) same)

pub either {ℓ} :
    {A : Type 0} {Q : Type ℓ} (b : Bool) {x y z : A}
    → (x ≡ z → Q)
    → (y ≡ z → Q)
    → (if b then x else y) ≡ z
    → Q
either true f g e = f e
either false f g e = g e

pub act-Acted :
    (board : Board) (id : String) (current next t : Task) (action : String) (req : Value)
    → act board id current next action req ≡ ok t
    → Acted board id next t
unfolding act
act-Acted board id current next t action req =
    either (str_eq action "claim" || str_eq action "reassign") (λ e. cc e)
      (either (str_eq action "release")
        (when-Acted board id current next _ t ((refl, refl), refl) _ _)
        (either (str_eq action "complete")
          (when-Acted board id current next _ t ((refl, refl), refl) _ _)
          (either (str_eq action "reopen")
            (when-Acted board id current next _ t ((refl, refl), refl) _ _)
            (either (str_eq action "edit")
              (λ e. Same-Acted board id next t (edit-Same next t _ _ _ e))
              (either (str_eq action "set_dependencies")
                (λ e.
                  let (k, clear) = set_dependencies-LeadsBack board id next t _ e in (k, inr clear))
                (either (str_eq action "delete")
                  (λ e. Same-Acted board id next t (delete-Same board id next t e))
                  (λ e. cc e)))))))

pub act-IsAcyclic :
    (board : Board) (id : String) (current next t : Task) (action : String) (req : Value)
    → lookup id board ≡ some current
    → next.blocked_by ≡ current.blocked_by
    → act board id current next action req ≡ ok t
    → IsAcyclic board
    → IsAcyclic (insert id t board)
act-IsAcyclic board id current next t action req found same e h =
    insert-IsAcyclic board id t
      (elim (act-Acted board id current next t action req e).1 [
        | inr clear ↦ λ d m p. clear (d, m, p)
        | inl kept ↦
            λ d m p. h id d (current, found, subst (λ ds. member d ds ≡ true) (kept ∙ same) m) p
      ])
      h
