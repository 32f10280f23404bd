-- ===== src/Teams/Cycle/Decides.antt =====
-- `find_cycle` decides whether a new dependency of a task leads back to it.
use dsh_rs.Base.{
  suc, ◌≡◌, ◌≢◌, ◌⊎◌, inl, inr, refl, subst, ap, String, Option, none, some, List, [], ◌∷◌, true,
  length, str_eq, eq_iff, arith, Bool-cases,
}
use dsh_rs.Teams.{Board, member}
use dsh_rs.Teams.Cycle.{find_cycle_with, find_cycle}
use dsh_rs.Teams.Cycle.Search.{Edge, Reach, here, edge, Visit, walk-Visit}
use dsh_rs.Teams.Cycle.Fuel.{unseen-le-length, walk-Ends}

module _ (board : Board) (target : String) where
  -- From a closed set, no path leaves for the target.
  no-Reach :
      (seen : List String)
      → ((x : String)
          → member x seen ≡ true
          → (member x [] ≡ true)
            ⊎ ((x ≢ target) × ((y : String) → Edge board x y → member y seen ≡ true)))
      → {a b : String} → Reach board a b
      → b ≡ target
      → member a seen ≡ true
      → ⊥
  no-Reach seen c (here {a}) e m = elim (c a m) [ inl h ↦ cc h | inr (n, _) ↦ n e ]
  no-Reach seen c (edge {a} {b} step path) e m = elim (c a m) [
    | inl h ↦ cc h
    | inr (_, f) ↦ no-Reach seen c path e (f b step)
  ]

  abbrev pub LeadsBack : List String → Type 0
  LeadsBack deps = (dep : String) × (member dep deps ≡ true) × Reach board dep target

  abbrev Decided : List String → Option (Option String) → Type 0
  Decided deps o =
      ((o ≡ some (some target)) × LeadsBack deps) ⊎ ((o ≡ some none) × (¬ LeadsBack deps))

  abbrev next_cycle : List String → Option String → Option (Option String)
  next_cycle deps found = elim found [
    | some id ↦ some (some id)
    | none ↦ find_cycle_with (suc (length board)) board target deps
  ]

  next-Decided :
      (dep : String) (deps s : List String) (found : Option String)
      → Visit board target dep [] (found, s)
      → Decided deps (find_cycle_with (suc (length board)) board target deps)
      → Decided (dep ∷ deps) (next_cycle deps found)
  next-Decided dep deps s (some id) (e, p) d =
      inl (ap (λ z. some (some z)) e, (dep, ground (arith, eq_iff dep dep), p))
  next-Decided dep deps s none (g, m, c) (inl (e, (d, k, p))) = inl (e, (d, ground (arith, k), p))
  next-Decided dep deps s none (g, m, c) (inr (e, clear)) = inr (
    e,
    λ (d, k, p). elim (Bool-cases (str_eq dep d)) [
      | inl same ↦ no-Reach s c p refl (subst (λ z. member z s ≡ true) ((eq_iff dep d).0 same) m)
      | inr other ↦ clear (d, rw other at k, p)
    ],
  )

  find_cycle_with-Decided :
      (deps : List String) → Decided deps (find_cycle_with (suc (length board)) board target deps)
  unfolding find_cycle_with
  find_cycle_with-Decided [] = inr (refl, λ (dep, m, p). cc m)
  find_cycle_with-Decided (dep ∷ deps) =
      let enough = unseen-le-length [] board in
      let (found, s, e, _) =
        walk-Ends board target (suc (length board)) dep [] (omega (arith, enough)) in
      rw e (
        next-Decided dep deps s found
          (walk-Visit board target (suc (length board)) dep [] (found, s) e)
          (find_cycle_with-Decided deps))

  -- The search ends, on any board. It names the task if some new dependency leads back to it, and
  -- finds nothing if none does.
  pub find_cycle_cases :
      (deps : List String)
      → ((find_cycle board target deps ≡ some (some target)) × LeadsBack deps)
        ⊎ ((find_cycle board target deps ≡ some none) × (¬ LeadsBack deps))
  unfolding find_cycle
  find_cycle_cases deps = find_cycle_with-Decided deps
