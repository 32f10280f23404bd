-- ===== src/Teams/Cycle/Fuel.antt =====
-- A walk over the dependencies ends: one level of recursion for each task is enough.
use dsh_rs.Base.{
  ℕ, zero, suc, ◌≤◌, ◌<◌, ◌≡◌, refl, inl, inr, String, Option, none, some, List, [], ◌∷◌, ◌++◌,
  false, length, str_eq, eq_iff, if◌then◌else◌, arith, Bool-cases, Option-cases,
}
use dsh_rs.Base.Dict.{lookup}
use dsh_rs.Teams.{Board, Task, member}
use dsh_rs.Teams.Cycle.{Found, walk, walk_deps}
use dsh_rs.Teams.Cycle.Search.{or_next, Grown, member-snoc}

-- The entries of a board whose tasks were not seen.
abbrev pub unseen : List String → Board → ℕ
unseen seen [] = 0
unseen seen (e ∷ board) = if member e.0 seen then unseen seen board else suc (unseen seen board)

pub unseen-le-length : (seen : List String) (board : Board) → unseen seen board ≤ length board
unseen-le-length seen [] = omega arith
unseen-le-length seen (e ∷ board) = ground (arith, unseen-le-length seen board)

unseen-Grown : (s t : List String) (board : Board) → Grown s t → unseen t board ≤ unseen s board
unseen-Grown s t [] g = omega arith
unseen-Grown s t (e ∷ board) g = ground (arith, unseen-Grown s t board g, g e.0)

Grown-snoc : (at : String) (seen : List String) → Grown seen (seen ++ at ∷ [])
Grown-snoc at seen x h = ground (arith, member-snoc x at seen)

unseen-snoc :
    (at : String) (seen : List String) (board : Board) (t : Task)
    → lookup at board ≡ some t
    → member at seen ≡ false
    → unseen (seen ++ at ∷ []) board < unseen seen board
unfolding lookup
unseen-snoc at seen [] t l m = cc l
unseen-snoc at seen (e ∷ board) t l m = elim (Bool-cases (str_eq e.0 at)) [
  | inl here ↦ ground (
    arith,
    eq_iff e.0 at,
    member-snoc e.0 at seen,
    unseen-Grown seen (seen ++ at ∷ []) board (Grown-snoc at seen),
  )
  | inr not_here ↦
      let rest = unseen-snoc at seen board t (rw not_here at l) m in
      ground (arith, member-snoc e.0 at seen, rest)
]

module _ (board : Board) (target : String) where
  abbrev Ends : List String → Option Found → Type 0
  Ends seen o =
      (found : Option String) × (seen' : List String) × (o ≡ some (found, seen')) × Grown seen seen'

  next_Ends :
      (visit : String → List String → Option Found) (deps seen s : List String)
      (found : Option String)
      → Grown seen s
      → Ends s (walk_deps visit deps s)
      → Ends seen (or_next visit deps found s)
  next_Ends visit deps seen s (some id) g ends = (some id, s, refl, g)
  next_Ends visit deps seen s none g (found, t, e, more) = (found, t, e, λ x h. more x (g x h))

  walk_deps-Ends :
      (visit : String → List String → Option Found) (fuel : ℕ)
      → ((dep : String) (s : List String) → unseen s board < fuel → Ends s (visit dep s))
      → (deps seen : List String) → unseen seen board < fuel
      → Ends seen (walk_deps visit deps seen)
  unfolding walk_deps
  walk_deps-Ends visit fuel v [] seen b = (none, seen, refl, λ x h. h)
  walk_deps-Ends visit fuel v (dep ∷ deps) seen b =
      let (found, s, e, g) = v dep seen b in
      rw e (
        next_Ends visit deps seen s found g
          (walk_deps-Ends visit fuel v deps s (omega (arith, b, unseen-Grown seen s board g))))

  pub walk-Ends :
      (fuel : ℕ) (at : String) (seen : List String)
      → unseen seen board < fuel
      → Ends seen (walk fuel board target at seen)
  unfolding walk
  walk-Ends zero at seen b = absurd (omega arith)
  walk-Ends (suc fuel) at seen b = elim (Bool-cases (str_eq at target)) [
    | inl p ↦ rw p (some at, seen, refl, λ x h. h)
    | inr p ↦ elim (Bool-cases (member at seen)) [
      | inl k ↦ rw (p, k) (none, seen, refl, λ x h. h)
      | inr k ↦ elim (Option-cases (lookup at board)) [
        | inl l ↦ rw (p, k, l) (none, seen ++ at ∷ [], refl, Grown-snoc at seen)
        | inr (t, l) ↦
            let (found, s, e, g) =
              walk_deps-Ends (walk fuel board target) fuel (walk-Ends fuel) t.blocked_by
                (seen ++ at ∷ []) (omega (arith, b, unseen-snoc at seen board t l k)) in
            rw (p, k, l) (found, s, e, λ x h. g x (Grown-snoc at seen x h))
      ]
    ]
  ]
