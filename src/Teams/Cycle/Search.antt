-- ===== src/Teams/Cycle/Search.antt =====
-- What a walk over the dependencies finds: exactly the paths to its target.
use mathlib.Core.Option.{some-injective}
use dsh_rs.Base.{
  ℕ, zero, suc, ◌≡◌, ◌≢◌, ◌⊎◌, inl, inr, sym, ap, ◌∙◌, subst, String, Option, none, some, List, [],
  ◌∷◌, ◌++◌, true, ◌||◌, if-eq_cases, and_then-eq-some, str_eq, eq_iff, arith, Bool-cases,
  Option-cases,
}
use dsh_rs.Base.Dict.{lookup}
use dsh_rs.Teams.{Board, Task, member}
use dsh_rs.Teams.Cycle.{Found, walk, walk_deps}

-- Task `a` names `b` among its dependencies.
abbrev pub Edge : Board → String → String → Type 0
Edge board a b = (t : Task) × (lookup a board ≡ some t) × (member b t.blocked_by ≡ true)

-- Any number of dependencies, one after the other.
pub data Reach (board : Board) : String → String → Type 0 where
  here : {a : String} → Reach board a a
  edge : {a b c : String} → Edge board a b → Reach board b c → Reach board a c

pub member-snoc :
    (x y : String) (seen : List String) → member x (seen ++ y ∷ []) ≡ (member x seen || str_eq y x)
member-snoc x y [] = ground arith
member-snoc x y (z ∷ seen) = ground (arith, member-snoc x y seen)

abbrev pub Grown : List String → List String → Type 0
Grown seen seen' = (x : String) → member x seen ≡ true → member x seen' ≡ true

abbrev pub or_next :
    (String → List String → Option Found) → List String → Option String → List String → Option Found
or_next visit deps found seen = elim found [
  | some id ↦ some (some id, seen)
  | none ↦ walk_deps visit deps seen
]

module _ (board : Board) (target : String) where
  -- Beyond what was seen before, nothing is the target, and dependencies are seen too.
  abbrev Closed : List String → List String → Type 0
  Closed seen seen' =
      (x : String)
      → member x seen' ≡ true
      → (member x seen ≡ true)
        ⊎ ((x ≢ target) × ((y : String) → Edge board x y → member y seen' ≡ true))

  Closed-trans : (r s t : List String) → Grown s t → Closed r s → Closed s t → Closed r t
  Closed-trans r s t g c d x h = elim (d x h) [
    | inr fresh ↦ inr fresh
    | inl old ↦ elim (c x old) [ inl older ↦ inl older | inr (n, e) ↦ inr (n, λ y f. g y (e y f)) ]
  ]

  -- What a visit promises: a path if it finds the target, and a closed set if not.
  abbrev pub Visit : String → List String → Found → Type 0
  Visit at seen (some id, seen') = (id ≡ target) × Reach board at target
  Visit at seen (none, seen') = Grown seen seen' × (member at seen' ≡ true) × Closed seen seen'

  abbrev Visits : List String → List String → Found → Type 0
  Visits deps seen (some id, seen') =
      (id ≡ target) × (dep : String) × (member dep deps ≡ true) × Reach board dep target
  Visits deps seen (none, seen') =
      Grown seen seen'
      × ((y : String) → member y deps ≡ true → member y seen' ≡ true)
      × Closed seen seen'

  Visits-cons :
      (dep : String) (deps seen seen' : List String) (r : Found)
      → Visit dep seen (none, seen')
      → Visits deps seen' r
      → Visits (dep ∷ deps) seen r
  Visits-cons dep deps seen seen' (some id, s) (g, m, c) (e, d, i, p) = (e, d, ground (arith, i), p)
  Visits-cons dep deps seen seen' (none, s) (g, m, c) (g', m', c') = (
    λ x h. g' x (g x h),
    λ y h. ground (arith, eq_iff dep y, g' dep m, m' y),
    Closed-trans seen seen' s g' c c',
  )

  first_found :
      (dep id : String) (deps seen s : List String)
      → Visit dep seen (some id, s)
      → Visits (dep ∷ deps) seen (some id, s)
  first_found dep id deps seen s (e, p) = (e, dep, ground (arith, eq_iff dep dep), p)

  after-Visit :
      (visit : String → List String → Option Found) (dep : String) (deps seen s : List String)
      (found : Option String) (r : Found)
      → Visit dep seen (found, s)
      → (walk_deps visit deps s ≡ some r → Visits deps s r)
      → or_next visit deps found s ≡ some r
      → Visits (dep ∷ deps) seen r
  after-Visit visit dep deps seen s (some id) r v ih e =
      subst (Visits (dep ∷ deps) seen) (some-injective _ _ e) (first_found dep id deps seen s v)
  after-Visit visit dep deps seen s none r v ih e = Visits-cons dep deps seen s r v (ih e)

  walk_deps-Visits :
      (visit : String → List String → Option Found)
      → ((at : String) (seen : List String) (r : Found) → visit at seen ≡ some r → Visit at seen r)
      → (deps seen : List String) (r : Found) → walk_deps visit deps seen ≡ some r
      → Visits deps seen r
  unfolding walk_deps
  walk_deps-Visits visit v [] seen r e =
      subst (Visits [] seen) (some-injective _ _ e) (λ x h. h, λ y h. cc h, λ x h. inl h)
  walk_deps-Visits visit v (dep ∷ deps) seen r e =
      let ((found, s), visited, rest) = and_then-eq-some (visit dep seen) _ e in
      after-Visit visit dep deps seen s found r (v dep seen (found, s) visited)
        (walk_deps-Visits visit v deps s r) rest

  leaf :
      (at : String) (seen : List String)
      → at ≢ target
      → lookup at board ≡ none
      → Visit at seen (none, seen ++ at ∷ [])
  leaf at seen n p = (
    λ x h. ground (arith, member-snoc x at seen),
    ground (arith, member-snoc at at seen, eq_iff at at),
    λ x h. elim (Bool-cases (member x seen)) [
      | inl old ↦ inl old
      | inr new ↦
          let same : at ≡ x = ground (arith, member-snoc x at seen, eq_iff at x) in
          inr (λ e. n (same ∙ e), λ y (t, found, m). cc (p, same, found))
    ],
  )

  branch :
      (at : String) (seen : List String) (t : Task) (r : Found)
      → at ≢ target
      → lookup at board ≡ some t
      → Visits t.blocked_by (seen ++ at ∷ []) r
      → Visit at seen r
  branch at seen t (some id, s) n p (e, dep, m, path) = (e, edge (t, p, m) path)
  branch at seen t (none, s) n p (g, m, c) = (
    λ x h. g x (ground (arith, member-snoc x at seen)),
    g at (ground (arith, member-snoc at at seen, eq_iff at at)),
    λ x h. elim (c x h) [
      | inr fresh ↦ inr fresh
      | inl old ↦ elim (Bool-cases (member x seen)) [
        | inl older ↦ inl older
        | inr new ↦
            let same : at ≡ x = ground (arith, member-snoc x at seen, eq_iff at x) in
            inr (
              λ e. n (same ∙ e),
              λ y (u, found, k).
                  let task : t ≡ u =
                    some-injective _ _ (sym p ∙ ap (λ z. lookup z board) same ∙ found) in
                  m y (subst (λ v. member y v.blocked_by ≡ true) (sym task) k),
            )
      ]
    ],
  )

  pub walk-Visit :
      (fuel : ℕ) (at : String) (seen : List String) (r : Found)
      → walk fuel board target at seen ≡ some r
      → Visit at seen r
  unfolding walk
  walk-Visit zero at seen r e = cc e
  walk-Visit (suc fuel) at seen r e = elim (if-eq_cases (str_eq at target) _ _ e) [
    | inl (p, q) ↦
        let same : at ≡ target = (eq_iff at target).0 p in
        subst (Visit at seen) (some-injective _ _ q) (same, subst (λ z. Reach board at z) same here)
    | inr (p, rest) ↦
        let other : at ≢ target = ground (arith, eq_iff at target) in
        elim (if-eq_cases (member at seen) _ _ rest) [
          | inl (k, q) ↦ subst (Visit at seen) (some-injective _ _ q) (λ x h. h, k, λ x h. inl h)
          | inr (_, deep) ↦ elim (Option-cases (lookup at board)) [
            | inl l ↦
                subst (Visit at seen) (some-injective _ _ (rw l at deep)) (leaf at seen other l)
            | inr (t, l) ↦ branch at seen t r other l (
                walk_deps-Visits (walk fuel board target) (walk-Visit fuel) t.blocked_by
                  (seen ++ at ∷ []) r (rw l at deep))
          ]
        ]
  ]
