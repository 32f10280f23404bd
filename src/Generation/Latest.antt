-- ===== src/Generation/Latest.antt =====
-- What a directory's generations are, and which is the latest.
use dsh_rs.Base.{
  ℕ, ◌≤◌, ◌<◌, ◌≡◌, ◌↔◌, ◌⊎◌, inl, inr, none, some, List, [], ◌∷◌, All, arith, Option-cases,
}
use dsh_rs.Generation.{
  Bytes, parse_generation_filename, insert, list_generations, max_of, latest_generation,
}

-- Some entry of the directory is read as version `v`.
abbrev pub Has : ℕ → List Bytes → Type 0
Has v [] = ⊥
Has v (name ∷ names) = (parse_generation_filename name ≡ some v) ⊎ Has v names

abbrev In : ℕ → List ℕ → Type 0
In v [] = ⊥
In v (w ∷ ws) = (v ≡ w) ⊎ In v ws

abbrev pub IsIncreasing : List ℕ → Type 0
IsIncreasing [] = Unit
IsIncreasing (v ∷ vs) = All (λ w. v < w) vs × IsIncreasing vs

All-insert : (u v : ℕ) (ws : List ℕ) → u < v → All (λ w. u < w) ws → All (λ w. u < w) (insert v ws)
All-insert u v [] h a = (h, tt)
All-insert u v (w ∷ ws) h a = ground (arith, All-insert u v ws h a.1)

All-trans : (u v : ℕ) (ws : List ℕ) → u < v → All (λ w. v < w) ws → All (λ w. u < w) ws
All-trans u v [] h a = tt
All-trans u v (w ∷ ws) h a = (omega arith, All-trans u v ws h a.1)

insert-IsIncreasing : (v : ℕ) (ws : List ℕ) → IsIncreasing ws → IsIncreasing (insert v ws)
insert-IsIncreasing v [] s = (tt, tt)
insert-IsIncreasing v (w ∷ ws) s =
    ground (arith, insert-IsIncreasing v ws s.1, All-insert w v ws, All-trans v w ws)

In-insert : (u v : ℕ) (ws : List ℕ) → In u (insert v ws) ↔ ((u ≡ v) ⊎ In u ws)
In-insert u v [] = (λ h. h, λ h. h)
In-insert u v (w ∷ ws) = ground (arith, In-insert u v ws)

In-list_generations : (v : ℕ) (names : List Bytes) → In v (list_generations names) ↔ Has v names
unfolding list_generations
In-list_generations v [] = (λ h. h, λ h. h)
In-list_generations v (name ∷ names) = elim (Option-cases (parse_generation_filename name)) [
  | inl skipped ↦ rw skipped (ground (arith, In-list_generations v names))
  | inr (w, read) ↦
      rw read (ground (arith, In-insert v w (list_generations names), In-list_generations v names))
]

-- The generations are listed once each, in increasing order.
pub list_generations-IsIncreasing : (names : List Bytes) → IsIncreasing (list_generations names)
unfolding list_generations
list_generations-IsIncreasing [] = tt
list_generations-IsIncreasing (name ∷ names) =
    elim (Option-cases (parse_generation_filename name)) [
      | inl skipped ↦ rw skipped (list_generations-IsIncreasing names)
      | inr (w, read) ↦ rw read (insert-IsIncreasing w _ (list_generations-IsIncreasing names))
    ]

max_of-none : (vs : List ℕ) → max_of vs ≡ none → (w : ℕ) → ¬ In w vs
max_of-none [] e w h = h
max_of-none (u ∷ vs) e w h = cc

max_of-In : (vs : List ℕ) (v : ℕ) → max_of vs ≡ some v → In v vs × ((w : ℕ) → In w vs → w ≤ v)
max_of-In [] v e = cc
max_of-In (u ∷ vs) v e = elim (Option-cases (max_of vs)) [
  | inl last ↦ (
    inl (ground arith),
    λ w h. elim h [ inl here ↦ ground arith | inr there ↦ absurd (max_of-none vs last w there) ],
  )
  | inr (x, found) ↦
      let (held, above) = max_of-In vs x found in
      (
        ground arith,
        λ w h. elim h [ inl here ↦ ground arith | inr there ↦ ground (arith, above w there) ],
      )
]

-- The latest generation of a directory is one that some entry names.
pub latest_generation-Has :
    (names : List Bytes) (v : ℕ) → latest_generation names ≡ some v → Has v names
unfolding latest_generation
latest_generation-Has names v e =
    (In-list_generations v names).0 (max_of-In (list_generations names) v e).0

-- If some entry names version `w`, the directory has a latest generation, which is named by an
-- entry and is not below `w`.
pub Has-latest_generation :
    (names : List Bytes) (w : ℕ)
    → Has w names
    → (v : ℕ) × (latest_generation names ≡ some v) × Has v names × (w ≤ v)
unfolding latest_generation
Has-latest_generation names w h = elim (Option-cases (max_of (list_generations names))) [
  | inl none_left ↦
      absurd (max_of-none (list_generations names) none_left w ((In-list_generations w names).1 h))
  | inr (v, found) ↦
      let (held, above) = max_of-In (list_generations names) v found in
      (v, found, (In-list_generations v names).0 held, above w ((In-list_generations w names).1 h))
]
