-- ===== src/Approval/Ids.antt =====
-- The ids that an approval machine mints (rust/crates/vocoderd/src/machines/approval.rs).
use text.Mathlib.TextLemmas.{append_cancel_left}
use dsh_rs.Base.{
  ℕ, ◌+◌, ◌<◌, ◌≡◌, ◌≢◌, ◌⊎◌, inl, inr, refl, subst, ◌∙◌, String, Option, none, some, List, [], ◌∷◌,
  ◌++◌, Bool-cases, str_eq, length, All, Unique, u64_mod, u64_succ, u64_succ_lem, show, arith,
  Option-cases,
}
use dsh_rs.Base.Decimal.Show.{show-injective}
use dsh_rs.Json.{Value, get_as, as_str}
use dsh_rs.Router.Messages.{EventName, MachineIn, MachineOut}
use dsh_rs.Approval.{ApprovalMachine, approval_id, from_payload, answer, handle}

abbrev id_of : Option String → List String
id_of none = []
id_of (some id) = id ∷ []

-- The ids in the verdicts of some outputs.
abbrev minted : List MachineOut → List String
minted [] = []
minted (MachineOut.waterfall_return v ∷ outs) = id_of (get_as as_str v "approvalId") ++ minted outs
minted (_ ∷ outs) = minted outs

-- The ids that a machine mints over its turns in chains, of any events.
unfoldable pub ids : ApprovalMachine → List (EventName × Value) → List String
ids m [] = []
ids m ((name, value) ∷ turns) =
    let (outs, m') = handle m (MachineIn.waterfall_turn name value) in minted outs ++ ids m' turns

abbrev Mints : ApprovalMachine → List MachineOut × ApprovalMachine → Type 0
Mints m (outs, m') =
    ((minted outs ≡ []) × (m'.asks ≡ m.asks))
    ⊎ ((minted outs ≡ approval_id (u64_succ m.asks) ∷ []) × (m'.asks ≡ u64_succ m.asks))

handle-Mints :
    (m : ApprovalMachine) (name : EventName) (value : Value)
    → Mints m (handle m (MachineIn.waterfall_turn name value))
unfolding handle answer
handle-Mints m name value = elim (Bool-cases (str_eq name "approval/request")) [
  | inr p ↦ rw p (inl (refl, refl))
  | inl p ↦ rw p (elim (Option-cases (from_payload value).claimed) [
    | inl q ↦ rw (q, answer) (inr (refl, refl))
    | inr (o, q) ↦ rw (q, answer) (inl (refl, refl))
  ])
]

-- An id that was minted after `n` asks.
abbrev IsLater : ℕ → String → Type 0
IsLater n id = (k : ℕ) × (n < k) × (id ≡ approval_id k)

IsLater-more : (n k : ℕ) (id : String) → n < k → IsLater k id → IsLater n id
IsLater-more n k id h (j, b, e) = (j, omega (arith, h, b), e)

All-IsLater : (n k : ℕ) (js : List String) → n < k → All (IsLater k) js → All (IsLater n) js
All-IsLater n k [] h a = tt
All-IsLater n k (j ∷ js) h a = (IsLater-more n k j h a.0, All-IsLater n k js h a.1)

approval_id-injective : (a b : ℕ) → 0 < a → 0 < b → approval_id a ≡ approval_id b → a ≡ b
approval_id-injective a b p q e =
    show-injective a b p q (append_cancel_left "approval-" (show a) (show b) e)

All-fresh :
    (n : ℕ) (js : List String) → 0 < n → All (IsLater n) js → All (λ j. approval_id n ≢ j) js
All-fresh n [] p a = tt
All-fresh n (j ∷ js) p ((k, b, e), a) = (
  λ same. absurd (omega (arith, b, approval_id-injective n k p (omega (arith, b)) (same ∙ e))),
  All-fresh n js p a,
)

ids-fresh :
    (m : ApprovalMachine) (turns : List (EventName × Value))
    → m.asks + length turns < u64_mod
    → All (IsLater m.asks) (ids m turns) × Unique (ids m turns)
unfolding ids
ids-fresh m [] b = (tt, tt)
ids-fresh m ((name, value) ∷ turns) b =
    let m' = (handle m (MachineIn.waterfall_turn name value)).1 in
    let here = u64_succ_lem m.asks (omega arith) in
    elim (handle-Mints m name value) [
      | inl (e, same) ↦
          let (later, unique) = ids-fresh m' turns (omega (arith, same)) in
          rw e (subst (λ n. All (IsLater n) (ids m' turns)) same later, unique)
      | inr (e, next) ↦
          let (later, unique) = ids-fresh m' turns (omega (arith, next, here)) in
          let after = subst (λ n. All (IsLater n) (ids m' turns)) next later in
          rw e (
            (
              (u64_succ m.asks, omega (arith, here), refl),
              All-IsLater m.asks (u64_succ m.asks) (ids m' turns) (omega (arith, here)) after,
            ),
            (All-fresh (u64_succ m.asks) (ids m' turns) (omega (arith, here)) after, unique),
          )
    ]

-- However many requests a machine is put, below 2^64 asks in all, the ids that it mints are
-- distinct.
pub ids-Unique :
    (m : ApprovalMachine) (turns : List (EventName × Value))
    → m.asks + length turns < u64_mod
    → Unique (ids m turns)
ids-Unique m turns b = (ids-fresh m turns b).1
