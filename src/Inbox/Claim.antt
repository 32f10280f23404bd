-- ===== src/Inbox/Claim.antt =====
-- Claiming the batch of a step: what it takes, and what its splices rebuild.
use native.Mathlib.Nat.{zero-add}
use dsh_rs.Base.{
  ℕ, ◌+◌, ◌<◌, ◌≡◌, refl, ap, ◌∙◌, List, [], ◌∷◌, ◌++◌, append-nil, append_assoc, Result, ok, ◌>>=◌,
  length, drop_all, i64_mod, arith,
}
use dsh_rs.Json.{Value}
use dsh_rs.Inbox.{
  Inbox, InboxTarget, next_turn, next_step, FoldError, apply_splice, Splice, to_data, claim, cut,
  claim_lists,
}
use dsh_rs.Inbox.Identity.{IsUnique, Unique-without}
use dsh_rs.Inbox.Replay.{replayed}

-- Folding the data of several splices, one after the other.
unfoldable pub replay : Inbox → List Splice → Result FoldError Inbox
replay s [] = ok s
replay s (p ∷ ps) = apply_splice s (to_data p) >>= λ t. replay t ps

steps_taken :
    (s : Inbox)
    → length s.next_step < i64_mod
    → IsUnique s
    → apply_splice s (to_data (cut next_step 0 (length s.next_step)))
      ≡ ok (record s { next_step = [] })
steps_taken s small u =
    replayed s (record s { next_step = [] }) next_step 0 (length s.next_step) [] (omega arith) small
      (rw (zero-add, drop_all)) refl (Unique-without s.next_turn s.next_step [] (rw append-nil u))

abbrev both : List Value → List Value → Inbox
both turns steps = record { next_turn = turns; next_step = steps }

claim_lists-replay :
    (turns steps : List Value) (target : InboxTarget)
    → length turns + length steps < i64_mod
    → IsUnique (both turns steps)
    → replay (both turns steps) (claim_lists turns steps target).1
      ≡ ok (claim_lists turns steps target).2
unfolding replay
claim_lists-replay turns steps next_step small u =
    ap (λ r. r >>= λ t. replay t []) (steps_taken (both turns steps) (omega arith) u)
claim_lists-replay [] steps next_turn small u =
    ap (λ r. r >>= λ t. replay t []) (steps_taken (both [] steps) (omega arith) u)
claim_lists-replay (queued ∷ turns) steps next_turn small u =
    let stepless = both (queued ∷ turns) [] in
    let one_turn =
      replayed stepless (both turns []) next_turn 0 1 [] (omega arith) (omega arith) refl refl (
        Unique-without [] (queued ∷ []) (turns ++ [])
          (Unique-without (queued ∷ turns) steps [] (rw append-nil u))) in
    ap (λ r. r >>= λ t. replay t (cut next_turn 0 1 ∷ []))
      (steps_taken (both (queued ∷ turns) steps) (omega arith) u)
    ∙ ap (λ r. r >>= λ t. replay t []) one_turn

-- The splices of a claim are folded back to the inbox without the claimed batch.
pub claim-replay :
    (s : Inbox) (target : InboxTarget) (turn : ℕ)
    → length s.next_turn + length s.next_step < i64_mod
    → IsUnique s
    → replay s (claim s target turn).1 ≡ ok (claim s target turn).2
unfolding claim
claim-replay s target turn small u = claim_lists-replay s.next_turn s.next_step target small u

-- A claim loses nothing, repeats nothing and keeps the order: the batch, followed by the turns
-- that stay, is the steps followed by the turns, and no step stays.
pub claim_conserves :
    (s : Inbox) (target : InboxTarget) (turn : ℕ)
    → ((claim s target turn).0 ++ (claim s target turn).2.next_turn ≡ s.next_step ++ s.next_turn)
      × ((claim s target turn).2.next_step ≡ [])
unfolding claim
claim_conserves s target turn = claimed s.next_turn s.next_step target
  where
    claimed :
        (turns steps : List Value) (target : InboxTarget)
        → ((claim_lists turns steps target).0 ++ (claim_lists turns steps target).2.next_turn
            ≡ steps ++ turns)
          × ((claim_lists turns steps target).2.next_step ≡ [])
    claimed turns steps next_step = (refl, refl)
    claimed [] steps next_turn = (refl, refl)
    claimed (queued ∷ turns) steps next_turn = (append_assoc steps (queued ∷ []) turns, refl)
