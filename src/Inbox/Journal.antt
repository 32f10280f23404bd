-- ===== src/Inbox/Journal.antt =====
-- Any session of inbox operations: the log of their splices folds back to the inbox.
use dsh_rs.Base.{
  and_then, ℕ, ◌+◌, ◌<◌, ◌≡◌, refl, ap, ◌∙◌, String, Option, none, some, List, [], ◌∷◌, ◌++◌, ok,
  ◌>>=◌, length, i64_mod, arith, true, false, Option-cases, inl, inr, Result-cases,
}
use mathlib.Core.Path.{fun_ext}
use dsh_rs.Json.{Value, string, get, null, as_str, unwrap_or}
use dsh_rs.Inbox.{
  Inbox, InboxTarget, next_turn, next_step, apply_splice, is_splice, is_splice_type, fold_from,
  Splice, to_data, claim, append, remove,
}
use dsh_rs.Inbox.Identity.{IsUnique}
use dsh_rs.Inbox.Replay.{append-replay, remove-replay}
use dsh_rs.Inbox.Claim.{replay, claim-replay}

pub data Op : Type 0 where
  appends : InboxTarget → Value → Op
  claims : InboxTarget → ℕ → Op
  removes : String → Op

abbrev pub removed_or_same : Inbox → Option (Splice × Inbox) → List Splice × Inbox
removed_or_same s none = ([], s)
removed_or_same s (some (p, t)) = (p ∷ [], t)

-- The splices that an operation hands back, and the inbox that it leaves.
unfoldable pub perform : Inbox → Op → List Splice × Inbox
perform s (appends target message) = let (p, t) = append s target message in (p ∷ [], t)
perform s (claims target turn) = let (_, ps, t) = claim s target turn in (ps, t)
perform s (removes message_id) = removed_or_same s (remove s message_id)

unfoldable pub after : Inbox → List Op → Inbox
after s [] = s
after s (o ∷ os) = after (perform s o).1 os

unfoldable pub journal : Inbox → List Op → List Splice
journal s [] = []
journal s (o ∷ os) = (perform s o).0 ++ journal (perform s o).1 os

-- Only messages with a new identity are appended, and the lists keep below 2^63 messages.
abbrev pub Admitted : Inbox → Op → Type 0
Admitted s o = (length s.next_turn + length s.next_step < i64_mod) × IsUnique (perform s o).1

abbrev pub AllAdmitted : Inbox → List Op → Type 0
AllAdmitted s [] = Unit
AllAdmitted s (o ∷ os) = Admitted s o × AllAdmitted (perform s o).1 os

-- The log holds the splices, in order, among rows of other types.
pub data Recorded : List Splice → List Value → Type 0 where
  done : Recorded [] []
  row :
      {ps : List Splice} {rows : List Value} (p : Splice) (v : Value)
      → get v "type" ≡ some (string "agent/inbox/spliced")
      → get v "data" ≡ some (to_data p)
      → Recorded ps rows
      → Recorded (p ∷ ps) (v ∷ rows)
  other :
      {ps : List Splice} {rows : List Value} (v : Value)
      → is_splice v ≡ false
      → Recorded ps rows
      → Recorded ps (v ∷ rows)

replay-append :
    (s : Inbox) (ps qs : List Splice) → replay s (ps ++ qs) ≡ (replay s ps >>= λ t. replay t qs)
unfolding replay
replay-append s [] qs = refl
replay-append s (p ∷ ps) qs = elim (Result-cases (apply_splice s (to_data p))) [
  | inl (e, bad) ↦ rw bad
  | inr (t, good) ↦ rw good (replay-append t ps qs)
]

is_splice-row :
    (v : Value) → get v "type" ≡ some (string "agent/inbox/spliced") → is_splice v ≡ true
is_splice-row v e = ap (λ t. is_splice_type (and_then t as_str)) e

fold_from-Recorded :
    {ps : List Splice} {rows : List Value}
    → Recorded ps rows
    → (s : Inbox) → fold_from s rows ≡ replay s ps
unfolding fold_from replay
fold_from-Recorded done s = refl
fold_from-Recorded (row {ps} {rows} p v ty found r) s = rw (is_splice-row v ty) (
    ap (λ o. apply_splice s (unwrap_or o null) >>= λ t. fold_from t rows) found
    ∙ ap (λ k. apply_splice s (to_data p) >>= k) (fun_ext (fold_from-Recorded r)))
fold_from-Recorded (other v o r) s = rw o (fold_from-Recorded r s)

perform-replay :
    (s : Inbox) (o : Op) → Admitted s o → IsUnique s → replay s (perform s o).0 ≡ ok (perform s o).1
unfolding perform replay
perform-replay s (appends next_turn message) (b, u') u =
    ap (λ r. r >>= λ t. ok t) (append-replay s next_turn message u' (omega arith))
perform-replay s (appends next_step message) (b, u') u =
    ap (λ r. r >>= λ t. ok t) (append-replay s next_step message u' (omega arith))
perform-replay s (claims target turn) (b, u') u = claim-replay s target turn b u
perform-replay s (removes message_id) (b, u') u = elim (Option-cases (remove s message_id)) [
  | inl missing ↦ rw missing
  | inr ((p, t), found) ↦
      rw found (ap (λ r. r >>= λ t. ok t) (remove-replay s t message_id p found b u))
]

journal-replay :
    (s : Inbox) (os : List Op)
    → AllAdmitted s os
    → IsUnique s
    → replay s (journal s os) ≡ ok (after s os)
unfolding journal after replay
journal-replay s [] a u = refl
journal-replay s (o ∷ os) ((b, u'), rest) u =
    replay-append s (perform s o).0 (journal (perform s o).1 os)
    ∙ ap (λ r. r >>= λ t. replay t (journal (perform s o).1 os)) (perform-replay s o (b, u') u)
    ∙ journal-replay (perform s o).1 os rest u'

-- From an inbox without duplicates, after any appends of messages with new identities, claims and
-- removals, a log that records their splices, among any other rows, folds back to the inbox that
-- is left, as long as the two lists hold fewer than 2^63 messages.
pub fold_from-journal :
    (s : Inbox) (os : List Op) (rows : List Value)
    → IsUnique s
    → AllAdmitted s os
    → Recorded (journal s os) rows
    → fold_from s rows ≡ ok (after s os)
fold_from-journal s os rows u a r = fold_from-Recorded r s ∙ journal-replay s os a u
