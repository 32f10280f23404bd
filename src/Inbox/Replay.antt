-- ===== src/Inbox/Replay.antt =====
-- The splices that the inbox hands back, folded from the log, rebuild the inbox.
use dsh_rs.Base.{
  ℕ, suc, ◌+◌, ◌≤◌, ◌<◌, ◌≡◌, refl, ap, zero, subst, if-eq_cases, Option-cases, inl, inr, ◌∙◌,
  String, Option, none, some, List, [], ◌∷◌, ◌++◌, append-nil, append_assoc, ok, length, take, drop,
  take_all, drop_all, i64_mod, pos, Unique, arith,
}
use native.Mathlib.Nat.{add-zero}
use native.Mathlib.Numerals.{add-one, towards_suc}
use mathlib.Core.Option.{some-injective}
use dsh_rs.Json.{Value, from_items, to_items}
use dsh_rs.Inbox.{
  Inbox, InboxTarget, next_turn, next_step, list_of, with_list, splice_list, splice_at,
  splice_named, apply_splice, Splice, to_data, append, remove, later, has_id, index_of, remove_at,
  removal, remove_found,
}
use dsh_rs.Inbox.Identity.{ids, IsUnique, check_identities-IsUnique, Unique-without}

from_items-to_items : (vs : List Value) → from_items (to_items vs) ≡ vs
from_items-to_items [] = refl
from_items-to_items (v ∷ vs) = ap (λ t. v ∷ t) (from_items-to_items vs)

-- A splice is read back from its row as it was written.
apply_splice-to_data :
    (s : Inbox) (target : InboxTarget) (start removed : ℕ) (inserted : List Value)
    → start < i64_mod
    → removed < i64_mod
    → apply_splice s (
        to_data (record { target = target; start = start; removed = removed; inserted = inserted }))
      ≡ splice_at s target (pos start) (pos removed) inserted
unfolding apply_splice to_data splice_named
apply_splice-to_data s next_turn start removed inserted a b =
    ground (arith, from_items-to_items inserted)
apply_splice-to_data s next_step start removed inserted a b =
    ground (arith, from_items-to_items inserted)

splice_at-fits :
    (s : Inbox) (target : InboxTarget) (start removed : ℕ) (inserted : List Value)
    → start + removed ≤ length (list_of s target)
    → IsUnique (with_list s target (splice_list (list_of s target) start removed inserted))
    → splice_at s target (pos start) (pos removed) inserted
      ≡ ok (with_list s target (splice_list (list_of s target) start removed inserted))
unfolding splice_at
splice_at-fits s target start removed inserted fits u = ground (
  arith,
  (check_identities-IsUnique
        (with_list s target (splice_list (list_of s target) start removed inserted))).1
      u,
)

-- A splice within the list, whose result holds no identity twice, leaves that result.
pub replayed :
    (s t : Inbox) (target : InboxTarget) (start removed : ℕ) (inserted : List Value)
    → start + removed ≤ length (list_of s target)
    → length (list_of s target) < i64_mod
    → splice_list (list_of s target) start removed inserted ≡ list_of t target
    → with_list s target (list_of t target) ≡ t
    → IsUnique t
    → apply_splice s (
        to_data (record { target = target; start = start; removed = removed; inserted = inserted }))
      ≡ ok t
replayed s t target start removed inserted fits small e rest u =
    let whole : with_list s target (splice_list (list_of s target) start removed inserted) ≡ t =
      ap (with_list s target) e ∙ rest in
    apply_splice-to_data s target start removed inserted (omega arith) (omega arith)
    ∙ splice_at-fits s target start removed inserted fits (rw whole u)
    ∙ ap (λ (r : Inbox). ok r) whole

at_end : (l : List Value) (m : Value) → splice_list l (length l) 0 (m ∷ []) ≡ l ++ m ∷ []
at_end l m = rw (add-zero, take_all, drop_all, append-nil)

-- An appended message is folded back to where it was put, if its identity was not pending.
pub append-replay :
    (s : Inbox) (target : InboxTarget) (message : Value)
    → IsUnique (append s target message).1
    → length (list_of s target) < i64_mod
    → apply_splice s (to_data (append s target message).0) ≡ ok (append s target message).1
unfolding append
append-replay s next_turn m u small =
    replayed s _ next_turn (length s.next_turn) 0 (m ∷ []) (omega arith) small
      (at_end s.next_turn m) refl u
append-replay s next_step m u small =
    replayed s _ next_step (length s.next_step) 0 (m ∷ []) (omega arith) small
      (at_end s.next_step m) refl u

index_of-lt :
    (message_id : String) (ms : List Value) (i : ℕ)
    → index_of message_id ms ≡ some i
    → i < length ms
index_of-lt message_id [] i e = cc
index_of-lt message_id (m ∷ ms) i e = elim (if-eq_cases (has_id message_id m) _ _ e) [
  | inl (_, here) ↦ ground arith
  | inr (_, there) ↦ elim (Option-cases (index_of message_id ms)) [
    | inl missing ↦ cc (there, ap later missing)
    | inr (j, found) ↦ ground (arith, index_of-lt message_id ms j found)
  ]
]

split_at :
    (i : ℕ) (xs ys : List Value)
    → xs ++ ys ≡ take i xs ++ (take 1 (drop i xs) ++ (drop (i + 1) xs ++ ys))
split_at zero [] ys = refl
split_at zero (x ∷ xs) ys = refl
split_at (suc i) [] ys = rw add-one
split_at (suc i) (x ∷ xs) ys =
    simp towards_suc (ap (λ t. x ∷ t) (simp towards_suc at (split_at i xs ys)))

Unique-remove_at :
    (xs ys : List Value) (i : ℕ) → Unique (ids (xs ++ ys)) → Unique (ids (remove_at i xs ++ ys))
Unique-remove_at xs ys i u = rw append_assoc (
    Unique-without (take i xs) (take 1 (drop i xs)) (drop (i + 1) xs ++ ys)
      (subst (λ l. Unique (ids l)) (split_at i xs ys) u))

Unique-remove_at_right :
    (xs ys : List Value) (i : ℕ) → Unique (ids (xs ++ ys)) → Unique (ids (xs ++ remove_at i ys))
Unique-remove_at_right xs ys i u = rw (← append_assoc) (
    Unique-without (xs ++ take i ys) (take 1 (drop i ys)) (drop (i + 1) ys) (
      rw append_assoc
        (subst (λ l. Unique (ids (xs ++ l))) (simp append-nil at (split_at i ys [])) u)))

removal-replay :
    (s : Inbox) (target : InboxTarget) (i : ℕ)
    → i < length (list_of s target)
    → length (list_of s target) < i64_mod
    → IsUnique s
    → apply_splice s (to_data (removal s target i).0) ≡ ok (removal s target i).1
removal-replay s next_turn i here small u =
    replayed s _ next_turn i 1 [] (omega arith) small (rw append-nil) refl
      (Unique-remove_at s.next_turn s.next_step i u)
removal-replay s next_step i here small u =
    replayed s _ next_step i 1 [] (omega arith) small (rw append-nil) refl
      (Unique-remove_at_right s.next_turn s.next_step i u)

removed_found :
    (s t : Inbox) (p : Splice) (i j : Option ℕ)
    → remove_found s i j ≡ some (p, t)
    → ((k : ℕ) → i ≡ some k → k < length s.next_step)
    → ((k : ℕ) → j ≡ some k → k < length s.next_turn)
    → length s.next_turn + length s.next_step < i64_mod
    → IsUnique s
    → apply_splice s (to_data p) ≡ ok t
removed_found s t p none none e a b small u = cc
removed_found s t p (some i) _ e a b small u =
    subst (λ (r : Splice × Inbox). apply_splice s (to_data r.0) ≡ ok r.1) (some-injective _ _ e)
      (removal-replay s next_step i (a i refl) (omega arith) u)
removed_found s t p none (some j) e a b small u =
    subst (λ (r : Splice × Inbox). apply_splice s (to_data r.0) ≡ ok r.1) (some-injective _ _ e)
      (removal-replay s next_turn j (b j refl) (omega arith) u)

-- The splice of a removal is folded back to the inbox without the message.
pub remove-replay :
    (s t : Inbox) (message_id : String) (p : Splice)
    → remove s message_id ≡ some (p, t)
    → length s.next_turn + length s.next_step < i64_mod
    → IsUnique s
    → apply_splice s (to_data p) ≡ ok t
unfolding remove
remove-replay s t message_id p e small u =
    removed_found s t p _ _ e (index_of-lt message_id s.next_step)
      (index_of-lt message_id s.next_turn) small u
