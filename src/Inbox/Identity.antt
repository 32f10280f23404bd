-- ===== src/Inbox/Identity.antt =====
-- No message is pending twice: what `check_identities` decides.
use dsh_rs.Base.{
  ◌≡◌, ◌≢◌, ◌↔◌, refl, String, List, [], ◌∷◌, ◌++◌, false, ok, str_eq, eq_iff, All, Unique,
  if◌then◌else◌, arith, Bool-cases, inl, inr, ℤ, Option, none, some, subst, if-eq_cases, >>=-eq-ok,
  ok-injective,
}
use dsh_rs.Json.{Value}
use dsh_rs.Inbox.{
  Inbox, id_of, contains, check_ids, check_identities, splice_at, InboxTarget, is_splice,
  splice_named, apply_splice, fold_from,
}

-- The identities of some messages; a message with none has none to collide on.
abbrev pub ids : List Value → List String
ids [] = []
ids (m ∷ ms) = if str_eq (id_of m) "" then ids ms else id_of m ∷ ids ms

abbrev pub IsUnique : Inbox → Type 0
IsUnique s = Unique (ids (s.next_turn ++ s.next_step))

abbrev Apart : List String → List String → Type 0
Apart seen = All λ j. contains seen j ≡ false

Apart-cons :
    (i : String) (seen js : List String) → All (λ k. i ≢ k) js → Apart seen js → Apart (i ∷ seen) js
Apart-cons i seen [] f a = tt
Apart-cons i seen (j ∷ js) f a = (ground (arith, eq_iff i j), Apart-cons i seen js f.1 a.1)

Apart-uncons :
    (i : String) (seen js : List String) → Apart (i ∷ seen) js → All (λ k. i ≢ k) js × Apart seen js
Apart-uncons i seen [] a = (tt, tt)
Apart-uncons i seen (j ∷ js) a =
    let (f, r) = Apart-uncons i seen js a.1 in ((ground (arith, eq_iff i j), f), (ground arith, r))

Apart-nil : (js : List String) → Apart [] js
Apart-nil [] = tt
Apart-nil (j ∷ js) = (refl, Apart-nil js)

-- Hypothesis and conclusion of the induction.
abbrev Sound : List String → List Value → Type 0
Sound seen ms = (check_ids seen ms ≡ ok tt) ↔ (Unique (ids ms) × Apart seen (ids ms))

check_ids-Sound : (seen : List String) (ms : List Value) → Sound seen ms
unfolding check_ids
check_ids-Sound seen [] = (λ _. (tt, tt), λ _. refl)
check_ids-Sound seen (m ∷ ms) = elim (Bool-cases (str_eq (id_of m) "")) [
  | inl e ↦ rw e (check_ids-Sound seen ms)
  | inr e ↦ rw e (elim (Bool-cases (contains seen (id_of m))) [
    | inl old ↦ rw old (λ h. cc h, λ (u, a). cc a.0)
    | inr new ↦ rw new (
        let (to, from) = check_ids-Sound (id_of m ∷ seen) ms in
        (
          λ h.
              let (u, a) = to h in
              let (f, r) = Apart-uncons (id_of m) seen (ids ms) a in ((f, u), (refl, r)),
          λ (u, a). from (u.1, Apart-cons (id_of m) seen (ids ms) u.0 a.1),
        ))
  ])
]

-- `check_identities` passes exactly if no identity is pending twice, in one list or in both.
pub check_identities-IsUnique : (s : Inbox) → (check_identities s ≡ ok tt) ↔ IsUnique s
unfolding check_identities
check_identities-IsUnique s =
    let (to, from) = check_ids-Sound [] (s.next_turn ++ s.next_step) in
    (λ h. (to h).0, λ u. from (u, Apart-nil (ids (s.next_turn ++ s.next_step))))

-- A step of the fold that succeeds has checked the inbox that it leaves.
splice_at-checked :
    (s t : Inbox) (target : InboxTarget) (start removed : ℤ) (inserted : List Value)
    → splice_at s target start removed inserted ≡ ok t
    → check_identities t ≡ ok tt
unfolding splice_at
splice_at-checked s t target start removed inserted e = ground arith

splice_named-IsUnique :
    (s t : Inbox) (target : Option InboxTarget) (name : String) (start removed : ℤ)
    (inserted : List Value)
    → splice_named s target name start removed inserted ≡ ok t
    → IsUnique t
unfolding splice_named
splice_named-IsUnique s t none name start removed inserted e = cc
splice_named-IsUnique s t (some target) name start removed inserted e =
    (check_identities-IsUnique t).0 (splice_at-checked s t target start removed inserted e)

apply_splice-IsUnique : (s t : Inbox) (row : Value) → apply_splice s row ≡ ok t → IsUnique t
unfolding apply_splice
apply_splice-IsUnique s t row e = splice_named-IsUnique s t _ _ _ _ _ e

-- Folding rows onto an inbox without duplicates gives an inbox without duplicates, if it succeeds.
pub fold_from-IsUnique :
    (s t : Inbox) (rows : List Value) → IsUnique s → fold_from s rows ≡ ok t → IsUnique t
unfolding fold_from
fold_from-IsUnique s t [] u e = subst IsUnique (ok-injective e) u
fold_from-IsUnique s t (row ∷ rows) u e = elim (if-eq_cases (is_splice row) _ _ e) [
  | inl (_, applied) ↦
      let (r, here, there) = >>=-eq-ok (apply_splice s _) (λ r. fold_from r rows) applied in
      fold_from-IsUnique r t rows (apply_splice-IsUnique s r _ here) there
  | inr (_, skipped) ↦ fold_from-IsUnique s t rows u skipped
]

All-without :
    (j : String) (xs ys zs : List Value)
    → All (λ k. j ≢ k) (ids (xs ++ (ys ++ zs)))
    → All (λ k. j ≢ k) (ids (xs ++ zs))
All-without j [] [] zs h = h
All-without j [] (y ∷ ys) zs h = elim (Bool-cases (str_eq (id_of y) "")) [
  | inl e ↦ All-without j [] ys zs (rw e at h)
  | inr e ↦ All-without j [] ys zs (rw e at h).1
]
All-without j (x ∷ xs) ys zs h = elim (Bool-cases (str_eq (id_of x) "")) [
  | inl e ↦ rw e (All-without j xs ys zs (rw e at h))
  | inr e ↦ rw e ((rw e at h).0, All-without j xs ys zs (rw e at h).1)
]

-- Taking messages out keeps the identities of the others distinct.
pub Unique-without :
    (xs ys zs : List Value) → Unique (ids (xs ++ (ys ++ zs))) → Unique (ids (xs ++ zs))
Unique-without [] [] zs h = h
Unique-without [] (y ∷ ys) zs h = elim (Bool-cases (str_eq (id_of y) "")) [
  | inl e ↦ Unique-without [] ys zs (rw e at h)
  | inr e ↦ Unique-without [] ys zs (rw e at h).1
]
Unique-without (x ∷ xs) ys zs h = elim (Bool-cases (str_eq (id_of x) "")) [
  | inl e ↦ rw e (Unique-without xs ys zs (rw e at h))
  | inr e ↦
      rw e (All-without (id_of x) xs ys zs (rw e at h).0, Unique-without xs ys zs (rw e at h).1)
]
