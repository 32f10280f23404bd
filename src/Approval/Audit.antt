-- ===== src/Approval/Audit.antt =====
-- What `check_audit` decides of a log: every decision follows its ask, and no ask is decided twice
-- (rust/crates/vocoderd/src/machines/approval.rs).
use dsh_rs.Base.{
  ℕ, suc, ◌+◌, ◌≡◌, ◌↔◌, ◌⊎◌, refl, sym, subst, ap, String, Option, none, some, List, [], ◌∷◌, ◌++◌,
  append-nil, append_assoc, Bool, true, false, ◌||◌, Result, ok, ◌>>=◌, >>=-eq-ok, str_eq,
  if◌then◌else◌, arith, inl, inr,
}
use dsh_rs.Base.Dict.{lookup, insert, lookup-insert}
use dsh_rs.Json.{Value, get_as, as_str}
use dsh_rs.Approval.{
  AuditError, Seen, unseen, check_decided, row_id, check_row, check_rows, check_audit,
}

-- The rows that an audit reads.
pub data Entry : Type 0 where
  asks decides : String → Entry

abbrev entry_typed : Option String → String → Option Entry
entry_typed none id = none
entry_typed (some ty) id =
    if str_eq ty "approval/asked"
    then some (asks id)
    else if str_eq ty "approval/decided"
    then some (decides id)
    else none

abbrev entry : Value → Option Entry
entry row =
    if str_eq (row_id row) "" then none else entry_typed (get_as as_str row "type") (row_id row)

abbrev add : Option Entry → List Entry → List Entry
add none es = es
add (some e) es = e ∷ es

unfoldable pub entries : List Value → List Entry
entries [] = []
entries (row ∷ rows) = add (entry row) (entries rows)

abbrev pub is_asked : String → List Entry → Bool
is_asked id [] = false
is_asked id (asks j ∷ es) = str_eq j id || is_asked id es
is_asked id (decides _ ∷ es) = is_asked id es

abbrev pub is_decided : String → List Entry → Bool
is_decided id [] = false
is_decided id (asks _ ∷ es) = is_decided id es
is_decided id (decides j ∷ es) = str_eq j id || is_decided id es

abbrev pub decisions : List Entry → ℕ
decisions [] = 0
decisions (asks _ ∷ es) = decisions es
decisions (decides _ ∷ es) = suc (decisions es)

-- Wherever an entry decides an ask, an earlier one asked it and none has decided it.
abbrev pub IsPaired : List Entry → Type 0
IsPaired es =
    (xs ys : List Entry) (id : String)
    → es ≡ xs ++ decides id ∷ ys
    → (is_asked id xs ≡ true) × (is_decided id xs ≡ false)

-- The same, entry by entry after those in `before`.
abbrev Fits : List Entry → Entry → Type 0
Fits before (asks id) = Unit
Fits before (decides id) = (is_asked id before ≡ true) × (is_decided id before ≡ false)

abbrev FollowsOn : List Entry → List Entry → Type 0
FollowsOn before [] = Unit
FollowsOn before (e ∷ es) = Fits before e × FollowsOn (before ++ e ∷ []) es

abbrev audit_entry : Seen → Option Entry → Result AuditError Seen
audit_entry s none = ok s
audit_entry s (some (asks id)) = ok (record s { asked = insert id tt s.asked })
audit_entry s (some (decides id)) = check_decided s id

check_row-entry : (s : Seen) (row : Value) → check_row s row ≡ audit_entry s (entry row)
unfolding check_row
check_row-entry s row = ground arith

is_asked-snoc :
    (id : String) (es : List Entry) (e : Entry)
    → is_asked id (es ++ e ∷ []) ≡ (is_asked id es || is_asked id (e ∷ []))
is_asked-snoc id [] e = refl
is_asked-snoc id (asks j ∷ es) e = ground (arith, is_asked-snoc id es e)
is_asked-snoc id (decides j ∷ es) e = is_asked-snoc id es e

is_decided-snoc :
    (id : String) (es : List Entry) (e : Entry)
    → is_decided id (es ++ e ∷ []) ≡ (is_decided id es || is_decided id (e ∷ []))
is_decided-snoc id [] e = refl
is_decided-snoc id (asks j ∷ es) e = is_decided-snoc id es e
is_decided-snoc id (decides j ∷ es) e = ground (arith, is_decided-snoc id es e)

abbrev held : Option (Unit {0}) → Bool
held none = false
held (some _) = true

-- The sets hold what the entries so far asked and decided.
abbrev Agrees : Seen → List Entry → Type 0
Agrees s before =
    (id : String)
    → (held (lookup id s.asked) ≡ is_asked id before)
      × (held (lookup id s.decided) ≡ is_decided id before)

after_ask :
    (s : Seen) (before : List Entry) (id : String)
    → Agrees s before
    → Agrees (record s { asked = insert id tt s.asked }) (before ++ asks id ∷ [])
after_ask s before id a j = ground (
  arith,
  lookup-insert s.asked id tt j,
  is_asked-snoc j before (asks id),
  is_decided-snoc j before (asks id),
  a j,
)

after_decision :
    (s : Seen) (before : List Entry) (id : String)
    → Agrees s before
    → Agrees
        (record s { decided = insert id tt s.decided; pairs = suc s.pairs })
        (before ++ decides id ∷ [])
after_decision s before id a j = ground (
  arith,
  lookup-insert s.decided id tt j,
  is_asked-snoc j before (decides id),
  is_decided-snoc j before (decides id),
  a j,
)

-- What the loop makes of the rows, and what the entries say.
abbrev Decides : Seen → List Entry → List Value → Type 0
Decides s before rows =
    (n : ℕ)
    → (check_rows s rows ≡ ok n)
      ↔ (FollowsOn before (entries rows) × (n ≡ s.pairs + decisions (entries rows)))

check_decided-cases :
    (s : Seen) (before : List Entry) (id : String)
    → Agrees s before
    → (Fits before (decides id)
        × (check_decided s id
            ≡ ok (record s { decided = insert id tt s.decided; pairs = suc s.pairs })))
      ⊎ ((Fits before (decides id) → ⊥) × ((t : Seen) → check_decided s id ≡ ok t → ⊥))
check_decided-cases s before id a = ground (arith, a id)

entry-Decides :
    (rows : List Value) (s : Seen) (before : List Entry) (e : Option Entry) (n : ℕ)
    → Agrees s before
    → ((t : Seen) (after : List Entry) → Agrees t after → Decides t after rows)
    → ((audit_entry s e >>= λ t. check_rows t rows) ≡ ok n)
      ↔ (FollowsOn before (add e (entries rows)) × (n ≡ s.pairs + decisions (add e (entries rows))))
entry-Decides rows s before none n a ih = ih s before a n
entry-Decides rows s before (some (asks id)) n a ih =
    let (to, from) = ih _ _ (after_ask s before id a) n in
    (λ h. ((tt, (to h).0), (to h).1), λ h. from (h.0.1, h.1))
entry-Decides rows s before (some (decides id)) n a ih = elim (check_decided-cases s before id a) [
  | inl (fits, passed) ↦
      let (to, from) = ih _ _ (after_decision s before id a) n in
      rw passed (
        λ h. let (f, e) = to h in ((fits, f), omega (arith, e)),
        λ h. from (h.0.1, omega (arith, h.1)),
      )
  | inr (unfit, refused) ↦ (
    λ h. let (t, passed, _) = >>=-eq-ok (check_decided s id) _ h in absurd (refused t passed),
    λ h. absurd (unfit h.0.0),
  )
]

check_rows-Decides :
    (rows : List Value) (s : Seen) (before : List Entry) → Agrees s before → Decides s before rows
unfolding check_rows entries
check_rows-Decides [] s before a n = ground arith
check_rows-Decides (row ∷ rows) s before a n =
    rw (check_row-entry s row)
      (entry-Decides rows s before (entry row) n a λ t after b. check_rows-Decides rows t after b)

-- Entry by entry, or at every split: the same.
FollowsOn-split :
    (before xs ys : List Entry) (id : String)
    → FollowsOn before (xs ++ decides id ∷ ys)
    → Fits (before ++ xs) (decides id)
FollowsOn-split before [] ys id f = rw append-nil f.0
FollowsOn-split before (x ∷ xs) ys id f =
    subst (λ es. Fits es (decides id)) (append_assoc before (x ∷ []) xs)
      (FollowsOn-split (before ++ x ∷ []) xs ys id f.1)

abbrev FitsAt : List Entry → List Entry → Type 0
FitsAt before es =
    (xs ys : List Entry) (id : String)
    → es ≡ xs ++ decides id ∷ ys
    → Fits (before ++ xs) (decides id)

FitsAt-tail :
    (before es : List Entry) (e : Entry) → FitsAt before (e ∷ es) → FitsAt (before ++ e ∷ []) es
FitsAt-tail before es e h xs ys id split =
    subst (λ fs. Fits fs (decides id)) (sym (append_assoc before (e ∷ []) xs))
      (h (e ∷ xs) ys id (ap (λ fs. e ∷ fs) split))

FitsAt-FollowsOn : (before es : List Entry) → FitsAt before es → FollowsOn before es
FitsAt-FollowsOn before [] h = tt
FitsAt-FollowsOn before (asks id ∷ es) h =
    (tt, FitsAt-FollowsOn (before ++ asks id ∷ []) es (FitsAt-tail before es (asks id) h))
FitsAt-FollowsOn before (decides id ∷ es) h = (
  subst (λ fs. Fits fs (decides id)) (append-nil before) (h [] es id refl),
  FitsAt-FollowsOn (before ++ decides id ∷ []) es (FitsAt-tail before es (decides id) h),
)

-- A log passes the audit with `n` pairs exactly if every decision in it follows an ask with its
-- id and no earlier decision with that id, and it holds `n` decisions.
pub check_audit_iff :
    (rows : List Value) (n : ℕ)
    → (check_audit rows ≡ ok n) ↔ (IsPaired (entries rows) × (n ≡ decisions (entries rows)))
unfolding check_audit
check_audit_iff rows n =
    let (to, from) =
      check_rows-Decides rows unseen [] (λ id. (unfold lookup in refl, unfold lookup in refl)) n in
    (
      λ h.
          let (f, e) = to h in
          (
            λ xs ys id split. FollowsOn-split [] xs ys id (subst (FollowsOn []) split f),
            omega (arith, e),
          ),
      λ (p, e). from (FitsAt-FollowsOn [] (entries rows) p, omega (arith, e)),
    )
