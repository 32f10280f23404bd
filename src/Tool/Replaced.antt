-- ===== src/Tool/Replaced.antt =====
-- What an edit does to a text (rust/crates/vocoderd/src/machines/tool.rs).
use Prim.Native.Char.{Char, code}
use mathlib.Core.Option.{some-injective}
use text.Mathlib.TextLemmas.{cons-append, nil-append}
use text.Mathlib.TextEquality.{Char-path}
use dsh_rs.Base.{
  if-eq_some, ◌≡◌, ◌≢◌, refl, sym, ap, ◌∙◌, subst, inl, inr, ◌⊎◌, ℕ, zero, suc, ◌-◌, ◌≤◌, String,
  concat, Option, none, some, Bool, true, false, not, ◌&&◌, Result, ok, err, ◌==◌, ltb,
  if◌then◌else◌, Option-cases, arith,
}
use dsh_rs.Tool.Page.{chars}
use dsh_rs.Tool.Edit.{EditRequest, Edited, strip, matches, replacen, apply_edit}

-- `n` occurrences of a text stand replaced by another, what stands between them kept.
pub data Replaced (old new : String) : ℕ → String → String → Type 0 where
  rest : (s : String) → Replaced old new 0 s s
  kept :
      (n : ℕ) (c : Char) (s t : String)
      → Replaced old new n s t
      → Replaced old new n (String.◌∷◌ c s) (String.◌∷◌ c t)
  replaced :
      (n : ℕ) (s t : String)
      → Replaced old new n s t
      → Replaced old new (suc n) (concat old s) (concat new t)

unfoldable drop_chars : ℕ → String → String
drop_chars zero s = s
drop_chars (suc n) String.[] = ""
drop_chars (suc n) (String.◌∷◌ c s) = drop_chars n s

strip-concat : (old s r : String) → strip old s ≡ some r → s ≡ concat old r
unfolding strip
strip-concat String.[] s r e = some-injective _ _ e ∙ sym (nil-append r)
strip-concat (String.◌∷◌ c old) String.[] r e = ground arith
strip-concat (String.◌∷◌ c old) (String.◌∷◌ d s) r e =
    let (same, more) = if-eq_some (code c == code d) (strip old s) r e in
    ap (λ x. String.◌∷◌ x s) (Char-path d c (ground arith))
    ∙ ap (String.◌∷◌ c) (strip-concat old s r more)
    ∙ sym (cons-append c old r)

strip-drop_chars : (old s r : String) → strip old s ≡ some r → r ≡ drop_chars (chars old) s
unfolding strip drop_chars chars
strip-drop_chars String.[] s r e = ground arith
strip-drop_chars (String.◌∷◌ c old) String.[] r e = ground arith
strip-drop_chars (String.◌∷◌ c old) (String.◌∷◌ d s) r e =
    strip-drop_chars old s r ((if-eq_some (code c == code d) (strip old s) r e).1)

-- A match at a text's beginning: the rest is what the skip of the match's characters leaves.
match_here :
    (a : Char) (o s r : String) (c : Char)
    → strip (String.◌∷◌ a o) (String.◌∷◌ c s) ≡ some r
    → String.◌∷◌ c s ≡ concat (String.◌∷◌ a o) (drop_chars (chars (String.◌∷◌ a o) - 1) s)
unfolding drop_chars chars
match_here a o s r c e =
    strip-concat (String.◌∷◌ a o) (String.◌∷◌ c s) r e
    ∙ ap (concat (String.◌∷◌ a o)) (
        strip-drop_chars (String.◌∷◌ a o) (String.◌∷◌ c s) r e
        ∙ ap (λ n. drop_chars n s) (omega arith))

-- One step of the count and of the replacement, told by what stands at the beginning.
abbrev counted : String → String → Option String → ℕ
counted old s o = elim o [ none ↦ matches old 0 s | some _ ↦ suc (matches old (chars old - 1) s) ]

abbrev rewritten : String → String → ℕ → Char → String → Option String → String
rewritten old new times c s o = elim o [
  | none ↦ String.◌∷◌ c (replacen old new (suc times) 0 s)
  | some _ ↦ concat new (replacen old new times (chars old - 1) s)
]

replacen-Replaced :
    (a : Char) (o new : String) (times skip : ℕ) (s : String)
    → times ≤ matches (String.◌∷◌ a o) skip s
    → Replaced
        (String.◌∷◌ a o)
        new
        times
        (drop_chars skip s)
        (replacen (String.◌∷◌ a o) new times skip s)
unfolding matches replacen drop_chars
replacen-Replaced a o new zero zero String.[] h = Replaced.rest ""
replacen-Replaced a o new zero (suc skip) String.[] h = Replaced.rest ""
replacen-Replaced a o new (suc times) skip String.[] h = absurd (omega (arith, h))
replacen-Replaced a o new times (suc skip) (String.◌∷◌ c s) h =
    replacen-Replaced a o new times skip s h
replacen-Replaced a o new zero zero (String.◌∷◌ c s) h = Replaced.rest (String.◌∷◌ c s)
replacen-Replaced a o new (suc times) zero (String.◌∷◌ c s) h =
    elim (Option-cases (strip (String.◌∷◌ a o) (String.◌∷◌ c s))) [
      | inl none_here ↦
          subst
            (λ o'.
              Replaced (String.◌∷◌ a o) new (suc times) (String.◌∷◌ c s)
                (rewritten (String.◌∷◌ a o) new times c s o'))
            (sym none_here)
            (Replaced.kept (suc times) c s _ (
              replacen-Replaced a o new (suc times) 0 s
                (subst (λ o'. suc times ≤ counted (String.◌∷◌ a o) s o') none_here h)))
      | inr (r, here) ↦
          subst
            (λ o'.
              Replaced (String.◌∷◌ a o) new (suc times) (String.◌∷◌ c s)
                (rewritten (String.◌∷◌ a o) new times c s o'))
            (sym here)
            (subst
              (λ t.
                Replaced (String.◌∷◌ a o) new (suc times) t
                  (concat new (replacen (String.◌∷◌ a o) new times (chars (String.◌∷◌ a o) - 1) s)))
              (sym (match_here a o s r c here))
              (Replaced.replaced times _ _ (
                replacen-Replaced a o new times (chars (String.◌∷◌ a o) - 1) s
                  (omega (arith, subst (λ o'. suc times ≤ counted (String.◌∷◌ a o) s o') here h)))))
    ]

replacen-Replaced_text :
    (old new : String) (times : ℕ) (s : String)
    → old ≢ ""
    → times ≤ matches old 0 s
    → Replaced old new times s (replacen old new times 0 s)
unfolding drop_chars
replacen-Replaced_text String.[] new times s h le = absurd (h refl)
replacen-Replaced_text (String.◌∷◌ a o) new times s h le = replacen-Replaced a o new times 0 s le

-- The three ways of a request, by the count.
ways :
    {A : Type 0} (n : ℕ) (all : Bool) (e f : String) (d : A) (r : Result String A)
    → r ≡ (if n == 0 then err e else if ltb 1 n && not all then err f else ok d)
    → ((n ≡ 0) × (r ≡ err e))
      ⊎ (((2 ≤ n) × (all ≡ false) × (r ≡ err f)) ⊎ ((1 ≤ n) × (all ≡ false → n ≡ 1) × (r ≡ ok d)))
ways n true e f d r h = ground arith
ways n false e f d r h = ground arith

times_all : (n : ℕ) (all : Bool) → (all ≡ false → n ≡ 1) → (if all then n else 1) ≡ n
times_all n true h = refl
times_all n false h = sym (h refl)

-- What an edit is to do: the one occurrence of a text replaced, or every one when that is asked.
abbrev pub IsEdit : EditRequest → String → Edited → Type 0
IsEdit r s d =
    (n : ℕ) × (n ≡ matches r.old 0 s)
    × (1 ≤ n)
    × (r.replace_all ≡ false → n ≡ 1)
    × (d.before ≡ s)
    × Replaced r.old r.new n s d.after

replacen-Replaced_request :
    (r : EditRequest) (s : String) (n : ℕ)
    → (if r.replace_all then n else 1) ≡ n
    → r.old ≢ ""
    → n ≤ matches r.old 0 s
    → Replaced r.old r.new n s (replacen r.old r.new (if r.replace_all then n else 1) 0 s)
replacen-Replaced_request r s n e h le =
    subst (λ t. Replaced r.old r.new n s (replacen r.old r.new t 0 s)) (sym e)
      (replacen-Replaced_text r.old r.new n s h le)

-- An edit of a text that is not empty either replaces every occurrence of it, of which there is one
-- unless the request is to replace all, and leaves the rest of the file as it was; or it is
-- refused, and then there is no occurrence, or there are several and the request is for one.
pub apply_edit_lem :
    (s : String) (r : EditRequest)
    → r.old ≢ ""
    → ((d : Edited) × (apply_edit s r ≡ ok d) × IsEdit r s d)
      ⊎ ((message : String) × (apply_edit s r ≡ err message)
          × ((matches r.old 0 s ≡ 0) ⊎ ((2 ≤ matches r.old 0 s) × (r.replace_all ≡ false))))
apply_edit_lem s r h =
    let n = matches r.old 0 s in
    elim (ways n r.replace_all _ _ _ (apply_edit s r) refl) [
      | inl (zero_times, e) ↦ inr (_, e, inl zero_times)
      | inr (inl (many, one, e)) ↦ inr (_, e, inr (many, one))
      | inr (inr (some_times, once, e)) ↦ inl (
        _,
        e,
        (
          n,
          refl,
          some_times,
          once,
          refl,
          replacen-Replaced_request r s n (times_all n r.replace_all once) h (omega arith),
        ),
      )
    ]
