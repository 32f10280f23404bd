-- ===== src/AssistantStream/Ends.antt =====
-- When the compaction ends (rust/crates/vocoderd/src/machines/assistant_stream.rs).
use dsh_rs.Base.{
  ℕ, zero, suc, ◌≤◌, ◌≡◌, inl, inr, refl, sym, ap, ◌∙◌, subst, String, Option, none, some, List, [],
  ◌∷◌, Bool, true, false, ◌&&◌, str_eq, eq_refl, ==_iff, length, All, arith, Bool-cases,
  Option-cases,
}
use dsh_rs.Json.{Value, get_as, as_u64, unwrap_or}
use dsh_rs.AssistantStream.{is_next}
use dsh_rs.AssistantStream.Compact.{
  Chunks, run, pick_text, pick_args, is_prose, index_of, then_record, round, compact,
}
use dsh_rs.AssistantStream.Lossless.{is_delta, then_record-eq}

-- A delta has an index of its own.
abbrev pub HasIndex : String × Value → Type 0
HasIndex (kind, chunk) = is_delta kind ≡ true → (n : ℕ) × (get_as as_u64 chunk "index" ≡ some n)

is_next-some : (o : Option ℕ) (index : ℕ) → is_next o index ≡ true → (n : ℕ) × (o ≡ some n)
is_next-some none index e = cc e
is_next-some (some n) index e = (n, refl)

and-right : (a b : Bool) → (a && b) ≡ true → b ≡ true
and-right true b h = h
and-right false b h = cc h

module _ (pick : Value → Option Value) (kind : String) (index : ℕ) where
  run-le : (chunks : Chunks) → length (run pick kind index chunks).1 ≤ length chunks
  unfolding run
  run-le [] = omega arith
  run-le ((k, c) ∷ rest) = ground (arith, run-le rest)

  -- A run passes only over chunks with an index.
  run-HasIndex :
      (chunks : Chunks) → All HasIndex (run pick kind index chunks).1 → All HasIndex chunks
  unfolding run
  run-HasIndex [] h = tt
  run-HasIndex ((k, c) ∷ rest) h =
      elim (Bool-cases (str_eq k kind && is_next (get_as as_u64 c "index") index)) [
        | inl taken ↦ (
          λ d. is_next-some (get_as as_u64 c "index") index (and-right _ _ taken),
          run-HasIndex rest (rw taken at h),
        )
        | inr left ↦ rw left at h
      ]

  HasIndex-run :
      (chunks : Chunks) → All HasIndex chunks → All HasIndex (run pick kind index chunks).1
  unfolding run
  HasIndex-run [] h = tt
  HasIndex-run ((k, c) ∷ rest) (h, hs) =
      elim (Bool-cases (str_eq k kind && is_next (get_as as_u64 c "index") index)) [
        | inl taken ↦ rw taken (HasIndex-run rest hs)
        | inr left ↦ rw left (h, hs)
      ]

  pub run_first :
      (c : Value) (rest : Chunks)
      → get_as as_u64 c "index" ≡ some index
      → (run pick kind index ((kind, c) ∷ rest)).1 ≡ (run pick kind index rest).1
  unfolding run
  run_first c rest e = rw (eq_refl kind, e) (rw ((==_iff index index).1 refl) refl)

-- What a round leaves: fewer chunks if the first has its index, and all of the chunks without one.
abbrev Leaves : String → Value → Chunks → Chunks → Type 0
Leaves kind chunk rest left =
    (All HasIndex left → All HasIndex ((kind, chunk) ∷ rest))
    × (All HasIndex ((kind, chunk) ∷ rest) → All HasIndex left × (length left ≤ length rest))

run-Leaves :
    (pick : Value → Option Value) (kind : String) (chunk : Value) (rest : Chunks)
    → is_delta kind ≡ true
    → Leaves kind chunk rest (run pick kind (index_of chunk) ((kind, chunk) ∷ rest)).1
run-Leaves pick kind chunk rest d =
    let index = index_of chunk in
    let all = (kind, chunk) ∷ rest in
    (
      run-HasIndex pick kind index all,
      λ (h : All HasIndex all). (HasIndex-run pick kind index all h, known (h.0 d)),
    )
  where
    known :
        (n : ℕ) × (get_as as_u64 chunk "index" ≡ some n)
        → length (run pick kind (index_of chunk) ((kind, chunk) ∷ rest)).1 ≤ length rest
    known (n, e) =
        let own : get_as as_u64 chunk "index" ≡ some (index_of chunk) =
          e ∙ ap some (sym (ap (λ o. unwrap_or o 0) e)) in
        subst (λ (l : Chunks). length l ≤ length rest)
          (sym (run_first pick kind (index_of chunk) chunk rest own))
          (run-le pick kind (index_of chunk) rest)

pub round-Leaves :
    (kind : String) (chunk : Value) (rest : Chunks)
    → Leaves kind chunk rest (round kind chunk rest).1
round-Leaves kind chunk rest = elim (Bool-cases (is_prose kind)) [
  | inl prose ↦
      let step : (round kind chunk rest).1
          ≡ (run pick_text kind (index_of chunk) ((kind, chunk) ∷ rest)).1 =
        rw prose refl in
      subst (Leaves kind chunk rest) (sym step)
        (run-Leaves pick_text kind chunk rest (rw prose refl))
  | inr other ↦ elim (Bool-cases (str_eq kind "tool-call-delta")) [
    | inl tool ↦
        let step : (round kind chunk rest).1
            ≡ (run pick_args kind (index_of chunk) ((kind, chunk) ∷ rest)).1 =
          rw (other, tool) refl in
        subst (Leaves kind chunk rest) (sym step)
          (run-Leaves pick_args kind chunk rest (rw (other, tool) refl))
    | inr plain ↦
        let step : (round kind chunk rest).1 ≡ rest = rw (other, plain) refl in
        subst (Leaves kind chunk rest) (sym step) (
          λ (h : All HasIndex rest). (λ (d : is_delta kind ≡ true). ground arith, h),
          λ (h : All HasIndex ((kind, chunk) ∷ rest)). (h.1, omega arith),
        )
  ]
]

compact_total :
    (fuel : ℕ) (chunks : Chunks)
    → length chunks ≤ fuel
    → All HasIndex chunks
    → (records : List Value) × (compact fuel chunks ≡ some records)
unfolding compact
compact_total zero [] l h = ([], refl)
compact_total (suc fuel) [] l h = ([], refl)
compact_total zero (c ∷ rest) l h = absurd (omega arith)
compact_total (suc fuel) ((kind, chunk) ∷ rest) l h =
    let (all, fewer) = (round-Leaves kind chunk rest).1 h in
    let (records, ended) = compact_total fuel (round kind chunk rest).1 (omega arith) all in
    ((round kind chunk rest).0 ∷ records, ap (then_record (round kind chunk rest).0) ended)

pub compact-HasIndex :
    (fuel : ℕ) (chunks : Chunks) (records : List Value)
    → compact fuel chunks ≡ some records
    → All HasIndex chunks
unfolding compact
compact-HasIndex zero [] records e = tt
compact-HasIndex (suc fuel) [] records e = tt
compact-HasIndex zero (c ∷ rest) records e = cc e
compact-HasIndex (suc fuel) ((kind, chunk) ∷ rest) records e =
    let (rs, ended, _) =
      then_record-eq (round kind chunk rest).0 (compact fuel (round kind chunk rest).1) records e in
    (round-Leaves kind chunk rest).0 (compact-HasIndex fuel (round kind chunk rest).1 rs ended)

-- If every text, reasoning and tool delta has an index, the compaction ends within as many rounds as
-- there are chunks. If one has none, it never ends, whatever the number of rounds.
pub compact_ends :
    (chunks : Chunks)
    → (All HasIndex chunks
        → (records : List Value) × (compact (length chunks) chunks ≡ some records))
      × (¬ All HasIndex chunks → (fuel : ℕ) → compact fuel chunks ≡ none)
compact_ends chunks = (
  compact_total (length chunks) chunks (omega arith),
  λ n fuel. elim (Option-cases (compact fuel chunks)) [
    | inl e ↦ e
    | inr (records, e) ↦ absurd (n (compact-HasIndex fuel chunks records e))
  ],
)
