-- ===== src/AssistantStream/Heads.antt =====
-- What the compact form says, the calls of tools included
-- (rust/crates/vocoderd/src/machines/assistant_stream.rs).
use dsh_rs.Base.{
  ℕ, zero, suc, ◌≡◌, inl, inr, refl, sym, ap, ◌∙◌, subst, String, Option, none, some, List, [], ◌∷◌,
  true, false, str_eq, eq_iff, All, Bool-cases,
}
use mathlib.Core.Option.{some-injective}
use dsh_rs.Json.{Value, unwrap_or, get_as, as_u64}
use dsh_rs.AssistantStream.Compact.{
  Chunks, run, pick_text, pick_args, is_prose, index_of, prose_record, raw_record, round, compact,
}
use dsh_rs.AssistantStream.Lossless.{pieces, expand, then_record-eq, compact-expand}
use dsh_rs.AssistantStream.Ends.{HasIndex, round-Leaves, run_first, compact-HasIndex}
use dsh_rs.AssistantStream.Calls.{
  call_of, calls, opened, plain-calls, opened-other, run-opened-prose, run-opened-tool, calls-tool,
  calls-prose,
}

own_index : (o : Option ℕ) → (n : ℕ) × (o ≡ some n) → o ≡ some (unwrap_or o 0)
own_index none (n, e) = cc e
own_index (some m) (n, e) = refl

opened-tool :
    (chunk : Value) (rest : Chunks)
    → HasIndex ("tool-call-delta", chunk)
    → opened none (("tool-call-delta", chunk) ∷ rest)
      ≡ call_of chunk
        ∷ opened none
            (run pick_args "tool-call-delta" (index_of chunk) (("tool-call-delta", chunk) ∷ rest)).1
unfolding opened
opened-tool chunk rest h =
    let index = index_of chunk in
    let own : get_as as_u64 chunk "index" ≡ some index = own_index _ (h refl) in
    ap (λ l. call_of chunk ∷ l)
      (ap (λ o. opened o rest) own
        ∙ run-opened-tool index rest
        ∙ ap (opened none) (sym (run_first pick_args "tool-call-delta" index chunk rest own)))

-- The record of a round opens the call that its chunks open, if any.
abbrev Opens : String → Value → Chunks → Value × Chunks → Type 0
Opens kind chunk rest (r, left) =
    (records : List Value)
    → calls records ≡ opened none left
    → calls (r ∷ records) ≡ opened none ((kind, chunk) ∷ rest)

prose_other : (kind : String) → is_prose kind ≡ true → str_eq kind "tool-call-delta" ≡ false
prose_other kind p = elim (Bool-cases (str_eq kind "tool-call-delta")) [
  | inl tool ↦ cc (sym p ∙ ap is_prose ((eq_iff kind "tool-call-delta").0 tool))
  | inr other ↦ other
]

tool-Opens :
    (chunk : Value) (rest : Chunks)
    → HasIndex ("tool-call-delta", chunk)
    → Opens "tool-call-delta" chunk rest (round "tool-call-delta" chunk rest)
tool-Opens chunk rest h records later =
    calls-tool chunk _ records ∙ ap (λ l. call_of chunk ∷ l) later ∙ sym (opened-tool chunk rest h)

round-Opens :
    (kind : String) (chunk : Value) (rest : Chunks)
    → HasIndex (kind, chunk)
    → Opens kind chunk rest (round kind chunk rest)
round-Opens kind chunk rest h = elim (Bool-cases (is_prose kind)) [
  | inl prose ↦
      let index = index_of chunk in
      let later = run pick_text kind index ((kind, chunk) ∷ rest) in
      let step : round kind chunk rest ≡ (prose_record kind index later.0, later.1) =
        rw prose refl in
      subst (Opens kind chunk rest) (sym step) (λ records e.
        calls-prose kind index later.0 records
        ∙ e
        ∙ sym (run-opened-prose kind index ((kind, chunk) ∷ rest) (prose_other kind prose)))
  | inr other ↦ elim (Bool-cases (str_eq kind "tool-call-delta")) [
    | inl tool ↦
        let same = (eq_iff kind "tool-call-delta").0 tool in
        subst (λ k. Opens k chunk rest (round k chunk rest)) (sym same)
          (tool-Opens chunk rest (subst (λ k. HasIndex (k, chunk)) same h))
    | inr plain ↦
        let step : round kind chunk rest ≡ (raw_record chunk, rest) = rw (other, plain) refl in
        subst (Opens kind chunk rest) (sym step) (λ records e.
          plain-calls chunk records ∙ e ∙ sym (opened-other none kind chunk rest plain))
  ]
]

compact-calls :
    (fuel : ℕ) (chunks : Chunks) (records : List Value)
    → All HasIndex chunks
    → compact fuel chunks ≡ some records
    → calls records ≡ opened none chunks
unfolding compact calls opened
compact-calls zero [] records h e = ap calls (sym (some-injective _ _ e))
compact-calls (suc fuel) [] records h e = ap calls (sym (some-injective _ _ e))
compact-calls zero (c ∷ rest) records h e = cc e
compact-calls (suc fuel) ((kind, chunk) ∷ rest) records h e =
    let (r, left) = round kind chunk rest in
    let (rs, ended, whole) = then_record-eq r (compact fuel left) records e in
    let all = ((round-Leaves kind chunk rest).1 h).0 in
    ap calls (sym whole) ∙ round-Opens kind chunk rest h.0 rs (compact-calls fuel left rs all ended)

-- When the compaction ends, a reader of its records finds what the chunks say: the texts and the
-- arguments piece by piece, each at its index, and the chunks that are no deltas, all in order; and
-- the calls of tools that the chunks open, with the index, id and name of the delta that opens each.
pub compact_lem :
    (fuel : ℕ) (chunks : Chunks) (records : List Value)
    → compact fuel chunks ≡ some records
    → (expand records ≡ pieces chunks) × (calls records ≡ opened none chunks)
compact_lem fuel chunks records e = (
  compact-expand fuel chunks records e,
  compact-calls fuel chunks records (compact-HasIndex fuel chunks records e) e,
)
