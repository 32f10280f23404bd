-- ===== src/AssistantStream/Calls.antt =====
-- The calls of tools that chunks open, and those that a reader of records finds
-- (rust/crates/vocoderd/src/machines/assistant_stream.rs).
use dsh_rs.Base.{
  ℕ, ◌≡◌, inl, inr, refl, ap, ◌∙◌, String, Option, none, some, List, [], ◌∷◌, Bool, false, ◌&&◌,
  str_eq, eq_iff, ◌==◌, ==_iff, and_then, if◌then◌else◌, Bool-cases,
}
use dsh_rs.Json.{Value, lookup, fields, get_as, as_str, as_u64}
use dsh_rs.AssistantStream.{is_next}
use dsh_rs.AssistantStream.Compact.{
  Chunks, run, pick_text, pick_args, index_of, prose_record, tool_record, name_field, raw_record,
}
use dsh_rs.AssistantStream.Lossless.{str_at, index_at, is_next-eq, and-both}

-- A call of a tool: its index, its id, and its name if it is told.
abbrev pub Call : Type 0
Call = ℕ × (String × Option String)

abbrev pub call_of : Value → Call
call_of v = (index_at v, (str_at v "id", get_as as_str v "name"))

-- The calls that a reader of the compact form finds.
unfoldable pub calls : List Value → List Call
calls [] = []
calls (r ∷ rs) =
    let later = calls rs in
    if str_eq (str_at r "type") "tool-call-chunks" then call_of r ∷ later else later

abbrev goes_on : Option ℕ → Option ℕ → Bool
goes_on (some n) (some m) = m == n
goes_on _ _ = false

-- The calls that chunks open: a delta of a call opens it unless the chunk just before it was a delta
-- of a call at the same index. `before` is the index of that chunk, if it was one.
unfoldable pub opened : Option ℕ → Chunks → List Call
opened before [] = []
opened before ((kind, chunk) ∷ rest) =
    let own = get_as as_u64 chunk "index" in
    let later = opened own rest in
    let after = opened none rest in
    if str_eq kind "tool-call-delta"
    then (if goes_on before own then later else call_of chunk ∷ later)
    else after

goes_on-is_next : (o : Option ℕ) (index : ℕ) → goes_on (some index) o ≡ is_next o index
goes_on-is_next none index = refl
goes_on-is_next (some n) index = refl

pub plain-calls :
    (chunk : Value) (records : List Value) → calls (raw_record chunk ∷ records) ≡ calls records
unfolding calls
plain-calls chunk records = refl

pub opened-other :
    (before : Option ℕ) (kind : String) (chunk : Value) (rest : Chunks)
    → str_eq kind "tool-call-delta" ≡ false
    → opened before ((kind, chunk) ∷ rest) ≡ opened none rest
unfolding opened
opened-other before kind chunk rest e = rw e refl

pub run-opened-prose :
    (kind : String) (index : ℕ) (chunks : Chunks)
    → str_eq kind "tool-call-delta" ≡ false
    → opened none chunks ≡ opened none (run pick_text kind index chunks).1
unfolding run
run-opened-prose kind index [] e = refl
run-opened-prose kind index ((k, c) ∷ rest) e =
    let own = is_next (get_as as_u64 c "index") index in
    elim (Bool-cases (str_eq k kind && own)) [
      | inl same ↦
          let kinds = (eq_iff k kind).0 (and-both (str_eq k kind) own same).0 in
          rw same (
            opened-other none k c rest (ap (λ z. str_eq z "tool-call-delta") kinds ∙ e)
            ∙ run-opened-prose kind index rest e)
      | inr other ↦ rw other refl
    ]

-- The deltas of a call that is open open no other.
pub run-opened-tool :
    (index : ℕ) (chunks : Chunks)
    → opened (some index) chunks ≡ opened none (run pick_args "tool-call-delta" index chunks).1
unfolding run opened
run-opened-tool index [] = refl
run-opened-tool index ((k, c) ∷ rest) =
    let own = get_as as_u64 c "index" in
    elim (Bool-cases (str_eq k "tool-call-delta")) [
      | inl tool ↦ elim (Bool-cases (is_next own index)) [
        | inl same ↦
            rw (tool, is_next-eq own index same)
              (rw ((==_iff index index).1 refl) (run-opened-tool index rest))
        | inr other ↦ rw (tool, goes_on-is_next own index, other) (rw tool refl)
      ]
      | inr other ↦ rw other (rw other refl)
    ]

name_field-name : (o : Option String) → and_then (lookup "name" (fields (name_field o))) as_str ≡ o
name_field-name none = refl
name_field-name (some name) = refl

call_of-tool_record :
    (chunk : Value) (args : List Value)
    → call_of (tool_record chunk (index_of chunk) args) ≡ call_of chunk
call_of-tool_record chunk args =
    ap (λ o. (index_at chunk, (str_at chunk "id", o)))
      (name_field-name (get_as as_str chunk "name"))

pub calls-tool :
    (chunk : Value) (args records : List Value)
    → calls (tool_record chunk (index_of chunk) args ∷ records) ≡ call_of chunk ∷ calls records
unfolding calls
calls-tool chunk args records = ap (λ c. c ∷ calls records) (call_of-tool_record chunk args)

pub calls-prose :
    (kind : String) (index : ℕ) (texts records : List Value)
    → calls (prose_record kind index texts ∷ records) ≡ calls records
unfolding calls
calls-prose kind index texts records = elim (Bool-cases (str_eq kind "text-delta")) [
  | inl text ↦ rw text refl
  | inr other ↦ rw other refl
]
