-- ===== src/AssistantStream/Lossless.antt =====
-- The pieces that chunks say, and those that a reader of the compact form finds
-- (rust/crates/vocoderd/src/machines/assistant_stream.rs).
use mathlib.Core.Option.{some-injective}
use dsh_rs.Base.{
  ℕ, zero, suc, ◌≡◌, inl, inr, refl, sym, ap, ◌∙◌, subst, String, Option, none, some, List, [], ◌∷◌,
  ◌++◌, map, Bool, true, false, ◌&&◌, ◌||◌, str_eq, eq_iff, ==_iff, append_assoc, if◌then◌else◌,
  arith, Bool-cases,
}
use dsh_rs.Json.{
  Value, null, to_items, string, from_items, get, get_as, as_str, as_u64, as_array, unwrap_or,
}
use dsh_rs.AssistantStream.{is_next}
use dsh_rs.AssistantStream.Compact.{
  Chunks, keep, text_of, run, pick_text, pick_args, is_prose, index_of, prose_record, tool_record,
  then_record, round, compact,
}

-- What a chunk says: a piece of the block at an index, or something that is no delta.
pub data Piece : Type 0 where
  delta : String → ℕ → Value → Piece
  raw : Value → Piece

-- The text and the number under a key, with serde's defaults for those that are missing.
abbrev pub str_at : Value → String → String
str_at v key = unwrap_or (get_as as_str v key) ""

abbrev pub index_at : Value → ℕ
index_at v = unwrap_or (get_as as_u64 v "index") 0

abbrev is_text : String → Bool
is_text kind = str_eq kind "text-delta" || str_eq kind "reasoning-delta"

abbrev said : Option String → List Value
said none = []
said (some text) = string text ∷ []

abbrev record_type : String → String
record_type kind =
    if str_eq kind "text-delta"
    then "text-chunks"
    else if str_eq kind "reasoning-delta"
    then "reasoning-chunks"
    else "tool-call-chunks"

abbrev pub is_delta : String → Bool
is_delta kind = is_text kind || str_eq kind "tool-call-delta"

-- The pieces of one chunk; a prose delta with no text says nothing.
abbrev pub pieces_of : String → Value → List Piece
pieces_of kind chunk =
    if is_text kind
    then map (delta (record_type kind) (index_at chunk)) (said (get_as as_str chunk "text"))
    else if str_eq kind "tool-call-delta"
    then delta "tool-call-chunks" (index_at chunk) (string (str_at chunk "argumentsDelta")) ∷ []
    else raw chunk ∷ []

abbrev pub pieces : Chunks → List Piece
pieces [] = []
pieces ((kind, chunk) ∷ rest) = pieces_of kind chunk ++ pieces rest

abbrev list_at : Value → String → List Value
list_at r key = unwrap_or (get_as as_array r key) []

-- What a reader of the compact form takes from a record.
abbrev pub expand_record : Value → List Piece
expand_record r =
    let kind = str_at r "type" in
    if str_eq kind "chunk"
    then raw (unwrap_or (get r "chunk") null) ∷ []
    else if str_eq kind "tool-call-chunks"
    then map (delta kind (index_at r)) (list_at r "args")
    else map (delta kind (index_at r)) (list_at r "texts")

abbrev pub expand : List Value → List Piece
expand [] = []
expand (r ∷ rs) = expand_record r ++ expand rs

from-to_items : (vs : List Value) → from_items (to_items vs) ≡ vs
from-to_items [] = refl
from-to_items (v ∷ vs) = ap (λ t. v ∷ t) (from-to_items vs)

or-right : (a b : Bool) → a ≡ false → (a || b) ≡ true → b ≡ true
or-right true b e h = cc e
or-right false b e h = h

pub and-both : (a b : Bool) → (a && b) ≡ true → (a ≡ true) × (b ≡ true)
and-both true b h = (refl, h)
and-both false b h = cc h

expand-prose_record :
    (kind : String) (index : ℕ) (texts : List Value)
    → is_prose kind ≡ true
    → expand_record (prose_record kind index texts) ≡ map (delta (record_type kind) index) texts
expand-prose_record kind index texts p = elim (Bool-cases (str_eq kind "text-delta")) [
  | inl text ↦ rw text (ap (map (delta "text-chunks" index)) (from-to_items texts))
  | inr other ↦
      let reasoning : str_eq kind "reasoning-delta" ≡ true = or-right _ _ other p in
      rw (other, reasoning) (ap (map (delta "reasoning-chunks" index)) (from-to_items texts))
]

expand-tool_record :
    (chunk : Value) (index : ℕ) (args : List Value)
    → expand_record (tool_record chunk index args) ≡ map (delta "tool-call-chunks" index) args
expand-tool_record chunk index args = ap (map (delta "tool-call-chunks" index)) (from-to_items args)

pub is_next-eq : (o : Option ℕ) (index : ℕ) → is_next o index ≡ true → o ≡ some index
is_next-eq none index e = cc e
is_next-eq (some n) index e = ap some ((==_iff n index).0 e)

map-keep :
    {A : Type 0} (f : Value → A) (o : Option Value) (rest : List Value)
    → map f (keep o rest) ≡ map f (keep o []) ++ map f rest
map-keep f none rest = refl
map-keep f (some v) rest = refl

module _ (pick : Value → Option Value) (kind name : String) (index : ℕ)
    (one : (c : Value)
      → get_as as_u64 c "index" ≡ some index
      → pieces_of kind c ≡ map (delta name index) (keep (pick c) [])) where
  run-pieces :
      (chunks : Chunks)
      → pieces chunks
        ≡ map (delta name index) (run pick kind index chunks).0
          ++ pieces (run pick kind index chunks).1
  unfolding run
  run-pieces [] = refl
  run-pieces ((k, c) ∷ rest) =
      let test = str_eq k kind && is_next (get_as as_u64 c "index") index in
      elim (Bool-cases test) [
        | inl same ↦
            let (kinds, indexes) = and-both (str_eq k kind) _ same in
            let f = delta name index in
            let later = run pick kind index rest in
            let said : pieces_of k c ≡ map f (keep (pick c) []) =
              subst (λ z. pieces_of z c ≡ map f (keep (pick c) [])) (sym ((eq_iff k kind).0 kinds))
                (one c (is_next-eq _ index indexes)) in
            rw same (
              ap (λ z. z ++ pieces rest) said
              ∙ ap (λ z. map f (keep (pick c) []) ++ z) (run-pieces rest)
              ∙ sym (append_assoc (map f (keep (pick c) [])) (map f later.0) (pieces later.1))
              ∙ ap (λ z. z ++ pieces later.1) (sym (map-keep f (pick c) later.0)))
        | inr other ↦ rw other refl
      ]

said-keep : (o : Option String) → said o ≡ keep (text_of o) []
said-keep none = refl
said-keep (some text) = refl

pieces_of-prose :
    (kind : String) (c : Value) (index : ℕ)
    → is_prose kind ≡ true
    → get_as as_u64 c "index" ≡ some index
    → pieces_of kind c ≡ map (delta (record_type kind) index) (keep (pick_text c) [])
pieces_of-prose kind c index p e =
    rw (p, e) (ap (map (delta (record_type kind) index)) (said-keep (get_as as_str c "text")))

pieces_of-tool :
    (kind : String) (c : Value) (index : ℕ)
    → is_prose kind ≡ false
    → str_eq kind "tool-call-delta" ≡ true
    → get_as as_u64 c "index" ≡ some index
    → pieces_of kind c ≡ map (delta "tool-call-chunks" index) (keep (pick_args c) [])
pieces_of-tool kind c index p t e =
    let text : str_eq kind "text-delta" ≡ false = ground arith in
    let reasoning : str_eq kind "reasoning-delta" ≡ false = ground arith in
    rw (text, reasoning, t, e) refl

-- One round loses nothing.
round-pieces :
    (kind : String) (chunk : Value) (rest : Chunks)
    → pieces ((kind, chunk) ∷ rest)
      ≡ expand_record (round kind chunk rest).0 ++ pieces (round kind chunk rest).1
round-pieces kind chunk rest =
    let index = index_of chunk in
    let all = (kind, chunk) ∷ rest in
    elim (Bool-cases (is_prose kind)) [
      | inl prose ↦
          let later = run pick_text kind index all in
          let step : round kind chunk rest ≡ (prose_record kind index later.0, later.1) =
            rw prose refl in
          run-pieces pick_text kind (record_type kind) index
            (λ c e. pieces_of-prose kind c index prose e) all
          ∙ ap (λ z. z ++ pieces later.1) (sym (expand-prose_record kind index later.0 prose))
          ∙ ap (λ (r : Value × Chunks). expand_record r.0 ++ pieces r.1) (sym step)
      | inr other ↦ elim (Bool-cases (str_eq kind "tool-call-delta")) [
        | inl tool ↦
            let later = run pick_args kind index all in
            let step : round kind chunk rest ≡ (tool_record chunk index later.0, later.1) =
              rw (other, tool) refl in
            run-pieces pick_args kind "tool-call-chunks" index
              (λ c e. pieces_of-tool kind c index other tool e) all
            ∙ ap (λ z. z ++ pieces later.1) (sym (expand-tool_record chunk index later.0))
            ∙ ap (λ (r : Value × Chunks). expand_record r.0 ++ pieces r.1) (sym step)
        | inr plain ↦ rw (other, plain) refl
      ]
    ]

pub then_record-eq :
    (r : Value) (o : Option (List Value)) (records : List Value)
    → then_record r o ≡ some records
    → (rs : List Value) × (o ≡ some rs) × (r ∷ rs ≡ records)
then_record-eq r none records e = cc e
then_record-eq r (some rs) records e = (rs, refl, some-injective _ _ e)

pub compact-expand :
    (fuel : ℕ) (chunks : Chunks) (records : List Value)
    → compact fuel chunks ≡ some records
    → expand records ≡ pieces chunks
unfolding compact
compact-expand zero [] records e = ap expand (sym (some-injective _ _ e))
compact-expand (suc fuel) [] records e = ap expand (sym (some-injective _ _ e))
compact-expand zero (c ∷ rest) records e = cc e
compact-expand (suc fuel) ((kind, chunk) ∷ rest) records e =
    let (r, left) = round kind chunk rest in
    let (rs, ended, whole) = then_record-eq r (compact fuel left) records e in
    ap expand (sym whole)
    ∙ ap (λ z. expand_record r ++ z) (compact-expand fuel left rs ended)
    ∙ sym (round-pieces kind chunk rest)
