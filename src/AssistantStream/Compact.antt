-- ===== src/AssistantStream/Compact.antt =====
-- The compact record form of a live answer
-- (rust/crates/vocoderd/src/machines/assistant_stream.rs).
use dsh_rs.Base.{
  ℕ, zero, suc, String, Option, none, some, List, [], ◌∷◌, Bool, ◌&&◌, ◌||◌, str_eq, if◌then◌else◌,
}
use dsh_rs.Json.{Value, string, u64, array, to_items, json, get_as, as_str, as_u64, unwrap_or}
use dsh_rs.AssistantStream.{Attempt, AssistantStream, text_at, is_next, i64}

abbrev pub Chunks : Type 0
Chunks = List (String × Value)

abbrev pub keep : Option Value → List Value → List Value
keep none rest = rest
keep (some v) rest = v ∷ rest

-- The inner loops: what is picked from the chunks of one kind and index, and the chunks after them.
unfoldable pub run : (Value → Option Value) → String → ℕ → Chunks → List Value × Chunks
run pick kind index [] = ([], [])
run pick kind index ((k, c) ∷ rest) =
    let (picked, later) = run pick kind index rest in
    if str_eq k kind && is_next (get_as as_u64 c "index") index
    then (keep (pick c) picked, later)
    else ([], (k, c) ∷ rest)

abbrev pub text_of : Option String → Option Value
text_of none = none
text_of (some s) = some (string s)

abbrev pub pick_text : Value → Option Value
pick_text c = text_of (get_as as_str c "text")

abbrev pub pick_args : Value → Option Value
pick_args c = some (string (text_at c "argumentsDelta"))

abbrev pub is_prose : String → Bool
is_prose kind = str_eq kind "text-delta" || str_eq kind "reasoning-delta"

abbrev pub index_of : Value → ℕ
index_of chunk = unwrap_or (get_as as_u64 chunk "index") 0

abbrev pub prose_record : String → ℕ → List Value → Value
prose_record kind index texts = json (
    ("type", string (if str_eq kind "text-delta" then "text-chunks" else "reasoning-chunks"))
    ∷ ("index", u64 index)
    ∷ ("texts", array (to_items texts))
    ∷ [])

abbrev pub name_field : Option String → List (String × Value)
name_field none = []
name_field (some name) = ("name", string name) ∷ []

abbrev pub tool_record : Value → ℕ → List Value → Value
tool_record chunk index args = json (
    ("type", string "tool-call-chunks")
    ∷ ("index", u64 index)
    ∷ ("id", string (text_at chunk "id"))
    ∷ ("args", array (to_items args))
    ∷ name_field (get_as as_str chunk "name"))

abbrev pub raw_record : Value → Value
raw_record chunk = json (("type", string "chunk") ∷ ("chunk", chunk) ∷ [])

abbrev pub then_record : Value → Option (List Value) → Option (List Value)
then_record r none = none
then_record r (some rs) = some (r ∷ rs)

-- One round of the outer loop: a record, and the chunks that are left. A delta with no index of its
-- own starts a run of index 0 that does not contain it.
abbrev pub round : String → Value → Chunks → Value × Chunks
round kind chunk rest =
    let index = index_of chunk in
    let prose = run pick_text kind index ((kind, chunk) ∷ rest) in
    let args = run pick_args kind index ((kind, chunk) ∷ rest) in
    if is_prose kind
    then (prose_record kind index prose.0, prose.1)
    else if str_eq kind "tool-call-delta"
    then (tool_record chunk index args.0, args.1)
    else (raw_record chunk, rest)

-- `compact`, given how many rounds of its loop may be made; `none` if they are not enough.
unfoldable pub compact : ℕ → Chunks → Option (List Value)
compact fuel [] = some []
compact zero (c ∷ rest) = none
compact (suc fuel) ((kind, chunk) ∷ rest) =
    let (r, left) = round kind chunk rest in then_record r (compact fuel left)

abbrev attempt_view : Attempt → List Value → Value
attempt_view a stream = json (
    ("attemptId", string a.attempt_id)
    ∷ ("startedAfterSeq", i64 a.started_after_seq)
    ∷ ("turn", u64 a.turn)
    ∷ ("step", u64 a.step)
    ∷ ("nextIndex", u64 a.next_index)
    ∷ ("stream", array (to_items stream))
    ∷ [])

abbrev pub baseline_with : ℕ → Option Attempt → ℕ → Option Value
baseline_with fuel none revision = some (json (("revision", u64 revision) ∷ []))
baseline_with fuel (some active) revision = elim (compact fuel active.chunks) [
  | none ↦ none
  | some stream ↦
      some (json (("revision", u64 revision) ∷ ("activeAttempt", attempt_view active stream) ∷ []))
]

-- `AssistantStream::baseline`, given the rounds that `compact` may make.
unfoldable pub baseline : ℕ → AssistantStream → Option Value
unfolding compact
baseline fuel s = baseline_with fuel s.active s.revision
