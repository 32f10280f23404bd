-- ===== src/AssistantStream/Examples.antt =====
-- An answer of two deltas and a block's end (rust/crates/vocoderd/src/machines/assistant_stream.rs).
use dsh_rs.Base.{ℕ, ◌≡◌, refl, String, some, none, List, [], ◌∷◌, true, false, pos, All, length}
use dsh_rs.Json.{Value, string, u64, array, cons, nil, json}
use dsh_rs.AssistantStream.{AssistantStream, accept}
use dsh_rs.AssistantStream.Compact.{Chunks, compact, run}
use dsh_rs.AssistantStream.Lossless.{pieces, expand}
use dsh_rs.AssistantStream.Calls.{calls, opened}
use dsh_rs.AssistantStream.Heads.{compact_lem}
use dsh_rs.AssistantStream.Ends.{HasIndex, compact_ends}
use dsh_rs.AssistantStream.Frames.{accept_repeated}

abbrev text_delta : String → Value
text_delta t = json (("type", string "text-delta") ∷ ("index", u64 0) ∷ ("text", string t) ∷ [])

abbrev block_end : Value
block_end = json (("type", string "block-end") ∷ ("index", u64 0) ∷ [])

abbrev answer_chunks : Chunks
answer_chunks =
    ("text-delta", text_delta "Hel")
    ∷ ("text-delta", text_delta "lo")
    ∷ ("block-end", block_end)
    ∷ []

abbrev records : List Value
records =
    json (
      ("type", string "text-chunks")
      ∷ ("index", u64 0)
      ∷ ("texts", array (cons (string "Hel") (cons (string "lo") nil)))
      ∷ [])
    ∷ json (("type", string "chunk") ∷ ("chunk", block_end) ∷ [])
    ∷ []

compacted : compact 2 answer_chunks ≡ some records
unfolding compact run
compacted = refl

abbrev tool_delta : String → Value
tool_delta args = json (
    ("type", string "tool-call-delta")
    ∷ ("index", u64 1)
    ∷ ("id", string "c-1")
    ∷ ("name", string "read")
    ∷ ("argumentsDelta", string args)
    ∷ [])

abbrev called_chunks : Chunks
called_chunks =
    ("text-delta", text_delta "Hel")
    ∷ ("tool-call-delta", tool_delta "{")
    ∷ ("tool-call-delta", tool_delta "}")
    ∷ []

abbrev called_records : List Value
called_records =
    json (
      ("type", string "text-chunks")
      ∷ ("index", u64 0)
      ∷ ("texts", array (cons (string "Hel") nil))
      ∷ [])
    ∷ json (
        ("type", string "tool-call-chunks")
        ∷ ("index", u64 1)
        ∷ ("id", string "c-1")
        ∷ ("args", array (cons (string "{") (cons (string "}") nil)))
        ∷ ("name", string "read")
        ∷ [])
    ∷ []

called_compacted : compact 2 called_chunks ≡ some called_records
unfolding compact run
called_compacted = refl

compact_lem_example :
    (expand called_records ≡ pieces called_chunks)
    × (calls called_records ≡ opened none called_chunks)
compact_lem_example = compact_lem 2 called_chunks called_records called_compacted

one_call : opened none called_chunks ≡ (1, ("c-1", some "read")) ∷ []
unfolding opened
one_call = refl

compact_ends_example :
    (All HasIndex answer_chunks
      → (rs : List Value) × (compact (length answer_chunks) answer_chunks ≡ some rs))
    × (¬ All HasIndex answer_chunks → (fuel : ℕ) → compact fuel answer_chunks ≡ none)
compact_ends_example = compact_ends answer_chunks

-- A delta without an index keeps the loop where it is.
stuck : ¬ All HasIndex (("text-delta", json (("text", string "x") ∷ [])) ∷ [])
stuck h = let (n, e) = h.0 refl in cc e

abbrev streaming : AssistantStream
streaming = record {
  revision = 3;
  active = some (record {
    attempt_id = "a";
    started_after_seq = pos 3;
    turn = 1;
    step = 1;
    next_index = 0;
    chunks = [];
  });
}

abbrev first : Value
first = json (
    ("type", string "chunk")
    ∷ ("attemptId", string "a")
    ∷ ("index", u64 0)
    ∷ ("chunk", text_delta "Hel")
    ∷ [])

first-accepted : (accept streaming first).0 ≡ true
unfolding accept
first-accepted = refl

accept_repeated_example :
    accept (accept streaming first).1 first ≡ (false, (accept streaming first).1)
accept_repeated_example = accept_repeated streaming first refl first-accepted
