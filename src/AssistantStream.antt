-- ===== src/AssistantStream.antt =====
-- The state of a live answer, for a client that reconnects
-- (rust/crates/vocoderd/src/machines/assistant_stream.rs).
pub mod Compact
pub mod Lossless
pub mod Ends
pub mod Calls
pub mod Heads
pub mod Frames
mod Examples
use dsh_rs.Base.{
  ℕ, String, Option, none, some, List, [], ◌∷◌, ◌++◌, Bool, true, false, ◌&&◌, str_eq, ◌==◌,
  u64_succ, if◌then◌else◌, ℤ, negsuc, pos,
}
use dsh_rs.Json.{
  Value, number, string, unsigned, negative, u64, array, to_items, json, get, get_as, as_str,
  as_u64, as_i64, unwrap_or,
}

pub record Attempt : Type 0 where
  pub attempt_id : String
  pub started_after_seq : ℤ
  pub turn : ℕ
  pub step : ℕ
  pub next_index : ℕ
  pub chunks : List (String × Value)

pub record AssistantStream : Type 0 where
  pub revision : ℕ
  pub active : Option Attempt

abbrev pub text_at : Value → String → String
text_at v key = unwrap_or (get_as as_str v key) ""

abbrev pub chunk_type : Value → String
chunk_type chunk = text_at chunk "type"

abbrev next_revision : AssistantStream → Value → ℕ
next_revision s frame = unwrap_or (get_as as_u64 frame "revision") (u64_succ s.revision)

abbrev started : String → Value → Attempt
started attempt_id frame = record {
  attempt_id = attempt_id;
  started_after_seq = unwrap_or (get_as as_i64 frame "startedAfterSeq") (negsuc 0);
  turn = unwrap_or (get_as as_u64 frame "turn") 0;
  step = unwrap_or (get_as as_u64 frame "step") 0;
  next_index = 0;
  chunks = [];
}

abbrev pub added : Option Value → List (String × Value) → List (String × Value)
added none chunks = chunks
added (some chunk) chunks = chunks ++ (chunk_type chunk, chunk) ∷ []

-- Whether the index is the one that is due.
abbrev pub is_next : Option ℕ → ℕ → Bool
is_next none due = false
is_next (some index) due = index == due

-- A chunk is dropped unless it is the next one of the attempt that is open.
abbrev pub accept_chunk : AssistantStream → Option Attempt → String → Value → Bool × AssistantStream
accept_chunk s none attempt_id frame = (false, s)
accept_chunk s (some active) attempt_id frame =
    if str_eq active.attempt_id attempt_id
    then (if is_next (get_as as_u64 frame "index") active.next_index
        then (
          true,
          record {
            revision = next_revision s frame;
            active = some (record active {
              next_index = u64_succ active.next_index;
              chunks = added (get frame "chunk") active.chunks;
            });
          },
        )
        else (false, s))
    else (false, s)

-- `AssistantStream::accept`
unfoldable pub accept : AssistantStream → Value → Bool × AssistantStream
accept s frame =
    let kind = text_at frame "type" in
    let attempt_id = text_at frame "attemptId" in
    if str_eq kind "start"
    then (
      true,
      record { revision = next_revision s frame; active = some (started attempt_id frame) },
    )
    else if str_eq kind "chunk"
    then accept_chunk s s.active attempt_id frame
    else if str_eq kind "end"
    then (true, record { revision = next_revision s frame; active = none })
    else (false, s)

abbrev pub default : AssistantStream
default = record { revision = 0; active = none }

abbrev pub i64 : ℤ → Value
i64 (pos n) = number (unsigned n)
i64 (negsuc n) = number (negative n)
