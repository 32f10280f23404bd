-- ===== src/AssistantStream/Frames.antt =====
-- What a client may rely on in the frames that are accepted
-- (rust/crates/vocoderd/src/machines/assistant_stream.rs).
use dsh_rs.Base.{
  ℕ, ◌≡◌, inl, inr, refl, sym, ap, ◌∙◌, subst, String, Option, none, some, List, [], ◌∷◌, Bool,
  true, false, str_eq, u64_succ, arith, Bool-cases,
}
use dsh_rs.Json.{Value, get_as, as_u64}
use dsh_rs.AssistantStream.{Attempt, AssistantStream, text_at, is_next, accept_chunk, accept}

-- The frames, first to last.
abbrev pub accept_all : List Value → AssistantStream → AssistantStream
accept_all [] s = s
accept_all (f ∷ fs) s = accept_all fs (accept s f).1

-- A frame that is refused changes nothing.
pub accept_refused :
    (s : AssistantStream) (frame : Value) → (accept s frame).0 ≡ false → (accept s frame).1 ≡ s
unfolding accept
accept_refused s frame e = ground arith

is_next-moved : (o : Option ℕ) (n : ℕ) → is_next o n ≡ true → is_next o (u64_succ n) ≡ false
unfolding u64_succ
is_next-moved none n e = cc
is_next-moved (some m) n e = ground arith

accept-chunk :
    (s : AssistantStream) (frame : Value)
    → text_at frame "type" ≡ "chunk"
    → accept s frame ≡ accept_chunk s s.active (text_at frame "attemptId") frame
unfolding accept
accept-chunk s frame k = rw k refl

accept_chunk-repeated :
    (s : AssistantStream) (o : Option Attempt) (id : String) (frame : Value)
    → (accept_chunk s o id frame).0 ≡ true
    → accept_chunk (accept_chunk s o id frame).1 (accept_chunk s o id frame).1.active id frame
      ≡ (false, (accept_chunk s o id frame).1)
accept_chunk-repeated s none id frame e = cc e
accept_chunk-repeated s (some active) id frame e = elim (Bool-cases (str_eq active.attempt_id id)) [
  | inl same ↦ elim (Bool-cases (is_next (get_as as_u64 frame "index") active.next_index)) [
    | inl due ↦
        rw (same, due)
          (rw (same, is_next-moved (get_as as_u64 frame "index") active.next_index due) refl)
    | inr other ↦ ground arith
  ]
  | inr other ↦ ground arith
]

-- A chunk that was accepted is refused when it comes again, and changes nothing then.
pub accept_repeated :
    (s : AssistantStream) (frame : Value)
    → text_at frame "type" ≡ "chunk"
    → (accept s frame).0 ≡ true
    → accept (accept s frame).1 frame ≡ (false, (accept s frame).1)
accept_repeated s frame k e =
    let id = text_at frame "attemptId" in
    let once = accept-chunk s frame k in
    accept-chunk (accept s frame).1 frame k
    ∙ subst (λ (r : Bool × AssistantStream). accept_chunk r.1 r.1.active id frame ≡ (false, r.1))
        (sym once) (accept_chunk-repeated s s.active id frame (sym (ap (λ r. r.0) once) ∙ e))
