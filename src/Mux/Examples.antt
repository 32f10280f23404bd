-- ===== src/Mux/Examples.antt =====
-- A socket with one stream, and a codec of tags (rust/crates/vocoder-typert/src/mux.rs).
use Prim.Native.Char.{code}
use dsh_rs.Base.{
  ◌≡◌, refl, String, Option, none, some, [], ◌∷◌, true, Result, ok, err, ◌==◌, str_eq,
  if◌then◌else◌,
}
use dsh_rs.Base.Dict.{lookup}
use dsh_rs.Json.{string, json}
use dsh_rs.Router.Messages.{MachineIn}
use dsh_rs.Mux.{StreamClientMessage, StreamServerMessage, MuxSession}
use dsh_rs.Mux.Silence.{Reader, IsSilent, IsNotOpen, run, cancelled-IsSilent}

abbrev encode : StreamServerMessage → String
encode (StreamServerMessage.item id v) = String.◌∷◌ "i" id
encode _ = "e"

abbrev item_of : String → Option String
item_of String.[] = none
item_of (String.◌∷◌ c s) = if code c == b'i' then some s else none

-- Frames of a tag and a stream can be read.
abbrev reader : Reader encode
reader = record {
  item_of = item_of;
  of_item = λ id v. refl;
  of_error = λ id f. refl;
  of_end = λ id. refl;
}

abbrev decode : String → Result String StreamClientMessage
decode text = if str_eq text "cancel" then ok (StreamClientMessage.cancel "s") else err "bad"

abbrev one_stream : MuxSession
one_stream = record { streams = ("s", record { is_open = true }) ∷ []; effects = 4 }

abbrev late_item : MachineIn
late_item =
    MachineIn.event "stream.item" (json (("streamId", string "s") ∷ ("value", string "x") ∷ []))

late_item-IsNotOpen : IsNotOpen decode encode reader "s" late_item
late_item-IsNotOpen endpoint p e = cc e

cancelled-IsSilent_example : IsSilent decode encode reader "s" (
    run decode encode one_stream
      (MachineIn.event "ws.text" (json (("text", string "cancel") ∷ [])) ∷ late_item ∷ []))
cancelled-IsSilent_example =
    cancelled-IsSilent decode encode reader one_stream (json (("text", string "cancel") ∷ [])) "s"
      (late_item ∷ []) refl (late_item-IsNotOpen, tt)

s-open : lookup "s" one_stream.streams ≡ some (record { is_open = true })
unfolding lookup
s-open = refl
