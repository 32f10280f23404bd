-- ===== src/Mux.antt =====
-- The streams of one socket, and the table of namespaces (rust/crates/vocoder-typert/src).
pub mod Silence
mod Examples
use dsh_rs.Base.{
  ℕ, String, concat, Option, none, some, List, [], ◌∷◌, Bool, true, false, Result, ok, err, str_eq,
  u64_succ, if◌then◌else◌, and_then,
}
use dsh_rs.Base.Dict.{Dict, lookup, insert, erase, keys}
use dsh_rs.Json.{Value, null, get, get_as, as_str, unwrap_or}
use dsh_rs.Router.Effects.{EffectId, RealizeRequest}
use dsh_rs.Router.Messages.{MachineId, MachineIn, MachineOut}

pub record StreamFailure : Type 0 where
  pub name : String
  pub code : Option String
  pub message : String
  pub details : Option Value

pub data StreamClientMessage : Type 0 where
  -- stream_id, endpoint, payload
  open_stream : String → String → Value → StreamClientMessage
  cancel : String → StreamClientMessage

pub data StreamServerMessage : Type 0 where
  item : String → Option Value → StreamServerMessage
  error : String → StreamFailure → StreamServerMessage
  end : String → StreamServerMessage

pub record StreamState : Type 0 where
  pub is_open : Bool

pub record MuxSession : Type 0 where
  pub streams : Dict StreamState
  pub effects : ℕ

abbrev pub default : MuxSession
default = record { streams = []; effects = 0 }

abbrev next_effect : MuxSession → MuxSession
next_effect m = record m { effects = u64_succ m.effects }

abbrev pub text_or : Value → String → String → String
text_or payload key other = unwrap_or (get_as as_str payload key) other

abbrev not_null : Option Value → Option Value
not_null (some null) = none
not_null o = o

abbrev pub item_or_end : String → Option Value → StreamServerMessage
item_or_end id none = StreamServerMessage.end id
item_or_end id (some v) = StreamServerMessage.item id (some v)

abbrev pub failure_of : Value → StreamFailure
failure_of payload = record {
  name = text_or payload "name" "RemoteError";
  code = get_as as_str payload "code";
  message = text_or payload "message" "stream failed";
  details = get payload "details";
}

abbrev pub is_known : Option StreamState → Bool
is_known none = false
is_known (some _) = true

-- The codec of frames is serde_json's: `decode` gives the error's text where it fails.
module _ (decode : String → Result String StreamClientMessage)
    (encode : StreamServerMessage → String) where
  abbrev pub send : EffectId → StreamServerMessage → MachineOut
  send id msg = MachineOut.realize id (RealizeRequest.send_text (encode msg))

  -- A frame from the client.
  abbrev pub on_client :
      MuxSession → Result String StreamClientMessage → List MachineOut × MuxSession
  on_client m (err e) = (
    MachineOut.realize m.effects (RealizeRequest.log "warn" (concat "mux: bad frame: " e)) ∷ [],
    next_effect m,
  )
  on_client m (ok (StreamClientMessage.open_stream id endpoint payload)) = (
    MachineOut.realize m.effects (RealizeRequest.open_stream id endpoint payload) ∷ [],
    record (next_effect m) { streams = insert id (record { is_open = true }) m.streams },
  )
  on_client m (ok (StreamClientMessage.cancel id)) = (
    MachineOut.realize m.effects (RealizeRequest.cancel_stream id)
        ∷ send (u64_succ m.effects) (StreamServerMessage.end id)
        ∷ [],
    record (next_effect (next_effect m)) { streams = erase id m.streams },
  )

  abbrev pub on_item : MuxSession → Value → List MachineOut × MuxSession
  on_item m payload =
      let id = text_or payload "streamId" "" in
      if is_known (lookup id m.streams)
      then (send m.effects (item_or_end id (not_null (get payload "value"))) ∷ [], next_effect m)
      else ([], m)

  abbrev pub on_error : MuxSession → Value → List MachineOut × MuxSession
  on_error m payload = (
    send m.effects (StreamServerMessage.error (text_or payload "streamId" "") (failure_of payload))
        ∷ [],
    next_effect m,
  )

  -- The ends of the streams that are left, each with an effect of its own.
  unfoldable pub end_all : List String → ℕ → List MachineOut × ℕ
  end_all [] effects = ([], effects)
  end_all (id ∷ ids) effects =
      let (outs, effects') = end_all ids (u64_succ effects) in
      (send effects (StreamServerMessage.end id) ∷ outs, effects')

  -- `MuxSessionMachine::handle`
  unfoldable pub handle : MuxSession → MachineIn → List MachineOut × MuxSession
  handle m (MachineIn.event name payload) =
      if str_eq name "ws.text"
      then on_client m (decode (text_or payload "text" ""))
      else if str_eq name "stream.item"
      then on_item m payload
      else if str_eq name "stream.error"
      then on_error m payload
      else ([], m)
  handle m MachineIn.dispose_requested =
      let (outs, effects) = end_all (keys m.streams) m.effects in
      (outs, record { streams = []; effects = effects })
  handle m _ = ([], m)

pub record NamespaceRegistry : Type 0 where
  pub owners : Dict MachineId

abbrev pub owner_of : NamespaceRegistry → String → Option MachineId
owner_of r namespace = lookup namespace r.owners

abbrev pub namespaces : NamespaceRegistry → List String
namespaces r = keys r.owners

abbrev register : NamespaceRegistry → Option String → Option String → NamespaceRegistry
register r (some ns) (some owner) = record r { owners = insert ns owner r.owners }
register r _ _ = r

-- `NamespaceRegistry::handle`; it never answers.
unfoldable pub registry_handle : NamespaceRegistry → MachineIn → NamespaceRegistry
registry_handle r (MachineIn.event name payload) =
    if str_eq name "vocoder/registry/register"
    then register r (get_as as_str payload "namespace") (get_as as_str payload "owner")
    else r
registry_handle r _ = r
