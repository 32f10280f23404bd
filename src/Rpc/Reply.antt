-- ===== src/Rpc/Reply.antt =====
-- What namespace machines are called by and answer with (rust/crates/vocoderd/src/rpc.rs).
use dsh_rs.Base.{ℕ, String, concat, Option, none, some, List, [], ◌∷◌}
use dsh_rs.Json.{Value, json, get_as, as_str, as_u64, unwrap_or}
use dsh_rs.Router.Effects.{EffectId, RealizeRequest}
use dsh_rs.Router.Messages.{MachineOut, RpcReply, StreamFrame}

abbrev pub call_event : String → String
call_event namespace = concat "vocoder/" (concat namespace "/call")

abbrev pub stream_open_event : String → String
stream_open_event namespace = concat "vocoder/" (concat namespace "/stream/open")

abbrev pub stream_close_event : String → String
stream_close_event namespace = concat "vocoder/" (concat namespace "/stream/close")

abbrev pub stream_item : String → Value → MachineOut
stream_item stream_id value = MachineOut.stream (StreamFrame.item stream_id value)

abbrev pub stream_end : String → MachineOut
stream_end stream_id = MachineOut.stream (StreamFrame.end stream_id)

abbrev pub stream_error : String → String → String → Option Value → MachineOut
stream_error stream_id code message details =
    MachineOut.stream
      (StreamFrame.error stream_id "RemoteError" code message (unwrap_or details (json [])))

abbrev pub effect : EffectId → RealizeRequest → MachineOut
effect id request = MachineOut.realize id request

abbrev pub ok : Value → List MachineOut
ok value = MachineOut.reply (RpcReply.ok value) ∷ []

abbrev pub err : String → String → List MachineOut
err code message = MachineOut.reply (RpcReply.err code message none) ∷ []

abbrev pub err_details : String → String → Value → List MachineOut
err_details code message details = MachineOut.reply (RpcReply.err code message (some details)) ∷ []

abbrev pub arg_str : Value → String → Option String
arg_str args key = get_as as_str args key

abbrev pub arg_u64 : Value → String → Option ℕ
arg_u64 args key = get_as as_u64 args key
