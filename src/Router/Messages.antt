-- ===== src/Router/Messages.antt =====
-- What machines and the router say to one another (rust/crates/vocoder-cordis/src/lib.rs).
use dsh_rs.Base.{ℕ, String, Option, none, some, List, [], ◌∷◌, true, false}
use dsh_rs.Json.{Value, json, string, bool}
use dsh_rs.Router.Effects.{EffectId, EffectResult, RealizeRequest, Bytes}

abbrev pub MachineId : Type 0
MachineId = String

abbrev pub ServiceKey : Type 0
ServiceKey = String

abbrev pub EventName : Type 0
EventName = String

abbrev pub Payload : Type 0
Payload = Value

pub data RpcReply : Type 0 where
  ok : Payload → RpcReply
  -- code, message, details
  err : String → String → Option Payload → RpcReply

abbrev with_details : Option Payload → List (String × Value) → List (String × Value)
with_details none rest = rest
with_details (some details) rest = ("details", details) ∷ rest

pub to_wire_json : RpcReply → Payload
to_wire_json (RpcReply.ok value) = json (("ok", bool true) ∷ ("value", value) ∷ [])
to_wire_json (RpcReply.err code message details) = json (
    ("ok", bool false)
    ∷ (
      "error",
      json (("code", string code) ∷ ("message", string message) ∷ with_details details []),
    )
    ∷ [])

pub data StreamFrame : Type 0 where
  item : String → Payload → StreamFrame
  end : String → StreamFrame
  -- stream_id, name, code, message, details
  error : String → String → String → String → Payload → StreamFrame

pub data DispatchMode : Type 0 where
  emit waterfall bail : DispatchMode

pub data MachineIn : Type 0 where
  event waterfall_turn bail_turn dispatch_result : EventName → Payload → MachineIn
  services_ready : List ServiceKey → MachineIn
  dispose_requested : MachineIn
  stream_open : String → Payload → MachineIn
  stream_close : String → MachineIn
  effect_result : EffectId → EffectResult → MachineIn
  effect_chunk : EffectId → Bytes → MachineIn

pub data MachineOut : Type 0 where
  dispatch : EventName → Payload → DispatchMode → MachineOut
  subscribe unsubscribe : EventName → MachineOut
  register_service : ServiceKey → MachineOut
  waterfall_next waterfall_return : Payload → MachineOut
  compensate : String → MachineOut
  realize : EffectId → RealizeRequest → MachineOut
  reply : RpcReply → MachineOut
  stream : StreamFrame → MachineOut

-- `M` is the type of the machines.
pub data RouteIn (M : Type 0) : Type 0 where
  mount : MachineId → M → RouteIn M
  unmount : MachineId → RouteIn M
  deliver : MachineId → MachineIn → RouteIn M
  dispatch : EventName → Payload → DispatchMode → RouteIn M

pub data RouteOut : Type 0 where
  realize : MachineId → EffectId → RealizeRequest → RouteOut
  reply : MachineId → RpcReply → RouteOut
  stream : MachineId → StreamFrame → RouteOut
  service_registered : MachineId → ServiceKey → RouteOut
  compensate : MachineId → String → RouteOut
  unknown_target : MachineId → RouteOut
  cap_reached : ℕ → RouteOut
