-- ===== src/Mux/Silence.antt =====
-- A cancelled stream stays silent (rust/crates/vocoder-typert/src/mux.rs).
use mathlib.Core.Option.{some-injective}
use dsh_rs.Base.{
  ℕ, ◌≡◌, ◌≢◌, inl, inr, refl, sym, ap, ◌∙◌, subst, String, Option, none, some, List, [], ◌∷◌, ◌++◌,
  Bool, true, false, Result, ok, err, str_eq, eq_iff, u64_succ, if◌then◌else◌, All, All-append,
  arith, Bool-cases,
}
use dsh_rs.Base.Dict.{lookup, erase, keys, lookup-insert, lookup-erase}
use dsh_rs.Json.{Value, string, json}
use dsh_rs.Router.Effects.{RealizeRequest}
use dsh_rs.Router.Messages.{MachineIn, MachineOut}
use dsh_rs.Mux.{
  StreamClientMessage, StreamServerMessage, StreamFailure, StreamState, MuxSession, text_or,
  failure_of, item_or_end, is_known, send, on_client, on_item, end_all, handle,
}

module _ (decode : String → Result String StreamClientMessage)
    (encode : StreamServerMessage → String) where
  -- The outputs of a run of inputs.
  abbrev pub run : MuxSession → List MachineIn → List MachineOut
  run m [] = []
  run m (ev ∷ evs) = (handle decode encode m ev).0 ++ run (handle decode encode m ev).1 evs

-- What a client reads of the frames: the stream of an item, and of no other frame.
pub record Reader (encode : StreamServerMessage → String) : Type 0 where
  pub item_of : String → Option String
  pub of_item :
      (id : String) (v : Option Value) → item_of (encode (StreamServerMessage.item id v)) ≡ some id
  pub of_error :
      (id : String) (f : StreamFailure) → item_of (encode (StreamServerMessage.error id f)) ≡ none
  pub of_end : (id : String) → item_of (encode (StreamServerMessage.end id)) ≡ none

if-none : {A : Type 0} (b : Bool) (o : Option A) → o ≡ none → (if b then none else o) ≡ none
if-none true o e = refl
if-none false o e = e

module _ (decode : String → Result String StreamClientMessage)
    (encode : StreamServerMessage → String) (r : Reader encode) where
  open r use {item_of, of_item, of_error, of_end}

  -- The stream of which an output is an item.
  abbrev pub said : MachineOut → Option String
  said (MachineOut.realize _ (RealizeRequest.send_text t)) = item_of t
  said _ = none

  -- No output is an item of the stream.
  abbrev pub IsSilent : String → List MachineOut → Type 0
  IsSilent id = All λ o. said o ≢ some id

  nothing : (id : String) → ◌≢◌ {A = Option String} none (some id)
  nothing id e = cc e

  -- The client does not ask for the stream.
  abbrev pub IsNotOpen : String → MachineIn → Type 0
  IsNotOpen id (MachineIn.event name payload) =
      (endpoint : String) (p : Value)
      → str_eq name "ws.text" ≡ true
      → decode (text_or payload "text" "") ≢ ok (StreamClientMessage.open_stream id endpoint p)
  IsNotOpen id _ = Unit {0}

  -- A stream that is not there is not heard of.
  abbrev Quiet : String → List MachineOut × MuxSession → Type 0
  Quiet id (outs, m) = IsSilent id outs × (lookup id m.streams ≡ none)

  end_frame : (other id : String) → item_of (encode (StreamServerMessage.end other)) ≢ some id
  end_frame other id e = cc (of_end other, e)

  item_frame :
      (other id : String) (v : Option Value)
      → other ≢ id
      → item_of (encode (item_or_end other v)) ≢ some id
  item_frame other id none n e = cc (of_end other, e)
  item_frame other id (some v) n e = n (some-injective _ _ (sym (of_item other (some v)) ∙ e))

  on_client-Quiet :
      (id : String) (m : MuxSession) (msg : Result String StreamClientMessage)
      → lookup id m.streams ≡ none
      → ((endpoint : String) (p : Value) → msg ≢ ok (StreamClientMessage.open_stream id endpoint p))
      → Quiet id (on_client decode encode m msg)
  on_client-Quiet id m (err e) gone n = ((nothing id, tt), gone)
  on_client-Quiet id m (ok (StreamClientMessage.open_stream other endpoint p)) gone n = (
    (nothing id, tt),
    elim (Bool-cases (str_eq other id)) [
      | inl same ↦ absurd (
          n endpoint p (
            ap (λ z. ok (StreamClientMessage.open_stream z endpoint p)) ((eq_iff other id).0 same)))
      | inr apart ↦ (lookup-insert m.streams other _ id).1 apart ∙ gone
    ],
  )
  on_client-Quiet id m (ok (StreamClientMessage.cancel other)) gone n =
      ((nothing id, (end_frame other id, tt)), lookup-erase m.streams other id ∙ if-none _ _ gone)

  on_item-Quiet :
      (id : String) (m : MuxSession) (payload : Value)
      → lookup id m.streams ≡ none
      → Quiet id (on_item decode encode m payload)
  on_item-Quiet id m payload gone =
      let other = text_or payload "streamId" "" in
      elim (Bool-cases (is_known (lookup other m.streams))) [
        | inl known ↦ rw known (
          (
            item_frame other id _
                (λ same. cc (subst (λ z. is_known (lookup z m.streams) ≡ true) same known, gone)),
            tt,
          ),
          gone,
        )
        | inr unknown ↦ rw unknown (tt, gone)
      ]

  end_all-IsSilent :
      (id : String) (ids : List String) (effects : ℕ)
      → IsSilent id (end_all decode encode ids effects).0
  unfolding end_all
  end_all-IsSilent id [] effects = tt
  end_all-IsSilent id (other ∷ ids) effects =
      (end_frame other id, end_all-IsSilent id ids (u64_succ effects))

  if-Quiet :
      (id : String) (b : Bool) (x y : List MachineOut × MuxSession)
      → (b ≡ true → Quiet id x)
      → Quiet id y
      → Quiet id (if b then x else y)
  if-Quiet id true x y hx hy = hx refl
  if-Quiet id false x y hx hy = hy

  handle-Quiet :
      (id : String) (m : MuxSession) (ev : MachineIn)
      → lookup id m.streams ≡ none
      → IsNotOpen id ev
      → Quiet id (handle decode encode m ev)
  unfolding handle
  handle-Quiet id m (MachineIn.event name payload) gone n =
      if-Quiet id (str_eq name "ws.text") _ _
        (λ e. on_client-Quiet id m _ gone (λ endpoint p. n endpoint p e))
        (if-Quiet id (str_eq name "stream.item") _ _ (λ _. on_item-Quiet id m payload gone)
          (if-Quiet id (str_eq name "stream.error") _ _
            (λ _. (
              (λ e. cc (of_error (text_or payload "streamId" "") (failure_of payload), e), tt),
              gone,
            ))
            (tt, gone)))
  handle-Quiet id m MachineIn.dispose_requested gone n =
      (end_all-IsSilent id (keys m.streams) m.effects, unfold lookup in refl)
  handle-Quiet id m _ gone n = (tt, gone)

  run-IsSilent :
      (id : String) (m : MuxSession) (evs : List MachineIn)
      → lookup id m.streams ≡ none
      → All (IsNotOpen id) evs
      → IsSilent id (run decode encode m evs)
  run-IsSilent id m [] gone n = tt
  run-IsSilent id m (ev ∷ evs) gone (n, ns) =
      let (silent, still) = handle-Quiet id m ev gone n in
      All-append (λ o. said o ≢ some id) (handle decode encode m ev).0
        (run decode encode (handle decode encode m ev).1 evs) silent
        (run-IsSilent id (handle decode encode m ev).1 evs still ns)

  -- After the client cancelled a stream no item of it is sent, whatever arrives, until the client
  -- asks for it again.
  pub cancelled-IsSilent :
      (m : MuxSession) (payload : Value) (id : String) (evs : List MachineIn)
      → decode (text_or payload "text" "") ≡ ok (StreamClientMessage.cancel id)
      → All (IsNotOpen id) evs
      → IsSilent id (run decode encode m (MachineIn.event "ws.text" payload ∷ evs))
  unfolding handle
  cancelled-IsSilent m payload id evs e n =
      let gone : lookup id (erase id m.streams) ≡ none =
        ground (arith, lookup-erase m.streams id id, eq_iff id id) in
      rw e ((nothing id, (end_frame id id, run-IsSilent id _ evs gone n)))

module _ (decode : String → Result String StreamClientMessage)
    (encode : StreamServerMessage → String) where
  -- An item with no value ends a stream for the client, but the machine keeps it: a later item of the
  -- stream is sent after its end.
  pub ended_goes_on :
      (m : MuxSession) (id text : String) (s : StreamState)
      → lookup id m.streams ≡ some s
      → run decode encode m (
          MachineIn.event "stream.item" (json (("streamId", string id) ∷ []))
          ∷ MachineIn.event "stream.item"
              (json (("streamId", string id) ∷ ("value", string text) ∷ []))
          ∷ [])
        ≡ send decode encode m.effects (StreamServerMessage.end id)
          ∷ send decode encode
              (u64_succ m.effects)
              (StreamServerMessage.item id (some (string text)))
          ∷ []
  unfolding handle
  ended_goes_on m id text s e = rw e (rw e refl)
