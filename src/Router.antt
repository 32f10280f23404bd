-- ===== src/Router.antt =====
-- The router: machines, subscriptions and deliveries (rust/crates/vocoder-cordis/src/lib.rs).
-- The mounted machines are a parameter: the type `M` of their states, and `handle`, which answers
-- one input with outputs and the state that it leaves behind.
mod Examples
pub mod Effects
pub mod Messages
pub mod Delivery
pub mod Nesting
pub mod Depth
pub mod Flat
use dsh_rs.Base.{
  ℕ, zero, suc, ◌+◌, String, Option, none, some, List, [], ◌∷◌, ◌++◌, map, Bool, true, false, not,
  ◌||◌, str_eq, and_then, if◌then◌else◌,
}
use dsh_rs.Base.Dict.{Dict, lookup, insert, erase, map_values, keys}
use dsh_rs.Json.{Value, null, unwrap_or}
use Messages.{
  MachineId, EventName, Payload, DispatchMode, emit, waterfall, bail, MachineIn, MachineOut,
  RouteIn, RouteOut,
}

abbrev pub max_deliveries_per_step : ℕ
max_deliveries_per_step = 1024

pub data ChainOutcome : Type 0 where
  continue done : Payload → ChainOutcome

-- The verdict and the side outputs that were seen before, and one more output.
abbrev pub fold_out :
    Option ChainOutcome × List MachineOut → MachineOut → Option ChainOutcome × List MachineOut
fold_out (verdict, rest) (MachineOut.waterfall_next value) = (some (continue value), rest)
fold_out (verdict, rest) (MachineOut.waterfall_return value) = (some (done value), rest)
fold_out (verdict, rest) other = (verdict, rest ++ other ∷ [])

abbrev pub fold_outs :
    Option ChainOutcome × List MachineOut → List MachineOut → Option ChainOutcome × List MachineOut
fold_outs seen [] = seen
fold_outs seen (out ∷ outs) = fold_outs (fold_out seen out) outs

-- The last verdict of a batch counts, and no verdict delegates with `null`.
unfoldable pub fold_chain : List MachineOut → ChainOutcome × List MachineOut
fold_chain outs =
    let (verdict, rest) = fold_outs (none, []) outs in (unwrap_or verdict (continue null), rest)

abbrev pub contains : List MachineId → MachineId → Bool
contains [] id = false
contains (s ∷ subs) id = str_eq s id || contains subs id

-- `subs.retain(|sub| sub != id)`
abbrev pub retain_ne : MachineId → List MachineId → List MachineId
retain_ne id [] = []
retain_ne id (s ∷ subs) = let rest = retain_ne id subs in if str_eq s id then rest else s ∷ rest

abbrev pub subscribe_id : MachineId → List MachineId → List MachineId
subscribe_id id subs = if contains subs id then subs else subs ++ id ∷ []

abbrev pub turn : DispatchMode → EventName → Payload → MachineIn
turn waterfall name value = MachineIn.waterfall_turn name value
turn _ name value = MachineIn.bail_turn name value

pub record Router (M : Type 0) : Type 0 where
  pub machines : Dict M
  pub subscriptions : Dict (List MachineId)

-- The router with the queue and the results of one step.
pub record Step (M : Type 0) : Type 0 where
  pub router : Router M
  pub open router use *
  pub queue : List (MachineId × MachineIn)
  pub results : List RouteOut

abbrev pub Absorb : Type 0 → Type 0
Absorb M = MachineId → List MachineOut → Step M → Option (Step M)

abbrev pub Dispatch : Type 0 → Type 0
Dispatch M = MachineId → EventName → Payload → DispatchMode → Step M → Option (Step M)

module _ {M : Type 0} where
  abbrev pub new : Router M
  new = record { machines = []; subscriptions = [] }

  pub machine_ids : Router M → List MachineId
  machine_ids r = keys r.machines

  unfoldable pub subscribers : Router M → EventName → List MachineId
  subscribers r name = unwrap_or (lookup name r.subscriptions) []

  abbrev pub push_result : RouteOut → Step M → Step M
  push_result out w = record w { results = w.results ++ out ∷ [] }

  abbrev pub set_machine : MachineId → M → Step M → Step M
  set_machine id machine w = record w {
    router = record w.router { machines = insert id machine w.machines };
  }

  abbrev pub set_subscribers : EventName → List MachineId → Step M → Step M
  set_subscribers name subs w = record w {
    router = record w.router { subscriptions = insert name subs w.subscriptions };
  }

  -- A machine that is unmounted listens to nothing.
  abbrev pub drop_subscriber : MachineId → Step M → Option (Step M)
  drop_subscriber id w = some (record w {
    router = record w.router { subscriptions = map_values (retain_ne id) w.subscriptions };
  })

  abbrev pub answer : Step M → Option (Router M × List RouteOut)
  answer w = some (w.router, w.results)

  -- One output of a machine, with the dispatch that it may call.
  unfoldable pub absorb_out : Dispatch M → MachineId → MachineOut → Step M → Option (Step M)
  absorb_out dispatch from (MachineOut.dispatch name payload mode) w =
      dispatch from name payload mode w
  absorb_out dispatch from (MachineOut.subscribe name) w =
      some (set_subscribers name (subscribe_id from (subscribers w.router name)) w)
  absorb_out dispatch from (MachineOut.unsubscribe name) w = elim (lookup name w.subscriptions) [
    | none ↦ some w
    | some subs ↦ some (set_subscribers name (retain_ne from subs) w)
  ]
  absorb_out dispatch from (MachineOut.register_service key) w =
      some (push_result (RouteOut.service_registered from key) w)
  absorb_out dispatch from (MachineOut.compensate label) w =
      some (push_result (RouteOut.compensate from label) w)
  absorb_out dispatch from (MachineOut.realize id request) w =
      some (push_result (RouteOut.realize from id request) w)
  absorb_out dispatch from (MachineOut.reply r) w = some (push_result (RouteOut.reply from r) w)
  absorb_out dispatch from (MachineOut.stream frame) w =
      some (push_result (RouteOut.stream from frame) w)
  absorb_out dispatch from (MachineOut.waterfall_next _) w = some w
  absorb_out dispatch from (MachineOut.waterfall_return _) w = some w

  unfoldable pub absorb_with : Dispatch M → Absorb M
  absorb_with dispatch from [] w = some w
  absorb_with dispatch from (out ∷ outs) w =
      and_then (absorb_out dispatch from out w) λ w'. absorb_with dispatch from outs w'

-- A final value ends the chain, any other goes to the next listener.
abbrev pub after_turn :
    {M : Type 0}
    → ChainOutcome
    → (Payload → Step M → Option (Payload × Step M))
    → Step M
    → Option (Payload × Step M)
after_turn (done final_value) rest w = some (final_value, w)
after_turn (continue next) rest w = rest next w

-- The result of a chain is delivered to whoever started it.
abbrev pub schedule_result :
    {M : Type 0} → MachineId → EventName → Payload × Step M → Option (Step M)
schedule_result initiator name (value, w) =
    some (record w { queue = w.queue ++ (initiator, MachineIn.dispatch_result name value) ∷ [] })

module _ {M : Type 0} (handle : M → MachineIn → List MachineOut × M) where
  -- The listeners of a chain, one after the other, until one returns.
  unfoldable pub chain_with :
      Absorb M
      → DispatchMode
      → EventName
      → List MachineId
      → Payload
      → Step M
      → Option (Payload × Step M)
  chain_with absorb mode name [] value w = some (value, w)
  chain_with absorb mode name (sub ∷ subs) value w = elim (lookup sub w.machines) [
    | none ↦ chain_with absorb mode name subs value (push_result (RouteOut.unknown_target sub) w)
    | some machine ↦
        let (outs, machine') = handle machine (turn mode name value) in
        let (outcome, side) = fold_chain outs in
        and_then (absorb sub side (set_machine sub machine' w))
          (after_turn outcome (chain_with absorb mode name subs))
  ]

  unfoldable pub dispatch_with : Absorb M → Dispatch M
  dispatch_with absorb initiator name payload emit w = some (record w {
    queue = w.queue ++ map (λ sub. (sub, MachineIn.event name payload)) (subscribers w.router name);
  })
  dispatch_with absorb initiator name payload mode w =
      and_then (chain_with absorb mode name (subscribers w.router name) payload w)
        (schedule_result initiator name)

  -- `depth` bounds how deep chains nest in the side outputs of chains: the code has the call
  -- stack, and `none` is its overflow.
  unfoldable pub absorb : ℕ → Absorb M
  absorb zero = absorb_with (dispatch_with (λ _ _ _. none))
  absorb (suc depth) = absorb_with (dispatch_with (absorb depth))

  unfoldable pub dispatch : ℕ → Dispatch M
  dispatch depth = dispatch_with (absorb depth)

  -- One delivery of the queue.
  unfoldable pub deliver : ℕ → MachineId → MachineIn → Step M → Option (Step M)
  deliver depth to ev w = elim (lookup to w.machines) [
    | none ↦ some (push_result (RouteOut.unknown_target to) w)
    | some machine ↦
        let (outs, machine') = handle machine ev in absorb depth to outs (set_machine to machine' w)
  ]

  -- Drain the queue, with the deliveries that are left before the cap and those made.
  unfoldable pub drain : ℕ → ℕ → ℕ → Step M → Option (Step M)
  drain depth zero delivered w = elim w.queue [
    | [] ↦ some w
    | _ ∷ rest ↦ some (push_result (RouteOut.cap_reached delivered) (record w { queue = rest }))
  ]
  drain depth (suc left) delivered w = elim w.queue [
    | [] ↦ some w
    | (to, ev) ∷ rest ↦
        and_then (deliver depth to ev (record w { queue = rest }))
          λ w'. drain depth left (delivered + 1) w'
  ]

  -- What an input does before the queue is drained.
  unfoldable pub enter : ℕ → Router M → RouteIn M → Option (Step M)
  enter depth r (RouteIn.mount id machine) = some (record {
    router = record r { machines = insert id machine r.machines };
    queue = (id, MachineIn.services_ready []) ∷ [];
    results = [];
  })
  enter depth r (RouteIn.unmount id) = elim (lookup id r.machines) [
    | none ↦ some (record { router = r; queue = []; results = RouteOut.unknown_target id ∷ [] })
    | some machine ↦
        let (outs, _) = handle machine MachineIn.dispose_requested in
        and_then
          (absorb depth id outs (record {
            router = record r { machines = erase id r.machines };
            queue = [];
            results = [];
          }))
          (drop_subscriber id)
  ]
  enter depth r (RouteIn.deliver to ev) =
      some (record { router = r; queue = (to, ev) ∷ []; results = [] })
  enter depth r (RouteIn.dispatch name payload mode) =
      dispatch depth "<host>" name payload mode (record { router = r; queue = []; results = [] })

  -- `Router::handle`
  unfoldable pub route : ℕ → Router M → RouteIn M → Option (Router M × List RouteOut)
  route depth r ev =
      and_then (enter depth r ev) λ w. and_then (drain depth max_deliveries_per_step 0 w) answer
