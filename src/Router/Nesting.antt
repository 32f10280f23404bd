-- ===== src/Router/Nesting.antt =====
-- Chains that nest in the side outputs of chains: the depth is no part of the result, and a
-- listener that starts its own chain again never comes back.
use text.Mathlib.TextPositions.{eq_refl}
use dsh_rs.Base.{
  ℕ, zero, suc, ◌≡◌, refl, sym, ap, ◌∙◌, inl, inr, Option, none, some, List, [], ◌∷◌, and_then,
  and_then-eq-some, arith, Option-cases, subst, dec_le, ◌≤◌,
}
use dsh_rs.Base.Dict.{lookup, lookup-insert}
use dsh_rs.Router.Messages.{
  MachineId, EventName, Payload, DispatchMode, emit, waterfall, MachineIn, MachineOut, RouteIn,
  RouteOut,
}
use dsh_rs.Router.{
  Router, Step, Absorb, Dispatch, ChainOutcome, continue, done, subscribers, push_result,
  set_machine, absorb_out, absorb_with, chain_with, dispatch_with, absorb, dispatch, enter, route,
  fold_chain, turn, after_turn, schedule_result,
}

-- Whenever `f` returns, `g` returns the same.
abbrev pub Extends : {M : Type 0} → Absorb M → Absorb M → Type 0
Extends {M} f g =
    (from : MachineId) (outs : List MachineOut) (w u : Step M)
    → f from outs w ≡ some u
    → g from outs w ≡ some u

abbrev pub DispatchExtends : {M : Type 0} → Dispatch M → Dispatch M → Type 0
DispatchExtends {M} f g =
    (from : MachineId) (name : EventName) (value : Payload) (mode : DispatchMode) (w u : Step M)
    → f from name value mode w ≡ some u
    → g from name value mode w ≡ some u

module _ {M : Type 0} where
  absorb_out-Extends :
      (f g : Dispatch M)
      → DispatchExtends f g
      → (from : MachineId) (out : MachineOut) (w u : Step M) → absorb_out f from out w ≡ some u
      → absorb_out g from out w ≡ some u
  unfolding absorb_out
  absorb_out-Extends f g ext from (MachineOut.dispatch name payload mode) w u e =
      ext from name payload mode w u e
  absorb_out-Extends f g ext from _ w u e = e

  absorb_with-Extends :
      (f g : Dispatch M) → DispatchExtends f g → Extends (absorb_with f) (absorb_with g)
  unfolding absorb_with
  absorb_with-Extends f g ext from [] w u e = e
  absorb_with-Extends f g ext from (out ∷ outs) w u e =
      let (v, first, rest) = and_then-eq-some (absorb_out f from out w) _ e in
      ap (λ o. and_then o (absorb_with g from outs)) (absorb_out-Extends f g ext from out w v first)
      ∙ absorb_with-Extends f g ext from outs v u rest

module _ {M : Type 0} (handle : M → MachineIn → List MachineOut × M) where
  pub chain_missing :
      (f : Absorb M) (mode : DispatchMode) (name : EventName) (sub : MachineId)
      (subs : List MachineId) (value : Payload) (w : Step M)
      → lookup sub w.machines ≡ none
      → chain_with handle f mode name (sub ∷ subs) value w
        ≡ chain_with handle f mode name subs value (push_result (RouteOut.unknown_target sub) w)
  unfolding chain_with
  chain_missing f mode name sub subs value w p = rw (p, chain_with)

  pub chain_found :
      (f : Absorb M) (mode : DispatchMode) (name : EventName) (sub : MachineId)
      (subs : List MachineId) (value : Payload) (w : Step M) (m : M)
      → lookup sub w.machines ≡ some m
      → chain_with handle f mode name (sub ∷ subs) value w ≡ (
          let (outs, m') = handle m (turn mode name value) in
          let (outcome, side) = fold_chain outs in
          and_then
            (f sub side (set_machine sub m' w))
            (after_turn outcome (chain_with handle f mode name subs)))
  unfolding chain_with
  chain_found f mode name sub subs value w m p = rw (p, chain_with)

  after_turn-Extends :
      (outcome : ChainOutcome) (f g : Payload → Step M → Option (Payload × Step M)) (w : Step M)
      (r : Payload × Step M)
      → ((value : Payload) (v : Step M) (s : Payload × Step M)
          → f value v ≡ some s
          → g value v ≡ some s)
      → after_turn outcome f w ≡ some r
      → after_turn outcome g w ≡ some r
  after_turn-Extends (done value) f g w r ext e = e
  after_turn-Extends (continue value) f g w r ext e = ext value w r e

  chain_with-Extends :
      (f g : Absorb M)
      → Extends f g
      → (mode : DispatchMode) (name : EventName) (subs : List MachineId) (value : Payload)
        (w : Step M) (r : Payload × Step M)
      → chain_with handle f mode name subs value w ≡ some r
      → chain_with handle g mode name subs value w ≡ some r
  chain_with-Extends f g ext mode name [] value w r e = unfold chain_with in e
  chain_with-Extends f g ext mode name (sub ∷ subs) value w r e =
      elim (Option-cases (lookup sub w.machines)) [
        | inl p ↦
            chain_missing g mode name sub subs value w p
            ∙ chain_with-Extends f g ext mode name subs value _ r
                (sym (chain_missing f mode name sub subs value w p) ∙ e)
        | inr (m, p) ↦
            let (outs, m') = handle m (turn mode name value) in
            let (outcome, side) = fold_chain outs in
            let (v, absorbed, rest) =
              and_then-eq-some (f sub side (set_machine sub m' w)) _
                (sym (chain_found f mode name sub subs value w m p) ∙ e) in
            chain_found g mode name sub subs value w m p
            ∙ ap (λ o. and_then o (after_turn outcome (chain_with handle g mode name subs)))
                (ext sub side (set_machine sub m' w) v absorbed)
            ∙ after_turn-Extends outcome _ _ v r (chain_with-Extends f g ext mode name subs) rest
      ]

  pub dispatch_with-Extends :
      (f g : Absorb M)
      → Extends f g
      → DispatchExtends (dispatch_with handle f) (dispatch_with handle g)
  unfolding dispatch_with
  dispatch_with-Extends f g ext from name value emit w u e = e
  dispatch_with-Extends f g ext from name value mode w u e =
      let (r, chained, rest) =
        and_then-eq-some (chain_with handle f mode name (subscribers w.router name) value w)
          (schedule_result from name) e in
      ap (λ o. and_then o (schedule_result from name))
        (chain_with-Extends f g ext mode name (subscribers w.router name) value w r chained)
      ∙ rest

  absorb-suc : (depth : ℕ) → Extends (absorb handle depth) (absorb handle (suc depth))
  unfolding absorb
  absorb-suc zero =
      absorb_with-Extends _ _
        (dispatch_with-Extends (λ _ _ _. none) (absorb handle zero) (λ from outs w u e. cc))
  absorb-suc (suc depth) =
      absorb_with-Extends _ _
        (dispatch_with-Extends (absorb handle depth) (absorb handle (suc depth)) (absorb-suc depth))

  -- More room for nested chains changes no result: once a batch of outputs is absorbed within some
  -- depth, it is absorbed to the same state within any larger one.
  pub absorb-Extends :
      (depth deeper : ℕ) → depth ≤ deeper → Extends (absorb handle depth) (absorb handle deeper)
  absorb-Extends depth zero h =
      let same : depth ≡ zero = omega arith in
      subst (λ d. Extends (absorb handle depth) (absorb handle d)) same (λ from outs w u e. e)
  absorb-Extends depth (suc deeper) h = elim (dec_le depth deeper) [
    | yes le ↦ λ from outs w u e.
        absorb-suc deeper from outs w u (absorb-Extends depth deeper le from outs w u e)
    | no gt ↦
        let same : depth ≡ suc deeper = omega arith in
        subst (λ d. Extends (absorb handle depth) (absorb handle d)) same (λ from outs w u e. e)
  ]

  -- A machine that answers its turn in the chain of an event by starting that chain again.
  abbrev pub Restarts : M → EventName → Type 0
  Restarts m name =
      (value : Payload)
      → handle m (MachineIn.waterfall_turn name value)
        ≡ (MachineOut.dispatch name value waterfall ∷ [], m)

  abbrev restart : EventName → Payload → List MachineOut
  restart name value = MachineOut.dispatch name value waterfall ∷ []

  restart_dispatch :
      (f : Absorb M) (from sub : MachineId) (subs : List MachineId) (m : M) (name : EventName)
      (value : Payload) (w : Step M)
      → Restarts m name
      → subscribers w.router name ≡ sub ∷ subs
      → lookup sub w.machines ≡ some m
      → f sub (restart name value) (set_machine sub m w) ≡ none
      → dispatch_with handle f from name value waterfall w ≡ none
  unfolding dispatch_with fold_chain
  restart_dispatch f from sub subs m name value w again first mounted stuck =
      rw (first, chain_found f waterfall name sub subs value w m mounted, again value, stuck)

  restart_turn :
      (f : Absorb M) (from sub : MachineId) (subs : List MachineId) (m : M) (name : EventName)
      (value : Payload) (w : Step M)
      → Restarts m name
      → subscribers w.router name ≡ sub ∷ subs
      → lookup sub w.machines ≡ some m
      → f sub (restart name value) (set_machine sub m w) ≡ none
      → absorb_with (dispatch_with handle f) from (restart name value) w ≡ none
  unfolding absorb_with absorb_out
  restart_turn f from sub subs m name value w again first mounted stuck =
      rw (restart_dispatch f from sub subs m name value w again first mounted stuck)

  Restarts-forever :
      (depth : ℕ) (from sub : MachineId) (subs : List MachineId) (m : M) (name : EventName)
      (value : Payload) (w : Step M)
      → Restarts m name
      → subscribers w.router name ≡ sub ∷ subs
      → lookup sub w.machines ≡ some m
      → absorb handle depth from (restart name value) w ≡ none
  unfolding absorb
  Restarts-forever zero from sub subs m name value w again first mounted =
      restart_turn (λ _ _ _. none) from sub subs m name value w again first mounted refl
  Restarts-forever (suc depth) from sub subs m name value w again first mounted =
      restart_turn (absorb handle depth) from sub subs m name value w again first mounted (
        Restarts-forever depth sub sub subs m name value (set_machine sub m w) again
          (unfold subscribers in first) ((lookup-insert w.machines sub m sub).0 (eq_refl sub)))

  -- The cap on deliveries does not bound chains: if the first listener of an event answers its
  -- turn by starting the event's chain again, the router never returns from a dispatch of it,
  -- however deep the call stack.
  pub route_never_returns :
      (depth : ℕ) (r : Router M) (sub : MachineId) (subs : List MachineId) (m : M)
      (name : EventName) (value : Payload)
      → Restarts m name
      → subscribers r name ≡ sub ∷ subs
      → lookup sub r.machines ≡ some m
      → route handle depth r (RouteIn.dispatch name value waterfall) ≡ none
  unfolding route enter dispatch
  route_never_returns depth r sub subs m name value again first mounted =
      let w : Step M = record { router = r; queue = []; results = [] } in
      rw (
        restart_dispatch (absorb handle depth) "<host>" sub subs m name value w again first mounted
          (Restarts-forever depth sub sub subs m name value (set_machine sub m w) again
            (unfold subscribers in first) ((lookup-insert w.machines sub m sub).0 (eq_refl sub))))
