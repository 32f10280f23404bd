-- ===== src/Router/Flat.antt =====
-- Routers that always come back: no listener starts a chain while it takes its turn in one.
use dsh_rs.Base.{
  ℕ, zero, suc, ◌+◌, ◌≡◌, refl, ap, ◌∙◌, inl, inr, Option, none, some, List, [], ◌∷◌, ◌++◌, Bool,
  true, false, and_then, All, Option-cases, List-cases,
}
use dsh_rs.Base.Dict.{lookup}
use dsh_rs.Router.Messages.{
  MachineId, EventName, Payload, DispatchMode, emit, MachineIn, MachineOut, RouteIn,
}
use dsh_rs.Router.{
  Router, Step, Absorb, ChainOutcome, continue, done, subscribers, set_machine, absorb_out,
  absorb_with, chain_with, dispatch_with, absorb, dispatch, deliver, drain, enter, route, fold_out,
  fold_outs, fold_chain, turn, after_turn, schedule_result, drop_subscriber, answer,
  max_deliveries_per_step,
}
use dsh_rs.Router.Nesting.{chain_missing, chain_found}
use dsh_rs.Router.Delivery.{drain_stop, drain_cap, drain_more}

-- Whether an output starts a waterfall or a bail chain.
abbrev pub starts_chain : MachineOut → Bool
starts_chain (MachineOut.dispatch name payload emit) = false
starts_chain (MachineOut.dispatch name payload _) = true
starts_chain _ = false

abbrev pub IsFlat : List MachineOut → Type 0
IsFlat = All λ out. starts_chain out ≡ false

abbrev pub Returns {ℓ} : {A : Type ℓ} → Option A → Type ℓ
Returns {A} o = (a : A) × (o ≡ some a)

and_then-Returns {ℓ ι} :
    {A : Type ℓ} {B : Type ι} (o : Option A) (f : A → Option B)
    → Returns o
    → ((a : A) → Returns (f a))
    → Returns (and_then o f)
and_then-Returns o f (a, e) h = let (b, e') = h a in (b, ap (λ x. and_then x f) e ∙ e')

IsFlat-snoc :
    (xs : List MachineOut) (x : MachineOut)
    → IsFlat xs
    → starts_chain x ≡ false
    → IsFlat (xs ++ x ∷ [])
IsFlat-snoc [] x h e = (e, tt)
IsFlat-snoc (y ∷ xs) x h e = (h.0, IsFlat-snoc xs x h.1 e)

-- The side outputs of a turn are among its outputs.
fold_out-IsFlat :
    (seen : Option ChainOutcome × List MachineOut) (out : MachineOut)
    → IsFlat seen.1
    → starts_chain out ≡ false
    → IsFlat (fold_out seen out).1
fold_out-IsFlat (v, rest) (MachineOut.waterfall_next value) h e = h
fold_out-IsFlat (v, rest) (MachineOut.waterfall_return value) h e = h
fold_out-IsFlat (v, rest) out h e = IsFlat-snoc rest out h e

fold_outs-IsFlat :
    (seen : Option ChainOutcome × List MachineOut) (outs : List MachineOut)
    → IsFlat seen.1
    → IsFlat outs
    → IsFlat (fold_outs seen outs).1
fold_outs-IsFlat seen [] h f = h
fold_outs-IsFlat seen (out ∷ outs) h (e, f) =
    fold_outs-IsFlat (fold_out seen out) outs (fold_out-IsFlat seen out h e) f

fold_chain-IsFlat : (outs : List MachineOut) → IsFlat outs → IsFlat (fold_chain outs).1
unfolding fold_chain
fold_chain-IsFlat outs f = fold_outs-IsFlat (none, []) outs tt f

module _ {M : Type 0} (handle : M → MachineIn → List MachineOut × M) where
  absorb_out-Returns :
      (f : Absorb M) (from : MachineId) (out : MachineOut) (w : Step M)
      → starts_chain out ≡ false
      → Returns (absorb_out (dispatch_with handle f) from out w)
  unfolding absorb_out dispatch_with
  absorb_out-Returns f from (MachineOut.dispatch name payload emit) w e = (_, refl)
  absorb_out-Returns f from (MachineOut.dispatch name payload _) w e = cc
  absorb_out-Returns f from (MachineOut.unsubscribe name) w e =
      elim (Option-cases (lookup name w.subscriptions)) [
        | inl p ↦ rw (p, absorb_out) (_, refl)
        | inr (subs, p) ↦ rw (p, absorb_out) (_, refl)
      ]
  absorb_out-Returns f from _ w e = (_, refl)

  absorb_with-Returns :
      (f : Absorb M) (from : MachineId) (outs : List MachineOut) (w : Step M)
      → IsFlat outs
      → Returns (absorb_with (dispatch_with handle f) from outs w)
  unfolding absorb_with
  absorb_with-Returns f from [] w h = (w, refl)
  absorb_with-Returns f from (out ∷ outs) w (e, h) =
      and_then-Returns _ _ (absorb_out-Returns f from out w e)
        λ v. absorb_with-Returns f from outs v h

  absorb_flat :
      (depth : ℕ) (from : MachineId) (outs : List MachineOut) (w : Step M)
      → IsFlat outs
      → Returns (absorb handle depth from outs w)
  unfolding absorb
  absorb_flat zero from outs w h = absorb_with-Returns _ from outs w h
  absorb_flat (suc depth) from outs w h = absorb_with-Returns _ from outs w h

  -- A machine that never starts a chain while it takes its turn in one.
  abbrev pub TakesFlatTurns : Type 0
  TakesFlatTurns =
      (m : M) (mode : DispatchMode) (name : EventName) (value : Payload)
      → IsFlat (handle m (turn mode name value)).0

  module _ (flat : TakesFlatTurns) where
    after_turn-Returns :
        (outcome : ChainOutcome) (f : Payload → Step M → Option (Payload × Step M)) (w : Step M)
        → ((value : Payload) (v : Step M) → Returns (f value v))
        → Returns (after_turn outcome f w)
    after_turn-Returns (done value) f w h = ((value, w), refl)
    after_turn-Returns (continue value) f w h = h value w

    chain_with-Returns :
        (depth : ℕ) (mode : DispatchMode) (name : EventName) (subs : List MachineId)
        (value : Payload) (w : Step M)
        → Returns (chain_with handle (absorb handle depth) mode name subs value w)
    chain_with-Returns depth mode name [] value w = ((value, w), unfold chain_with in refl)
    chain_with-Returns depth mode name (sub ∷ subs) value w =
        elim (Option-cases (lookup sub w.machines)) [
          | inl p ↦
              let (r, e) = chain_with-Returns depth mode name subs value _ in
              (r, chain_missing handle (absorb handle depth) mode name sub subs value w p ∙ e)
          | inr (m, p) ↦
              let (outs, m') = handle m (turn mode name value) in
              let (outcome, side) = fold_chain outs in
              let (r, e) =
                and_then-Returns (absorb handle depth sub side (set_machine sub m' w))
                  (after_turn outcome (chain_with handle (absorb handle depth) mode name subs))
                  (absorb_flat depth sub side _ (fold_chain-IsFlat outs (flat m mode name value)))
                  (λ v. after_turn-Returns outcome _ v (chain_with-Returns depth mode name subs)) in
              (r, chain_found handle (absorb handle depth) mode name sub subs value w m p ∙ e)
        ]

    dispatch_with-Returns :
        (depth : ℕ) (from : MachineId) (name : EventName) (value : Payload) (mode : DispatchMode)
        (w : Step M)
        → Returns (dispatch_with handle (absorb handle depth) from name value mode w)
    unfolding dispatch_with
    dispatch_with-Returns depth from name value emit w = (_, refl)
    dispatch_with-Returns depth from name value mode w =
        and_then-Returns _ (schedule_result from name)
          (chain_with-Returns depth mode name (subscribers w.router name) value w)
          λ (final, v). (_, refl)

    -- One level of nesting takes every output.
    absorb_out_any :
        (depth : ℕ) (from : MachineId) (out : MachineOut) (w : Step M)
        → Returns (absorb_out (dispatch_with handle (absorb handle depth)) from out w)
    unfolding absorb_out
    absorb_out_any depth from (MachineOut.dispatch name payload mode) w =
        dispatch_with-Returns depth from name payload mode w
    absorb_out_any depth from (MachineOut.unsubscribe name) w =
        absorb_out-Returns (absorb handle depth) from (MachineOut.unsubscribe name) w refl
    absorb_out_any depth from _ w = (_, refl)

    absorb_with_any :
        (depth : ℕ) (from : MachineId) (outs : List MachineOut) (w : Step M)
        → Returns (absorb_with (dispatch_with handle (absorb handle depth)) from outs w)
    unfolding absorb_with
    absorb_with_any depth from [] w = (w, refl)
    absorb_with_any depth from (out ∷ outs) w =
        and_then-Returns _ _ (absorb_out_any depth from out w)
          λ v. absorb_with_any depth from outs v

    absorb-Returns :
        (depth : ℕ) (from : MachineId) (outs : List MachineOut) (w : Step M)
        → Returns (absorb handle (suc depth) from outs w)
    unfolding absorb
    absorb-Returns depth from outs w = absorb_with_any depth from outs w

    deliver-Returns :
        (depth : ℕ) (to : MachineId) (ev : MachineIn) (w : Step M)
        → Returns (deliver handle (suc depth) to ev w)
    unfolding deliver
    deliver-Returns depth to ev w = elim (Option-cases (lookup to w.machines)) [
      | inl p ↦ rw (p, deliver) (_, refl)
      | inr (m, p) ↦ rw (p, deliver) (absorb-Returns depth to _ _)
    ]

    drain-Returns :
        (depth left delivered : ℕ) (w : Step M)
        → Returns (drain handle (suc depth) left delivered w)
    drain-Returns depth zero delivered w = elim (List-cases w.queue) [
      | inl p ↦ (w, drain_stop handle (suc depth) zero delivered w p)
      | inr (first, rest, p) ↦ (_, drain_cap handle (suc depth) delivered w first rest p)
    ]
    drain-Returns depth (suc left) delivered w = elim (List-cases w.queue) [
      | inl p ↦ (w, drain_stop handle (suc depth) (suc left) delivered w p)
      | inr ((to, ev), rest, p) ↦
          let (u, e) =
            and_then-Returns _ _ (deliver-Returns depth to ev (record w { queue = rest }))
              λ v. drain-Returns depth left (delivered + 1) v in
          (u, drain_more handle (suc depth) left delivered w to ev rest p ∙ e)
    ]

    enter-Returns :
        (depth : ℕ) (r : Router M) (ev : RouteIn M) → Returns (enter handle (suc depth) r ev)
    unfolding enter
    enter-Returns depth r (RouteIn.mount id m) = (_, refl)
    enter-Returns depth r (RouteIn.unmount id) = elim (Option-cases (lookup id r.machines)) [
      | inl p ↦ rw (p, enter) (_, refl)
      | inr (m, p) ↦
          rw (p, enter)
            (and_then-Returns _ (drop_subscriber id) (absorb-Returns depth id _ _) λ v. (_, refl))
    ]
    enter-Returns depth r (RouteIn.deliver to ev) = (_, refl)
    enter-Returns depth r (RouteIn.dispatch name value mode) =
        unfold dispatch in dispatch_with-Returns (suc depth) "<host>" name value mode _

    -- If no machine starts a chain while it takes its turn in one, every step of the router
    -- returns, whatever its input: one level of nested chains is enough.
    pub route-Returns :
        (depth : ℕ) (r : Router M) (ev : RouteIn M) → Returns (route handle (suc depth) r ev)
    unfolding route
    route-Returns depth r ev = and_then-Returns _ _ (enter-Returns depth r ev) λ w.
        and_then-Returns _ answer (drain-Returns depth max_deliveries_per_step 0 w) λ u. (_, refl)
