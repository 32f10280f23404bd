-- ===== src/Router/Depth.antt =====
-- The depth that is allowed for nested chains is no part of what a step of the router does.
use dsh_rs.Base.{
  ℕ, zero, suc, ◌+◌, ◌≤◌, ◌≡◌, sym, ap, ◌∙◌, inl, inr, some, List, and_then, and_then-eq-some,
  Option-cases, List-cases,
}
use dsh_rs.Base.Dict.{lookup}
use dsh_rs.Router.Messages.{MachineId, MachineIn, MachineOut, RouteIn, RouteOut}
use dsh_rs.Router.{
  Router, Step, absorb, dispatch, deliver, drain, enter, route, max_deliveries_per_step,
  drop_subscriber, answer,
}
use dsh_rs.Router.Delivery.{drain_stop, drain_more}
use dsh_rs.Router.Nesting.{absorb-Extends, dispatch_with-Extends}

module _ {M : Type 0} (handle : M → MachineIn → List MachineOut × M) (depth deeper : ℕ)
    (h : depth ≤ deeper) where
  deliver-deeper :
      (to : MachineId) (ev : MachineIn) (w u : Step M)
      → deliver handle depth to ev w ≡ some u
      → deliver handle deeper to ev w ≡ some u
  unfolding deliver
  deliver-deeper to ev w u e = elim (Option-cases (lookup to w.machines)) [
    | inl p ↦ rw (p, deliver) (rw (p, deliver) at e)
    | inr (m, p) ↦
        rw (p, deliver) (absorb-Extends handle depth deeper h to _ _ u (rw (p, deliver) at e))
  ]

  drain-deeper :
      (left delivered : ℕ) (w u : Step M)
      → drain handle depth left delivered w ≡ some u
      → drain handle deeper left delivered w ≡ some u
  drain-deeper zero delivered w u e = unfold drain in e
  drain-deeper (suc left) delivered w u e = elim (List-cases w.queue) [
    | inl p ↦
        drain_stop handle deeper (suc left) delivered w p
        ∙ sym (drain_stop handle depth (suc left) delivered w p)
        ∙ e
    | inr ((to, ev), rest, p) ↦
        let (v, d, more) =
          and_then-eq-some (deliver handle depth to ev (record w { queue = rest })) _
            (sym (drain_more handle depth left delivered w to ev rest p) ∙ e) in
        drain_more handle deeper left delivered w to ev rest p
        ∙ ap (λ o. and_then o (drain handle deeper left (delivered + 1)))
            (deliver-deeper to ev (record w { queue = rest }) v d)
        ∙ drain-deeper left (delivered + 1) v u more
  ]

  enter-deeper :
      (r : Router M) (ev : RouteIn M) (w : Step M)
      → enter handle depth r ev ≡ some w
      → enter handle deeper r ev ≡ some w
  unfolding enter
  enter-deeper r (RouteIn.mount id m) w e = e
  enter-deeper r (RouteIn.unmount id) w e = elim (Option-cases (lookup id r.machines)) [
    | inl p ↦ rw (p, enter) (rw (p, enter) at e)
    | inr (m, p) ↦
        let (v, absorbed, rest) = and_then-eq-some _ (drop_subscriber id) (rw (p, enter) at e) in
        rw (p, enter)
          (ap (λ o. and_then o (drop_subscriber id))
              (absorb-Extends handle depth deeper h id _ _ v absorbed)
            ∙ rest)
  ]
  enter-deeper r (RouteIn.deliver to ev) w e = e
  enter-deeper r (RouteIn.dispatch name value mode) w e =
      unfold dispatch in
      dispatch_with-Extends handle (absorb handle depth) (absorb handle deeper)
        (absorb-Extends handle depth deeper h) "<host>" name value mode _ w e

  -- If a step of the router returns within some depth of nested chains, it returns the same router
  -- and results within any larger one.
  pub route-deeper :
      (r r' : Router M) (ev : RouteIn M) (results : List RouteOut)
      → route handle depth r ev ≡ some (r', results)
      → route handle deeper r ev ≡ some (r', results)
  unfolding route
  route-deeper r r' ev results e =
      let (w, entered, drained) = and_then-eq-some (enter handle depth r ev) _ e in
      let (u, stopped, same) =
        and_then-eq-some (drain handle depth max_deliveries_per_step 0 w) _ drained in
      ap (λ o. and_then o λ v. and_then (drain handle deeper max_deliveries_per_step 0 v) answer)
        (enter-deeper r ev w entered)
      ∙ ap (λ o. and_then o answer) (drain-deeper max_deliveries_per_step 0 w u stopped)
      ∙ same
