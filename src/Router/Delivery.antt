-- ===== src/Router/Delivery.antt =====
-- How far one step of the router goes: deliveries up to the cap, and chains inside chains.
use native.Mathlib.Nat.{add-zero}
use mathlib.Core.Option.{some-injective}
use dsh_rs.Base.{
  ℕ, zero, suc, ◌+◌, ◌≤◌, ◌≡◌, sym, ap, ◌∙◌, ◌⊎◌, inl, inr, some, List, [], ◌∷◌, and_then,
  and_then-eq-some, arith, List-cases, subst,
}
use dsh_rs.Router.Messages.{MachineId, MachineIn, MachineOut, RouteIn, RouteOut}
use dsh_rs.Router.{Router, Step, push_result, deliver, drain, enter, route, max_deliveries_per_step}

module _ {M : Type 0} (handle : M → MachineIn → List MachineOut × M) where
  -- `n` deliveries, each of the oldest message that waits.
  pub data Delivered (depth : ℕ) : ℕ → Step M → Step M → Type 0 where
    here : {w : Step M} → Delivered depth zero w w
    next :
        {n : ℕ} {w v u : Step M} (to : MachineId) (ev : MachineIn)
        (rest : List (MachineId × MachineIn))
        → w.queue ≡ (to, ev) ∷ rest
        → deliver handle depth to ev (record w { queue = rest }) ≡ some v
        → Delivered depth n v u
        → Delivered depth (suc n) w u

  abbrev pub Quiet : ℕ → ℕ → Step M → Step M → Type 0
  Quiet depth left w u = (n : ℕ) × (n ≤ left) × Delivered depth n w u × (u.queue ≡ [])

  abbrev pub Capped : ℕ → ℕ → ℕ → Step M → Step M → Type 0
  Capped depth left delivered w u =
      (v : Step M) × (first : MachineId × MachineIn) × (rest : List (MachineId × MachineIn))
      × Delivered depth left w v
      × (v.queue ≡ first ∷ rest)
      × (u ≡ push_result (RouteOut.cap_reached delivered) (record v { queue = rest }))

  pub drain_stop :
      (depth left delivered : ℕ) (w : Step M)
      → w.queue ≡ []
      → drain handle depth left delivered w ≡ some w
  unfolding drain
  drain_stop depth zero delivered w p = ground arith
  drain_stop depth (suc left) delivered w p = ground arith

  pub drain_cap :
      (depth delivered : ℕ) (w : Step M) (first : MachineId × MachineIn)
      (rest : List (MachineId × MachineIn))
      → w.queue ≡ first ∷ rest
      → drain handle depth zero delivered w
        ≡ some (push_result (RouteOut.cap_reached delivered) (record w { queue = rest }))
  unfolding drain
  drain_cap depth delivered w first rest p = rw (p, drain)

  pub drain_more :
      (depth left delivered : ℕ) (w : Step M) (to : MachineId) (ev : MachineIn)
      (rest : List (MachineId × MachineIn))
      → w.queue ≡ (to, ev) ∷ rest
      → drain handle depth (suc left) delivered w ≡ (
          and_then
            (deliver handle depth to ev (record w { queue = rest }))
            λ v. drain handle depth left (delivered + 1) v)
  unfolding drain
  drain_more depth left delivered w to ev rest p = rw (p, drain)

  deliver_first :
      (depth left total : ℕ) (w v u : Step M) (to : MachineId) (ev : MachineIn)
      (rest : List (MachineId × MachineIn))
      → w.queue ≡ (to, ev) ∷ rest
      → deliver handle depth to ev (record w { queue = rest }) ≡ some v
      → Quiet depth left v u ⊎ Capped depth left total v u
      → Quiet depth (suc left) w u ⊎ Capped depth (suc left) total w u
  deliver_first depth left total w v u to ev rest p d (inl (n, b, ds, q)) =
      inl (suc n, omega arith, next to ev rest p d ds, q)
  deliver_first depth left total w v u to ev rest p d (inr (x, first, more, ds, q, e)) =
      inr (x, first, more, next to ev rest p d ds, q, e)

  drain_cases :
      (depth left delivered : ℕ) (w u : Step M)
      → drain handle depth left delivered w ≡ some u
      → Quiet depth left w u ⊎ Capped depth left (delivered + left) w u
  drain_cases depth zero delivered w u e = elim (List-cases w.queue) [
    | inl p ↦
        let same = some-injective _ _ (sym (drain_stop depth zero delivered w p) ∙ e) in
        inl (subst (Quiet depth zero w) same (0, omega arith, here, p))
    | inr (first, rest, p) ↦ inr (
      w,
      first,
      rest,
      here,
      p,
      rw add-zero (some-injective _ _ (sym e ∙ drain_cap depth delivered w first rest p)),
    )
  ]
  drain_cases depth (suc left) delivered w u e = elim (List-cases w.queue) [
    | inl p ↦
        let same = some-injective _ _ (sym (drain_stop depth (suc left) delivered w p) ∙ e) in
        inl (subst (Quiet depth (suc left) w) same (0, omega arith, here, p))
    | inr ((to, ev), rest, p) ↦
        let (v, d, more) =
          and_then-eq-some (deliver handle depth to ev (record w { queue = rest })) _
            (sym (drain_more depth left delivered w to ev rest p) ∙ e) in
        let total : delivered + 1 + left ≡ delivered + suc left = omega arith in
        subst (λ t. Quiet depth (suc left) w u ⊎ Capped depth (suc left) t w u) total
          (deliver_first depth left (delivered + 1 + left) w v u to ev rest p d
            (drain_cases depth left (delivered + 1) v u more))
  ]

  -- A step of the router that returns has made at most 1024 deliveries, oldest message first.
  -- Either no message is left, or it made exactly 1024 and its last result says so.
  pub route_bounded :
      (depth : ℕ) (r r' : Router M) (ev : RouteIn M) (results : List RouteOut)
      → route handle depth r ev ≡ some (r', results)
      → (w : Step M) × (u : Step M) × (enter handle depth r ev ≡ some w)
        × (u.router ≡ r')
        × (u.results ≡ results)
        × (Quiet depth 1024 w u ⊎ Capped depth 1024 1024 w u)
  unfolding route
  route_bounded depth r r' ev results e =
      let (w, entered, drained) = and_then-eq-some (enter handle depth r ev) _ e in
      let (u, stopped, same) =
        and_then-eq-some (drain handle depth max_deliveries_per_step 0 w) _ drained in
      let pair = some-injective _ _ same in
      (w, u, entered, ap (λ p. p.0) pair, ap (λ p. p.1) pair, drain_cases depth 1024 0 w u stopped)
