-- ===== src/Router/Examples.antt =====
-- Two small machines in the router (rust/crates/vocoder-cordis/src/lib.rs).
use dsh_rs.Base.{ℕ, ◌+◌, ◌≤◌, ◌≡◌, refl, ◌⊎◌, some, none, List, [], ◌∷◌, arith}
use dsh_rs.Base.Dict.{lookup, insert}
use dsh_rs.Json.{null, string}
use dsh_rs.Router.Messages.{
  bail, waterfall, emit, MachineIn, MachineOut, RouteIn, RouteOut, RpcReply,
}
use dsh_rs.Router.{
  Router, Step, absorb, absorb_out, absorb_with, dispatch, dispatch_with, chain_with, deliver,
  drain, enter, route, subscribers, fold_chain,
}
use dsh_rs.Router.Delivery.{Quiet, Capped, route_bounded}
use dsh_rs.Router.Nesting.{Restarts, route_never_returns}
use dsh_rs.Router.Flat.{Returns, TakesFlatTurns, route-Returns}

-- A machine that counts its inputs, answers events and ends chains.
abbrev count : ℕ → MachineIn → List MachineOut × ℕ
count n (MachineIn.event name value) = (
  MachineOut.reply (RpcReply.ok value) ∷ MachineOut.dispatch "counted" value waterfall ∷ [],
  n + 1,
)
count n (MachineIn.waterfall_turn name value) = (MachineOut.waterfall_return value ∷ [], n + 1)
count n _ = ([], n + 1)

-- A machine that starts the chain of its turn again.
abbrev echo : ℕ → MachineIn → List MachineOut × ℕ
echo n (MachineIn.waterfall_turn name value) = (MachineOut.dispatch name value waterfall ∷ [], n)
echo n _ = ([], n)

abbrev mounted : Router ℕ
mounted = record {
  machines = ("counter", 0) ∷ [];
  subscriptions = ("counted", "counter" ∷ []) ∷ ("tick", "counter" ∷ []) ∷ [];
}

-- The counter takes the event, its own chain's turn and the chain's result.
abbrev counted : Router ℕ
counted = record mounted { machines = ("counter", 3) ∷ [] }

abbrev tick : RouteIn ℕ
tick = RouteIn.dispatch "tick" null emit

abbrev tick_results : List RouteOut
tick_results = RouteOut.reply "counter" (RpcReply.ok null) ∷ []

route-tick : route count 1 mounted tick ≡ some (counted, tick_results)
unfolding route enter dispatch dispatch_with drain deliver absorb absorb_with absorb_out chain_with
    subscribers fold_chain lookup insert
route-tick = refl

route_bounded_example :
    (w : Step ℕ) × (u : Step ℕ) × (enter count 1 mounted tick ≡ some w)
    × (u.router ≡ counted)
    × (u.results ≡ tick_results)
    × (Quiet count 1 1024 w u ⊎ Capped count 1 1024 1024 w u)
route_bounded_example = route_bounded count 1 mounted counted tick tick_results route-tick

one_le_five : 1 ≤ 5
one_le_five = omega arith

count-TakesFlatTurns : TakesFlatTurns count
count-TakesFlatTurns m waterfall name value = (refl, tt)
count-TakesFlatTurns m bail name value = tt
count-TakesFlatTurns m emit name value = tt

route-Returns_example : Returns (route count 1 mounted tick)
route-Returns_example = route-Returns count count-TakesFlatTurns 0 mounted tick

echo-Restarts : Restarts echo 7 "tick"
echo-Restarts value = refl

subscribers-mounted : subscribers mounted "tick" ≡ "counter" ∷ []
unfolding subscribers lookup
subscribers-mounted = refl

abbrev echoing : Router ℕ
echoing = record mounted { machines = ("counter", 7) ∷ [] }

subscribers-echoing : subscribers echoing "tick" ≡ "counter" ∷ []
unfolding subscribers lookup
subscribers-echoing = refl

lookup-echoing : lookup "counter" echoing.machines ≡ some 7
unfolding lookup
lookup-echoing = refl

route_never_returns_example :
    route echo 1000 echoing (RouteIn.dispatch "tick" (string "go") waterfall) ≡ none
route_never_returns_example =
    route_never_returns echo 1000 echoing "counter" [] 7 "tick" (string "go") echo-Restarts
      subscribers-echoing lookup-echoing
