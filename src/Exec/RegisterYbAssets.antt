-- ===== src/Exec/RegisterYbAssets.antt =====
-- Tapioca-bar/tasks/exec/registerYbAssets.ts
pub mod Order
use tapioca.Base.{
  String, ◌==◌, starts_with, ends_with, includes, Bool, true, false, not, ◌||◌, Option, none, some,
  List, [], ◌∷◌, ◌++◌, map, contains, filter, if◌then◌else◌, is_empty,
}
use tapioca.Hre.Types.{TContract, ChainInfo, thrown}
use tapioca.Hre.Task.{
  Task, pure, ask, require, guard, input, confirm, ask_for_tag, get_chain, send, ◌>>=◌, ◌>>◌,
}
use tapioca.Setups.{tx, build_yield_box_assets}
use tapioca.Deploy.Lookup.{global_or_local, is_testnet}
use tapioca.Deploy.Stack.{multicall_args}

-- Does the list hold `stratFor`, `undefined` included?
unfoldable pub holds : List (Option String) → Option String → Bool
holds [] o = false
holds (none ∷ xs) none = true
holds (none ∷ xs) (some s) = holds xs (some s)
holds (some x ∷ xs) none = holds xs none
holds (some x ∷ xs) (some s) = x == s || holds xs (some s)

abbrev pub strat_for : TContract → Option String
strat_for a = a.meta.strat_for

-- With a list of names, the local strategies of the tokens that a named one serves are removed.
unfoldable pub prune_local : Option (List String) → List TContract → List TContract → List TContract
unfolding holds filter contains
prune_local none global_strats local_strats = local_strats
prune_local (some names) global_strats local_strats =
    let specific = map strat_for (filter (λ a. contains names a.name) global_strats) in
    elim specific [
      | [] ↦ local_strats
      | s ∷ ss ↦ filter (λ a. not (holds (s ∷ ss) (strat_for a))) local_strats
    ]

-- `stratForNames.find((e) => a.name.startsWith(e))`, as a test on `a`. The name that is found is
-- falsy if it is empty; `startsWith(undefined)` looks for the text "undefined", and `find` then
-- returns `undefined`.
unfoldable pub serves : List (Option String) → TContract → Bool
serves [] a = false
serves (none ∷ ss) a = if starts_with a.name "undefined" then false else serves ss a
serves (some s ∷ ss) a = if starts_with a.name s then not (is_empty s) else serves ss a

unfoldable pub find_strategies : Option (List String) → String → ChainInfo → Task (List TContract)
unfolding prune_local filter
find_strategies names tag chain_info = ask λ w t.
    let global_strats =
      filter (λ e. ends_with e.name "Strategy")
        (w.load_global t tag "tapioca-strategies" chain_info.chain_id) in
    let local_strats =
      filter (λ a. starts_with a.name "ERC20WithoutStrategy") (w.load_local t tag w.chain_id) in
    prune_local names global_strats local_strats ++ global_strats

unfoldable pub filter_strategies : List TContract → Task (List TContract)
unfolding filter
filter_strategies strats = do
  want_to_filter ← confirm "wantToFilter"
  if want_to_filter
      then (do
        filter_term ← input "filterTerm"
        pure (filter (λ a. includes a.name filter_term) strats))
      else pure strats

-- The entries that `buildYieldBoxAssets` looks its addresses up in.
unfoldable pub asset_deps : String → ChainInfo → List TContract → TContract → Task (List TContract)
unfolding serves filter
asset_deps tag chain_info strats yield_box = ask λ w t.
    let served = λ (l : List TContract). filter (serves (map strat_for strats)) l in
    strats
    ++ (served (w.load_global t tag "tapiocaz" w.chain_id)
        ++ (served (w.load_local t tag w.chain_id)
            ++ (served (w.load_global t tag "tap-token" w.chain_id)
                ++ ((if is_testnet chain_info
                      then served (w.load_global t tag "tapioca-mocks" w.chain_id)
                      else [])
                    ++ (yield_box ∷ [])))))

unfoldable pub register_yb_assets : Option (List String) → Task (Unit {0})
register_yb_assets names = do
  chain_info ← get_chain
  tag ← ask_for_tag
  yb ← global_or_local tag "yieldbox" chain_info.chain_id "YieldBox"
  yield_box ← require (thrown "[-] YieldBox not found") yb
  found ← find_strategies names tag chain_info
  strats ← filter_strategies found
  deps ← asset_deps tag chain_info strats yield_box
  calls ← build_yield_box_assets deps
  confirmed ← confirm "confirm"
  guard confirmed (thrown "[-] Aborted")
  multicall ← ask (λ w _. w.multicall_address chain_info.chain_id)
  send (tx multicall "multicall" (multicall_args calls))
