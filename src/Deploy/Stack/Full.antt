-- ===== src/Deploy/Stack/Full.antt =====
-- Tapioca-bar/tasks/deploy/00-deployFullStack.ts
use tapioca.Base.{String, Bool, Option, none, some, List, [], ◌∷◌, ◌++◌, if◌then◌else◌}
use tapioca.Hre.Types.{Val, str, TContract, Build, Vm, ChainInfo, thrown}
use tapioca.Hre.Task.{Task, pure, ask, require, ask_for_tag, get_chain, ◌>>=◌}
use tapioca.Builds.{
  build_penrose, build_master_contracts, build_multi_swapper, build_usd0,
  build_stable_to_usd0_bidder, build_singularity_modules, build_big_bang_modules,
  build_usdo_modules, build_usdo_flashloan_helper, build_simple_leverage_executor,
}
use tapioca.Setups.{
  MultiCall, build_penrose_setup, build_master_contracts_setup, build_usdo_flashloan_setup,
}
use tapioca.Utils.{load_vm, find_named, find_prefixed}
use tapioca.Deploy.Lookup.{is_testnet}
use tapioca.Deploy.Stack.{
  StackInputs, find_weth, find_yield_box, find_cluster, base_queue, run_stack,
}

-- A test network may have its own `TapOFT`.
unfoldable pub find_tap_token : String → ChainInfo → Bool → Task (Option TContract)
unfolding find_named find_prefixed
find_tap_token tag chain_info testnet = ask λ w t.
    elim (find_named "TapOFT" (w.load_global t tag "tap-token" chain_info.chain_id)) [
      | some e ↦ some e
      | none ↦
          if testnet then find_prefixed "TapOFT" (w.load_local t tag chain_info.chain_id) else none
    ]

-- `VM.add` in the order of the task, from "00 - Deploy YieldBox" to the Curve swapper.
unfoldable pub full_queue : StackInputs → Val → Val → List Build
unfolding base_queue build_penrose build_master_contracts build_multi_swapper build_usd0
    build_stable_to_usd0_bidder build_singularity_modules build_big_bang_modules build_usdo_modules
    build_usdo_flashloan_helper build_simple_leverage_executor
full_queue s tap stable_pool =
    base_queue s
    ++ (build_penrose tap s.weth s.signer s.yield_box s.cluster (str s.chain_info.lz_chain_id) ∷ [])
    ++ build_master_contracts
    ++ (if s.testnet
        then build_multi_swapper s.v2_router s.v2_factory s.yield_box s.signer ∷ []
        else [])
    ++ build_singularity_modules
    ++ build_big_bang_modules
    ++ build_usdo_modules (str s.chain_info.address) s.yield_box s.cluster
    ++ (build_usd0 (str s.chain_info.address) s.signer s.yield_box s.cluster
        ∷ build_usdo_flashloan_helper s.signer
        ∷ build_simple_leverage_executor s.cluster s.yield_box
        ∷ [])
    ++ (if s.testnet then build_stable_to_usd0_bidder stable_pool s.yield_box else [])

-- The three setups send their transactions themselves, in this order.
unfoldable pub full_setup : List TContract → Task (List MultiCall)
full_setup deps = do
  penrose_calls ← build_penrose_setup deps
  master_calls ← build_master_contracts_setup deps
  flashloan_calls ← build_usdo_flashloan_setup deps
  pure (penrose_calls ++ (master_calls ++ flashloan_calls))

-- The task up to its first `VM.add`, with the queue that follows from what was found.
unfoldable pub full_prepare : Task Vm
full_prepare = do
  tag ← ask_for_tag
  signer ← ask (λ w _. w.signer)
  vm ← load_vm tag
  chain_info ← get_chain
  let testnet = is_testnet chain_info
  tap ← find_tap_token tag chain_info testnet
  tap_token ← require (thrown "[-] TapToken not found") tap
  found_weth ← find_weth tag chain_info testnet
  weth ← require (thrown "[-] Weth not found") found_weth
  yield_box ← find_yield_box tag chain_info testnet
  cluster ← find_cluster tag chain_info testnet
  v2_router ← ask (λ w _. w.uniswap_v2_router chain_info.chain_id)
  v2_factory ← ask (λ w _. w.uniswap_v2_factory chain_info.chain_id)
  stable_pool ← ask (λ w _. w.curve_stable_pool chain_info.chain_id)
  let s : StackInputs = record {
    chain_info = chain_info;
    testnet = testnet;
    weth = weth;
    yield_box = yield_box;
    cluster = cluster;
    signer = str signer;
    v2_router = v2_router;
    v2_factory = v2_factory;
  }
  pure (record vm { queue = full_queue s (str tap_token.address) stable_pool })

unfoldable pub deploy_full_stack : Task (Unit {0})
deploy_full_stack = do vm ← full_prepare; run_stack vm full_setup
