-- ===== src/Deploy/Stack/Linked.antt =====
-- Tapioca-bar/tasks/deploy/01-deployLinkedChainStack.ts
use tapioca.Base.{List, [], ◌∷◌, ◌++◌, if◌then◌else◌}
use tapioca.Hre.Types.{str, Build, Vm, thrown}
use tapioca.Hre.Task.{Task, pure, ask, require, ask_for_tag, get_chain, ◌>>=◌}
use tapioca.Builds.{
  build_multi_swapper, build_usd0, build_usdo_modules, build_usdo_flashloan_helper,
  build_simple_leverage_executor,
}
use tapioca.Setups.{build_usdo_flashloan_setup}
use tapioca.Utils.{load_vm}
use tapioca.Deploy.Lookup.{is_testnet}
use tapioca.Deploy.Stack.{
  StackInputs, find_weth, find_yield_box, find_cluster, base_queue, run_stack,
}

-- `VM.add` in the order of the task.
unfoldable pub linked_queue : StackInputs → List Build
unfolding base_queue build_multi_swapper build_usd0 build_usdo_modules build_usdo_flashloan_helper
    build_simple_leverage_executor
linked_queue s =
    base_queue s
    ++ build_usdo_modules (str s.chain_info.address) s.yield_box s.cluster
    ++ (build_usd0 (str s.chain_info.address) s.signer s.yield_box s.cluster
        ∷ build_usdo_flashloan_helper s.signer
        ∷ [])
    ++ (if s.testnet
        then build_multi_swapper s.v2_router s.v2_factory s.yield_box s.signer ∷ []
        else [])
    ++ (build_simple_leverage_executor s.cluster s.yield_box ∷ [])

unfoldable pub linked_prepare : Task Vm
linked_prepare = do
  tag ← ask_for_tag
  signer ← ask (λ w _. w.signer)
  vm ← load_vm tag
  chain_info ← get_chain
  let testnet = is_testnet chain_info
  found_weth ← find_weth tag chain_info testnet
  weth ← require (thrown "[-] Token not found") found_weth
  yield_box ← find_yield_box tag chain_info testnet
  cluster ← find_cluster tag chain_info testnet
  v2_router ← ask (λ w _. w.uniswap_v2_router chain_info.chain_id)
  v2_factory ← ask (λ w _. w.uniswap_v2_factory chain_info.chain_id)
  let s : StackInputs = record {
    chain_info = chain_info;
    testnet = testnet;
    weth = weth;
    yield_box = yield_box;
    cluster = cluster;
    signer = str signer;
    v2_router = v2_router;
    v2_factory = v2_factory;
  }
  pure (record vm { queue = linked_queue s })

unfoldable pub deploy_linked_chain_stack : Task (Unit {0})
deploy_linked_chain_stack = do vm ← linked_prepare; run_stack vm build_usdo_flashloan_setup
