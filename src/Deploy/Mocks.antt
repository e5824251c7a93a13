-- ===== src/Deploy/Mocks.antt =====
-- Tapioca-bar/tasks/deploy/04-deployOracleMock.ts and 1000-testDeployMockSwapper.ts, whose `save` is not awaited.
use Prim.Native.String.{◌++◌}
use tapioca.Base.{some, true, [], ◌∷◌}
use tapioca.Hre.Types.{Val, Build, Vm, no_meta, rejected}
use tapioca.Hre.Task.{
  Task, ask, ask_or, input, ask_for_tag, get_chain, add, execute, save, verify, ◌>>=◌, ◌>>◌,
}
use tapioca.Builds.{build_oracle_mock}
use tapioca.Utils.{load_vm, find_named, address_of}

-- The suffix is chosen among the names of the tokens.
unfoldable pub deploy_oracle_mock_task : Task (Unit {0})
deploy_oracle_mock_task = do
  tag ← ask_for_tag
  vm ← load_vm tag
  suffix ← input "oracleMockSuffix"
  rate ← input "rate"
  amount ← ask_or (rejected "parseEther") (λ w _. w.parse_ether rate)
  let whole : Vm = add vm (build_oracle_mock ("OracleMock" ++ suffix) ("OM" ++ suffix) amount)
  execute whole
  save whole
  verify whole

abbrev build_mock_swapper : Val → Build
build_mock_swapper yb = record {
  factory = "MockSwapper";
  deployment_name = "MockSwapper";
  args = yb ∷ [];
  depends_on = [];
  meta = no_meta;
  run_static_simulation = some true;
}

unfoldable pub test_deploy_mock_swapper : Task (Unit {0})
unfolding find_named
test_deploy_mock_swapper = do
  tag ← ask_for_tag
  vm ← load_vm tag
  chain_info ← get_chain
  yb_deployment ← ask (λ w t. find_named "YieldBox" (w.load_local t tag chain_info.chain_id))
  let whole : Vm = add vm (build_mock_swapper (address_of yb_deployment))
  execute whole
  save whole
  verify whole
