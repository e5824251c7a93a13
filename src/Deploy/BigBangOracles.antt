-- ===== src/Deploy/BigBangOracles.antt =====
-- Tapioca-bar/tasks/deploy/deployBigBangMarket.ts, up to the oracles
use Prim.Native.String.{◌++◌}
use tapioca.Base.{String, Bool, true, false, Option, none, some, or_else, if◌then◌else◌}
use tapioca.Hre.Types.{Val, str, TContract, AssetMeta, Vm, ChainInfo, thrown, type_error, rejected}
use tapioca.Hre.Task.{
  Task, pure, ask, ask_or, require, guard, input, ask_for_tag, get_chain, get_local_contract,
  get_contract_at, add, execute, save, try_verify, ◌>>=◌, ◌>>◌,
}
use tapioca.Builds.{build_oracle_mock}
use tapioca.Utils.{load_vm, find_named, find_prefixed, address_of}
use tapioca.Deploy.Lookup.{
  global_or_local, find_oracle, find_token_strategy, get_local, name_or, is_testnet, yield_box_id,
}

-- The task's arguments; `overrideOptions` is not read.
pub record BigBangArgs : Type 0 where
  pub executor_name : Option String
  pub token_strategy_name : Option String
  pub oracle_name : Option String
  pub asset_oracle_name : Option String

-- What the lookups at the start of the task give.
pub record BigBangBasis : Type 0 where
  pub tag : String
  pub chain_info : ChainInfo
  pub penrose : String
  pub medium_risk_mc : TContract
  pub token : TContract
  pub collateral : AssetMeta
  pub collateral_id : Val

unfoldable pub bb_basis : BigBangArgs → Task BigBangBasis
unfolding find_named
bb_basis args = do
  tag ← ask_for_tag
  chain_info ← get_chain
  yb ← global_or_local tag "yieldbox" chain_info.chain_id "YieldBox"
  yield_box ← get_contract_at "YieldBox" (address_of yb)
  penrose ← get_local_contract "Penrose" tag
  mc ← get_local "BigBangMediumRiskMC" tag
  medium_risk_mc ← require (thrown "[-] BigBangMediumRiskMC not found") mc
  project_name ← input "projectName"
  tokens ← ask (λ w t. w.load_global t tag project_name w.chain_id)
  token_name ← input "tokenName"
  let found_token = find_named token_name tokens
  strategy_filter ← name_or args.token_strategy_name "ERC20WithoutStrategy-" found_token
  found ← find_token_strategy tag chain_info.chain_id strategy_filter
  token_strategy ←
      require (thrown "[-] Token strategy not found. Use deployEmptyStrategy to create one") found
  token ← require (type_error "address") found_token
  let collateral : AssetMeta = record {
    address = str token.address;
    strategy_address = str token_strategy.address;
  }
  collateral_id ← yield_box_id yield_box collateral
  pure (record {
    tag = tag;
    chain_info = chain_info;
    penrose = penrose;
    medium_risk_mc = medium_risk_mc;
    token = token;
    collateral = collateral;
    collateral_id = collateral_id;
  })

-- The deployer's queue, and what the two lookups found.
pub record Oracles : Type 0 where
  pub vm : Vm
  pub should_save : Bool
  pub oracle : Option TContract
  pub asset_oracle : Option TContract

-- The market's oracle: without one, a mock is queued on a test network.
unfoldable pub queue_oracle : BigBangBasis → Vm → Option TContract → Task Oracles
queue_oracle b vm (some oracle) =
    pure (record { vm = vm; should_save = false; oracle = some oracle; asset_oracle = none })
queue_oracle b vm none = do
  guard (is_testnet b.chain_info) (thrown "[-] Oracle not found")
  oracle_rate ← input "oracleRate"
  rate ← ask_or (rejected "parseEther") (λ w _. w.parse_ether oracle_rate)
  let mock = build_oracle_mock ("OracleMock-" ++ b.token.name) ("OCM-" ++ b.token.name) rate
  pure (record { vm = add vm mock; should_save = true; oracle = none; asset_oracle = none })

-- The asset's oracle, likewise.
unfoldable pub queue_asset_oracle : BigBangBasis → Oracles → Option TContract → Task Oracles
queue_asset_oracle b os (some asset_oracle) = pure (record os { asset_oracle = some asset_oracle })
queue_asset_oracle b os none = do
  guard (is_testnet b.chain_info) (thrown "[-] Asset oracle not found")
  rate ← ask_or (rejected "parseEther") (λ w _. w.parse_ether "1")
  let mock = build_oracle_mock "AssetOracleMock" ("OCM-" ++ b.token.name) rate
  pure (record os { vm = add os.vm mock; should_save = true; asset_oracle = none })

-- Deploys what is queued, and looks both oracles up again, each by its mock's name.
unfoldable pub save_oracles : BigBangBasis → Oracles → Task Oracles
unfolding find_named find_prefixed
save_oracles b os = do
  execute os.vm
  save os.vm
  try_verify os.vm
  oracle ← ask (λ w t.
      find_prefixed ("OracleMock-" ++ b.token.name) (w.load_local t b.tag b.chain_info.chain_id))
  asset_oracle ←
      ask (λ w t. find_named "AssetOracleMock" (w.load_local t b.tag b.chain_info.chain_id))
  pure (record os { oracle = oracle; asset_oracle = asset_oracle })

unfoldable pub bb_oracles : BigBangArgs → BigBangBasis → Task Oracles
unfolding find_named
bb_oracles args b = do
  oracle_filter_name ← name_or args.oracle_name "OracleMock-" (some b.token)
  found ← find_oracle b.tag b.chain_info.chain_id oracle_filter_name
  vm ← load_vm b.tag
  first_os ← queue_oracle b vm found
  let asset_filter : String = elim args.asset_oracle_name [ none ↦ "AssetOracleMock" | some n ↦ n ]
  asset_oracle ← ask (λ w t.
      or_else (find_named asset_filter (w.load_local t b.tag b.chain_info.chain_id))
        (find_named asset_filter (w.load_global t b.tag "tapioca-periphery" b.chain_info.chain_id)))
  os ← queue_asset_oracle b first_os asset_oracle
  if os.should_save then save_oracles b os else pure os
