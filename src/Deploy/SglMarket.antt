-- ===== src/Deploy/SglMarket.antt =====
-- Tapioca-bar/tasks/deploy/deploySGLMarket.ts
pub mod Order
pub mod Progress
pub mod Returns
use tapioca.Base.{String, Option, none, some, true, List, [], ◌∷◌}
use tapioca.Hre.Types.{Val, str, TContract, AssetMeta, no_meta, Call, thrown}
use tapioca.Hre.Task.{
  Task, pure, ask, require, input, ask_for_tag, get_chain, get_local_contract, get_contract_at,
  view, view_text, view_length, abi_encode, deploy, send, load, save, ◌>>=◌, ◌>>◌,
}
use tapioca.Setups.{tx}
use tapioca.Utils.{load_vm, find_named, address_of}
use tapioca.Deploy.Strats.{load_strats}
use tapioca.Deploy.Lookup.{
  global_or_local, find_token_strategy, get_local, name_or, address_field, yield_box_id, minus_one,
}

pub record SglContracts : Type 0 where
  pub yield_box : String
  pub penrose : String
  pub usd0 : String
  pub sgl_liquidation : String
  pub sgl_collateral : String
  pub sgl_borrow : String
  pub sgl_leverage : String
  pub medium_risk_mc : TContract
  pub token : Option TContract

unfoldable pub load_contracts : String → Task SglContracts
unfolding find_named
load_contracts tag = do
  chain_info ← get_chain
  yb ← global_or_local tag "yieldbox" chain_info.chain_id "YieldBox"
  yield_box ← get_contract_at "YieldBox" (address_of yb)
  penrose ← get_local_contract "Penrose" tag
  usd0 ← get_local_contract "USDO" tag
  sgl_liquidation ← get_local_contract "SGLLiquidation" tag
  sgl_collateral ← get_local_contract "SGLCollateral" tag
  sgl_borrow ← get_local_contract "SGLBorrow" tag
  sgl_leverage ← get_local_contract "SGLLeverage" tag
  mc ← get_local "MediumRiskMC" tag
  medium_risk_mc ← require (thrown "[-] MediumRiskMC not found") mc
  tokens ← ask (λ w t. w.load_global t tag "tapiocaz" w.chain_id)
  token_name ← input "tokenName"
  pure (record {
    yield_box = yield_box;
    penrose = penrose;
    usd0 = usd0;
    sgl_liquidation = sgl_liquidation;
    sgl_collateral = sgl_collateral;
    sgl_borrow = sgl_borrow;
    sgl_leverage = sgl_leverage;
    medium_risk_mc = medium_risk_mc;
    token = find_named token_name tokens;
  })

-- The task's arguments; `overrideOptions` is not read.
pub record SglArgs : Type 0 where
  pub executor_name : Option String
  pub oracle_name : Option String
  pub token_strategy_name : Option String

-- `leverageExecutorFilter`
abbrev pub executor_filter : SglArgs → String
executor_filter args = elim args.executor_name [ none ↦ "SimpleLeverageExecutor" | some n ↦ n ]

-- What the task has found out when it begins to deploy.
pub record SglPlan : Type 0 where
  pub tag : String
  pub contracts : SglContracts
  pub asset : AssetMeta
  pub collateral : AssetMeta
  pub asset_id : Val
  pub collateral_id : Val
  pub oracle_address : String
  pub exchange_rate_precision : String
  pub collateralization_rate : String
  pub liquidation_collateralization_rate : String
  pub leverage_executor : TContract

-- From the start of the task to its last check, that of the leverage executor.
unfoldable pub sgl_prepare : SglArgs → Task SglPlan
sgl_prepare args = do
  tag ← ask_for_tag
  chain_info ← get_chain
  contracts ← load_contracts tag
  strats ← load_strats tag contracts.token args.oracle_name
  strategy_filter ← name_or args.token_strategy_name "ERC20WithoutStrategy-" contracts.token
  found ← find_token_strategy tag chain_info.chain_id strategy_filter
  token_strategy ←
      require (thrown "[-] Token strategy not found. Use deployEmptyStrategy to create one") found
  token_address ← address_field contracts.token
  let asset : AssetMeta = record {
    address = str contracts.usd0;
    strategy_address = strats.usd0_strategy_address;
  }
  let collateral : AssetMeta = record {
    address = str token_address;
    strategy_address = str token_strategy.address;
  }
  asset_id ← yield_box_id contracts.yield_box asset
  collateral_id ← yield_box_id contracts.yield_box collateral
  exchange_rate_precision ← input "exchangeRatePrecision"
  collateralization_rate ← input "collateralizationRate"
  liquidation_collateralization_rate ← input "liquidationCollateralizationRate"
  executor ← get_local (executor_filter args) tag
  leverage_executor ← require (thrown "[-] Leverage executor not found") executor
  pure (record {
    tag = tag;
    contracts = contracts;
    asset = asset;
    collateral = collateral;
    asset_id = asset_id;
    collateral_id = collateral_id;
    oracle_address = strats.oracle_address;
    exchange_rate_precision = exchange_rate_precision;
    collateralization_rate = collateralization_rate;
    liquidation_collateralization_rate = liquidation_collateralization_rate;
    leverage_executor = leverage_executor;
  })

abbrev pub sgl_types : List String
sgl_types =
    "address" ∷ "address" ∷ "address" ∷ "address" ∷ "address" ∷ "address" ∷ "uint256" ∷ "address"
    ∷ "uint256" ∷ "address" ∷ "uint256" ∷ "uint256" ∷ "uint256" ∷ "address" ∷ []

-- An answer of inquirer is a text, never `undefined`, so `exchangeRatePrecision ?? 1e18` is it.
unfoldable pub sgl_init_args : SglPlan → List Val
sgl_init_args p =
    str p.contracts.sgl_liquidation
    ∷ str p.contracts.sgl_borrow
    ∷ str p.contracts.sgl_collateral
    ∷ str p.contracts.sgl_leverage
    ∷ str p.contracts.penrose
    ∷ p.asset.address
    ∷ p.asset_id
    ∷ p.collateral.address
    ∷ p.collateral_id
    ∷ str p.oracle_address
    ∷ str p.exchange_rate_precision
    ∷ str p.collateralization_rate
    ∷ str p.liquidation_collateralization_rate
    ∷ str p.leverage_executor.address
    ∷ []

abbrev pub add_singularity : SglPlan → String → Call
add_singularity p sgl =
    tx p.contracts.penrose "addSingularity" (str p.contracts.medium_risk_mc.address ∷ str sgl ∷ [])

-- Deploys the market, initialises it and registers it in Penrose.
unfoldable pub sgl_deploy : SglPlan → Task (Unit {0})
sgl_deploy p = do
  sgl ← deploy "Singularity" []
  init_data ← abi_encode sgl_types (sgl_init_args p)
  send (tx sgl "init" (str init_data ∷ []))
  send (add_singularity p sgl)

-- Records the market that Penrose lists last.
unfoldable pub sgl_record : SglPlan → Task (Unit {0})
sgl_record p = do
  markets_length ← view_length (tx p.contracts.penrose "singularityMarkets" [])
  clone ← view (
      tx p.contracts.penrose "clonesOf"
        (str p.contracts.medium_risk_mc.address ∷ minus_one markets_length ∷ []))
  market ← get_contract_at "Singularity" clone
  name ← view_text (tx market "name" [])
  vm ← load_vm p.tag
  save (
      load vm (
        record {
          name = name;
          address = market;
          meta = record no_meta {
            is_sgl_market = some true;
            collateral = some p.collateral;
            asset = some p.asset;
          };
        }
        ∷ []))

unfoldable pub deploy_sgl_market : SglArgs → Task (Unit {0})
deploy_sgl_market args = do p ← sgl_prepare args; sgl_deploy p; sgl_record p
