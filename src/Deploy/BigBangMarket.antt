-- ===== src/Deploy/BigBangMarket.antt =====
-- Tapioca-bar/tasks/deploy/deployBigBangMarket.ts, from the modules on
pub mod Silent
pub mod Order
pub mod Faults
pub mod Oracle
use Prim.Native.String.{◌++◌}
use tapioca.Base.{String, ◌==◌, true, Option, none, some, List, [], ◌∷◌, if◌then◌else◌}
use tapioca.Hre.Types.{Val, str, bool, strs, TContract, no_meta, Call, Vm, thrown}
use tapioca.Hre.Task.{
  Task, pure, ask, require, input, get_local_contract, get_contract_at, view, view_length,
  abi_encode, encode_function_data, deploy, send, load, save, first_address, ◌>>=◌, ◌>>◌,
}
use tapioca.Setups.{tx}
use tapioca.Utils.{find_named, address_of}
use tapioca.Deploy.Lookup.{get_local, address_field, minus_one}
use tapioca.Deploy.BigBangOracles.{BigBangArgs, BigBangBasis, Oracles, bb_basis, bb_oracles}

pub record BigBangModules : Type 0 where
  pub liquidation : String
  pub collateral : String
  pub borrow : String
  pub leverage : String

-- The modules, the executor (which is not checked) and the answers.
pub record BigBangPlan : Type 0 where
  pub basis : BigBangBasis
  pub oracles : Oracles
  pub modules : BigBangModules
  pub leverage_executor : Option TContract
  pub exchange_rate_precision : String
  pub collateralization_rate : String
  pub liquidation_collateralization_rate : String
  pub debt_rate_against_eth : String
  pub debt_rate_min : String
  pub debt_rate_max : String

unfoldable pub bb_plan : BigBangArgs → BigBangBasis → Oracles → Task BigBangPlan
bb_plan args b os = do
  liquidation ← get_local_contract "BBLiquidation" b.tag
  collateral ← get_local_contract "BBCollateral" b.tag
  borrow ← get_local_contract "BBBorrow" b.tag
  leverage ← get_local_contract "BBLeverage" b.tag
  executor ←
      get_local (elim args.executor_name [ none ↦ "SimpleLeverageExecutor" | some n ↦ n ]) b.tag
  exchange_rate_precision ← input "exchangeRatePrecision"
  collateralization_rate ← input "collateralizationRate"
  liquidation_collateralization_rate ← input "liquidationCollateralizationRate"
  debt_rate_against_eth ← input "debtRateAgainstEth"
  debt_rate_min ← input "debtRateMin"
  debt_rate_max ← input "debtRateMax"
  pure (record {
    basis = b;
    oracles = os;
    modules = record {
      liquidation = liquidation;
      collateral = collateral;
      borrow = borrow;
      leverage = leverage;
    };
    leverage_executor = executor;
    exchange_rate_precision = exchange_rate_precision;
    collateralization_rate = collateralization_rate;
    liquidation_collateralization_rate = liquidation_collateralization_rate;
    debt_rate_against_eth = debt_rate_against_eth;
    debt_rate_min = debt_rate_min;
    debt_rate_max = debt_rate_max;
  })

abbrev pub bb_types : List String
bb_types =
    "address" ∷ "address" ∷ "address" ∷ "address" ∷ "address" ∷ "address" ∷ "uint256" ∷ "address"
    ∷ "uint256" ∷ "uint256" ∷ "uint256" ∷ "uint256" ∷ "uint256" ∷ "uint256" ∷ "address" ∷ []

unfoldable pub bb_init_args : BigBangPlan → String → String → List Val
bb_init_args p oracle_address executor_address =
    str p.modules.liquidation
    ∷ str p.modules.borrow
    ∷ str p.modules.collateral
    ∷ str p.modules.leverage
    ∷ str p.basis.penrose
    ∷ p.basis.collateral.address
    ∷ p.basis.collateral_id
    ∷ str oracle_address
    ∷ str p.exchange_rate_precision
    ∷ str p.debt_rate_against_eth
    ∷ str p.debt_rate_min
    ∷ str p.debt_rate_max
    ∷ str p.collateralization_rate
    ∷ str p.liquidation_collateralization_rate
    ∷ str executor_address
    ∷ []

-- `oracle?.address ?? VM.list()[0].address`
unfoldable pub oracle_address : Vm → Option TContract → Task String
oracle_address vm none = first_address vm
oracle_address vm (some o) = pure o.address

-- Deploys the market, then collects the arguments of `init`, and registers the market.
unfoldable pub bb_deploy : BigBangPlan → Task (Unit {0})
bb_deploy p = do
  bb ← deploy "BigBang" []
  oracle ← oracle_address p.oracles.vm p.oracles.oracle
  executor ← address_field p.leverage_executor
  init_data ← abi_encode bb_types (bb_init_args p oracle executor)
  send (tx bb "init" (str init_data ∷ []))
  send (tx p.basis.penrose "addBigBang" (str p.basis.medium_risk_mc.address ∷ str bb ∷ []))

-- Records the market that Penrose lists last, and gives its address.
unfoldable pub bb_record : BigBangPlan → Task String
bb_record p = do
  markets_length ← view_length (tx p.basis.penrose "bigBangMarkets" [])
  clone ← view (
      tx p.basis.penrose "clonesOf"
        (str p.basis.medium_risk_mc.address ∷ minus_one markets_length ∷ []))
  market ← get_contract_at "BigBang" clone
  save (
      load p.oracles.vm (
        record {
          name = "BigBang-" ++ p.basis.token.name;
          address = market;
          meta = record no_meta {
            is_big_bang_market = some true;
            collateral = some p.basis.collateral;
          };
        }
        ∷ []))
  pure market

-- `penrose.executeMarketFn([market], [data], true)`
abbrev pub execute_market_fn : String → String → String → Call
execute_market_fn penrose market call_data =
    tx penrose "executeMarketFn" (strs (market ∷ []) ∷ strs (call_data ∷ []) ∷ bool true ∷ [])

-- The market's asset oracle, its rights on USDO, and, with a debt rate of '0', its place as the
-- main market.
unfoldable pub bb_settings : BigBangPlan → String → Task (Unit {0})
unfolding find_named
bb_settings p market = do
  call_data ←
      encode_function_data "setAssetOracle" (address_of p.oracles.asset_oracle ∷ str "0x" ∷ [])
  send (execute_market_fn p.basis.penrose market call_data)
  found ← ask (λ w t. find_named "USDO" (w.load_local t p.basis.tag p.basis.chain_info.chain_id))
  usdo_deployment ← require (thrown "[-] USDO deployment not found") found
  usdo ← get_contract_at "USDO" (str usdo_deployment.address)
  send (tx usdo "setMinterStatus" (str market ∷ bool true ∷ []))
  send (tx usdo "setBurnerStatus" (str market ∷ bool true ∷ []))
  if p.debt_rate_against_eth == "0"
      then send (tx p.basis.penrose "setBigBangEthMarket" (str market ∷ []))
      else pure tt

unfoldable pub deploy_big_bang_market : BigBangArgs → Task (Unit {0})
deploy_big_bang_market args = do
  b ← bb_basis args
  os ← bb_oracles args b
  p ← bb_plan args b os
  bb_deploy p
  market ← bb_record p
  bb_settings p market
