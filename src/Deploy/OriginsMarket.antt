-- ===== src/Deploy/OriginsMarket.antt =====
-- Tapioca-bar/tasks/deploy/deployOriginsMarket.ts
pub mod Order
use tapioca.Base.{String, true, false, Option, some, List, [], ◌∷◌}
use tapioca.Hre.Types.{Val, str, bool, TContract, AssetMeta, no_meta, ChainInfo, thrown}
use tapioca.Hre.Task.{
  Task, pure, ask, require, input, ask_for_tag, get_chain, get_local_contract, get_contract_at,
  view_text, deploy, send, load, save, ◌>>=◌, ◌>>◌,
}
use tapioca.Setups.{tx}
use tapioca.Utils.{load_vm, find_named}
use tapioca.Deploy.Lookup.{find_token_strategy, name_or, yield_box_id}
use tapioca.Deploy.Strats.{load_strats}

-- `loadContracts` of this file: the token is given by its address.
pub record OriginsContracts : Type 0 where
  pub yield_box : String
  pub penrose : String
  pub usd0 : String
  pub token : TContract

unfoldable pub load_origins_contracts : String → Task OriginsContracts
load_origins_contracts tag = do
  yield_box ← get_local_contract "YieldBox" tag
  penrose ← get_local_contract "Penrose" tag
  usd0 ← get_local_contract "USDO" tag
  token_address ← input "tokenAddress"
  erc_token ← get_contract_at "IERC20Metadata" (str token_address)
  name ← view_text (tx erc_token "name" [])
  pure (record {
    yield_box = yield_box;
    penrose = penrose;
    usd0 = usd0;
    token = record { name = name; address = erc_token; meta = no_meta };
  })

-- The task's arguments; `executorName` and `overrideOptions` are not read.
pub record OriginsArgs : Type 0 where
  pub oracle_name : Option String
  pub token_strategy_name : Option String

pub record OriginsPlan : Type 0 where
  pub tag : String
  pub chain_info : ChainInfo
  pub contracts : OriginsContracts
  pub asset : AssetMeta
  pub collateral : AssetMeta
  pub asset_id : Val
  pub collateral_id : Val
  pub oracle_address : String
  pub exchange_rate_precision : String
  pub collateralization_rate : String
  pub deployer : String

-- `loadStrats` of this file has the text of that in deploySGLMarket.ts.
unfoldable pub origins_prepare : OriginsArgs → Task OriginsPlan
origins_prepare args = do
  tag ← ask_for_tag
  chain_info ← get_chain
  contracts ← load_origins_contracts tag
  strats ← load_strats tag (some contracts.token) args.oracle_name
  strategy_filter ← name_or args.token_strategy_name "ERC20WithoutStrategy-" (some contracts.token)
  found ← find_token_strategy tag chain_info.chain_id strategy_filter
  token_strategy ←
      require (thrown "[-] Token strategy not found. Use deployEmptyStrategy to create one") found
  let asset : AssetMeta = record {
    address = str contracts.usd0;
    strategy_address = strats.usd0_strategy_address;
  }
  let collateral : AssetMeta = record {
    address = str contracts.token.address;
    strategy_address = str token_strategy.address;
  }
  asset_id ← yield_box_id contracts.yield_box asset
  collateral_id ← yield_box_id contracts.yield_box collateral
  exchange_rate_precision ← input "exchangeRatePrecision"
  collateralization_rate ← input "collateralizationRate"
  deployer ← ask (λ w _. w.signer)
  pure (record {
    tag = tag;
    chain_info = chain_info;
    contracts = contracts;
    asset = asset;
    collateral = collateral;
    asset_id = asset_id;
    collateral_id = collateral_id;
    oracle_address = strats.oracle_address;
    exchange_rate_precision = exchange_rate_precision;
    collateralization_rate = collateralization_rate;
    deployer = deployer;
  })

abbrev pub origins_args : OriginsPlan → List Val
origins_args p =
    str p.deployer
    ∷ str p.contracts.yield_box
    ∷ p.asset.address
    ∷ p.asset_id
    ∷ p.collateral.address
    ∷ p.collateral_id
    ∷ str p.oracle_address
    ∷ str p.exchange_rate_precision
    ∷ str p.collateralization_rate
    ∷ []

-- Deploys the market and saves it, gives it its rights on USDO, and registers it in Penrose last.
unfoldable pub origins_deploy : OriginsPlan → Task (Unit {0})
unfolding find_named
origins_deploy p = do
  origins ← deploy "Origins" (origins_args p)
  vm ← load_vm p.tag
  save (
      load vm (
        record {
          name = "Origins";
          address = origins;
          meta = record no_meta {
            is_sgl_market = some false;
            collateral = some p.collateral;
            asset = some p.asset;
          };
        }
        ∷ []))
  found ← ask (λ w t. find_named "USDO" (w.load_local t p.tag p.chain_info.chain_id))
  usdo_deployment ← require (thrown "[-] USDO deployment not found") found
  usdo ← get_contract_at "USDO" (str usdo_deployment.address)
  send (tx usdo "setMinterStatus" (str origins ∷ bool true ∷ []))
  send (tx usdo "setBurnerStatus" (str origins ∷ bool true ∷ []))
  send (tx p.contracts.penrose "addOriginsMarket" (str origins ∷ []))

unfoldable pub deploy_origins_market : OriginsArgs → Task (Unit {0})
deploy_origins_market args = do p ← origins_prepare args; origins_deploy p
