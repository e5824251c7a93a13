-- ===== src/Exec/Operators.antt =====
-- Tapioca-bar/tasks/exec: the tasks that make one call on a market, on Penrose or on USDO.
pub mod Order
use tapioca.Base.{String, Bool, List, [], ◌∷◌}
use tapioca.Hre.Types.{Val, str, bool, strs, thrown}
use tapioca.Hre.Task.{
  Task, ask, require, ask_for_tag, get_chain, get_local_contract, get_contract_at, send, ◌>>=◌,
}
use tapioca.Setups.{tx}
use tapioca.Utils.{find_named, get_deployment, get_singularity_contract}
use tapioca.Deploy.BigBangMarket.{execute_market_fn}
use tapioca.Exec.MarketConfig.{encode_misfit, execute_on_market}

-- What 02, 06, 07 and 08 have in common.
unfoldable pub market_task : String → String → String → List Val → Task (Unit {0})
market_task artifact address fn args = do
  tag ← ask_for_tag
  penrose ← get_local_contract "Penrose" tag
  market ← get_contract_at artifact (str address)
  execute_on_market penrose market fn args

-- `updatePause` is not a function of Tapioca-bar/contracts/markets/Market.sol, but of the markets
-- that extend it.
unfoldable pub market_update_pause : String → String → Bool → Task (Unit {0})
market_update_pause market_arg type status = do
  tag ← ask_for_tag
  penrose ← get_local_contract "Penrose" tag
  market ← get_contract_at "Market" (str market_arg)
  call_data ← encode_misfit "updatePause" (str type ∷ bool status ∷ [])
  send (execute_market_fn penrose market call_data)

unfoldable pub set_leverage_executor : String → String → Task (Unit {0})
set_leverage_executor market executor =
    market_task "Market" market "setLeverageExecutor" (str executor ∷ [])

unfoldable pub set_min_and_max_mint_range : String → String → String → Task (Unit {0})
set_min_and_max_mint_range bb start end =
    market_task "BigBang" bb "setMinAndMaxMintRange" (str start ∷ str end ∷ [])

unfoldable pub set_min_and_max_mint_fee : String → String → String → Task (Unit {0})
set_min_and_max_mint_fee bb min max =
    market_task "BigBang" bb "setMinAndMaxMintFee" (str min ∷ str max ∷ [])

unfoldable pub set_asset_oracle : String → String → String → Task (Unit {0})
set_asset_oracle bb oracle oracle_data =
    market_task "BigBang" bb "setAssetOracle" (str oracle ∷ str oracle_data ∷ [])

-- What 10 to 13 have in common; the argument `penrose` of these tasks is not read.
unfoldable pub penrose_task : String → List Val → Task (Unit {0})
penrose_task fn args = do
  tag ← ask_for_tag
  penrose ← get_local_contract "Penrose" tag
  send (tx penrose fn args)

unfoldable pub set_penrose_cluster : String → Task (Unit {0})
set_penrose_cluster cluster = penrose_task "setCluster" (str cluster ∷ [])

unfoldable pub set_big_bang_eth_market_debt_rate : String → Task (Unit {0})
set_big_bang_eth_market_debt_rate rate = penrose_task "setBigBangEthMarketDebtRate" (str rate ∷ [])

unfoldable pub set_big_bang_eth_market : String → Task (Unit {0})
set_big_bang_eth_market bb = penrose_task "setBigBangEthMarket" (str bb ∷ [])

unfoldable pub withdraw_fees : String → List String → Task (Unit {0})
withdraw_fees tw_tap markets = penrose_task "withdrawAllMarketFees" (strs markets ∷ str tw_tap ∷ [])

unfoldable pub set_usdo_flashloan_helper : String → String → Task (Unit {0})
set_usdo_flashloan_helper usdo helper = do
  contract ← get_contract_at "USDO" (str usdo)
  send (tx contract "setFlashloanHelper" (str helper ∷ []))

unfoldable pub extract_fees : String → Task (Unit {0})
extract_fees usdo = do
  contract ← get_contract_at "USDO" (str usdo)
  send (tx contract "extractFees" [])

-- What setMinterStatus.ts and setBurnerStatus.ts have in common.
unfoldable pub status_task : String → String → Bool → Task (Unit {0})
unfolding find_named
status_task fn operator status = do
  tag ← ask_for_tag
  chain_info ← get_chain
  found ← ask (λ w t. find_named "USDO" (w.load_local t tag chain_info.chain_id))
  usdo_deployment ← require (thrown "[-] USDO not found") found
  usdo ← get_contract_at "USDO" (str usdo_deployment.address)
  send (tx usdo fn (str operator ∷ bool status ∷ []))

unfoldable pub set_minter_status : String → Bool → Task (Unit {0})
set_minter_status operator status = status_task "setMinterStatus" operator status

unfoldable pub set_burner_status : String → Bool → Task (Unit {0})
set_burner_status operator status = status_task "setBurnerStatus" operator status

-- What the three tasks of the liquidation queue have in common. The functions they encode are not
-- among those of Tapioca-bar/contracts/markets/singularity/Singularity.sol.
unfoldable pub liquidation_task : String → String → List Val → Task (Unit {0})
liquidation_task singularity fn args = do
  penrose ← get_deployment "Penrose"
  contract ← get_singularity_contract singularity
  call_data ← encode_misfit fn args
  send (execute_market_fn penrose singularity call_data)

unfoldable pub set_liquidation_queue : String → String → String → Task (Unit {0})
set_liquidation_queue singularity liquidation_queue meta =
    liquidation_task singularity "setLiquidationQueue" (str liquidation_queue ∷ str meta ∷ [])

unfoldable pub set_liquidation_queue_bid_swapper : String → String → Task (Unit {0})
set_liquidation_queue_bid_swapper singularity swapper =
    liquidation_task singularity "updateLQUsdoSwapper" (str swapper ∷ [])

unfoldable pub set_liquidation_queue_execution_swapper : String → String → Task (Unit {0})
set_liquidation_queue_execution_swapper singularity swapper =
    liquidation_task singularity "updateLQExecutionSwapper" (str swapper ∷ [])
