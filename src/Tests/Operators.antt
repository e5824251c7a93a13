-- ===== src/Tests/Operators.antt =====
-- Runs of the tasks that make one call.
use tapioca.Base.{String, ◌≡◌, refl, ap, some, true, [], ◌∷◌}
use tapioca.Hre.Types.{prompted, str, Trace, sent}
use tapioca.Hre.Task.{
  ok, try_catch, ◌>>=◌, emit_if, guard, input, confirm, ask_for_tag, send, send_all, deploy,
  get_chain, get_local_contract, get_contract_at, view, view_text, view_length, abi_encode,
  encode_function_data, get_contract_factory, new_vm, execute, save, verify, try_verify, list,
  first_address,
}
use tapioca.Hre.Seen.{seen, is_tx}
use tapioca.Utils.{get_local_contract as get_contract_of}
use tapioca.Tests.{world}
use tapioca.Deploy.BigBangMarket.{execute_market_fn}
use tapioca.Exec.MarketConfig.{
  inputs, encode_misfit, execute_on_market, set_market_config, set_singularity_config,
  set_big_bang_config, market_address, set_cap,
}
use tapioca.Hre.Fails.{Fails}
use tapioca.Exec.Operators.{
  market_task, market_update_pause, set_leverage_executor, set_min_and_max_mint_range,
  set_min_and_max_mint_fee, set_asset_oracle, penrose_task, set_penrose_cluster,
  set_big_bang_eth_market_debt_rate, set_big_bang_eth_market, withdraw_fees,
  set_usdo_flashloan_helper, extract_fees, status_task, set_minter_status, set_burner_status,
  liquidation_task, set_liquidation_queue, set_liquidation_queue_bid_swapper,
  set_liquidation_queue_execution_swapper,
}
use tapioca.Exec.Operators.Order.{market_task-order}

abbrev executor_trace : Trace
executor_trace = (market_task "Market" "0x1" "setLeverageExecutor" (str "0x2" ∷ []) world []).1

executor_returns :
    (market_task "Market" "0x1" "setLeverageExecutor" (str "0x2" ∷ []) world []).0 ≡ ok tt
unfolding try_catch ◌>>=◌ emit_if guard input confirm ask_for_tag send send_all deploy get_chain
    get_local_contract get_contract_at view view_text view_length abi_encode encode_function_data
    get_contract_factory new_vm execute save verify try_verify list first_address inputs
    encode_misfit execute_on_market set_market_config set_singularity_config set_big_bang_config
    market_address set_cap market_task market_update_pause set_leverage_executor
    set_min_and_max_mint_range set_min_and_max_mint_fee set_asset_oracle penrose_task
    set_penrose_cluster set_big_bang_eth_market_debt_rate set_big_bang_eth_market withdraw_fees
    set_usdo_flashloan_helper extract_fees status_task set_minter_status set_burner_status
    liquidation_task set_liquidation_queue set_liquidation_queue_bid_swapper
    set_liquidation_queue_execution_swapper
executor_returns = refl

executor_run :
    market_task "Market" "0x1" "setLeverageExecutor" (str "0x2" ∷ []) world []
    ≡ (ok tt, executor_trace)
executor_run = ap (λ r. (r, executor_trace)) executor_returns

market_task-order_example :
    (penrose : String) × (market : String) × (call_data : String) × (world.local_contract
        (prompted "tag" ∷ [])
        "Penrose"
        (world.ask_for_tag [])
      ≡ some penrose)
    × (world.contract_at "Market" (str "0x1") ≡ some market)
    × (world.encode_function_data "setLeverageExecutor" (str "0x2" ∷ []) ≡ some call_data)
    × (seen is_tx executor_trace
        ≡ sent (execute_market_fn penrose market call_data) ∷ seen is_tx [])
market_task-order_example =
    market_task-order "Market" "0x1" "setLeverageExecutor" (str "0x2" ∷ []) world []
      {t' = executor_trace} executor_run

abbrev minter_trace : Trace
minter_trace = (status_task "setMinterStatus" "0x9" true world []).1
