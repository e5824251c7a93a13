-- ===== src/TapiocaZ/Balancer.antt =====
-- TapiocaZ/tasks/exec/balancer: the tasks that make one call on the Balancer.
pub mod Order
use tapioca.Base.{String, [], ◌∷◌}
use tapioca.Hre.Types.{str, bool, type_error}
use tapioca.Hre.Task.{
  Task, throw, input, confirm, ask_for_tag, get_local_contract, get_contract_at, send, ◌>>=◌,
}
use tapioca.Setups.{tx}

-- The Balancer of the local list, which each of these tasks begins with.
unfoldable pub on_balancer : (String → Task (Unit {0})) → Task (Unit {0})
on_balancer k = do
  tag ← ask_for_tag
  dep ← get_local_contract "Balancer" tag
  balancer ← get_contract_at "Balancer" (str dep)
  k balancer

unfoldable pub toggle_swap_eth : String → Task (Unit {0})
toggle_swap_eth balancer = do
  status ← confirm "status"
  send (tx balancer "setSwapEth" (bool status ∷ []))

unfoldable pub emergency_save_tokens : String → Task (Unit {0})
emergency_save_tokens balancer = do
  token ← input "token"
  amount ← input "amount"
  send (tx balancer "emergencySaveTokens" (str token ∷ str amount ∷ []))

unfoldable pub init_connected_oft : String → Task (Unit {0})
init_connected_oft balancer = do
  src_oft ← input "srcOft"
  dst_oft ← input "dstOft"
  dst_chain_id ← input "dstChainId"
  erc_data ← input "ercData"
  send (
      tx balancer "initConnectedOFT"
        (str src_oft ∷ str dst_chain_id ∷ str dst_oft ∷ str erc_data ∷ []))

unfoldable pub add_rebalance_amount : String → Task (Unit {0})
add_rebalance_amount balancer = do
  src_oft ← input "srcOft"
  dst_chain_id ← input "dstChainId"
  amount ← input "amount"
  send (tx balancer "addRebalanceAmount" (str src_oft ∷ str dst_chain_id ∷ str amount ∷ []))

unfoldable pub retry_revert_on_balancer : String → Task (Unit {0})
retry_revert_on_balancer balancer = do
  src_chain_id ← input "srcChainId"
  src_address ← input "srcAddress"
  nonce ← input "nonce"
  send (tx balancer "retryRevert" (str src_chain_id ∷ str src_address ∷ str nonce ∷ []))

-- The three tasks that follow call a function that TapiocaZ/contracts/Balancer.sol does not have: the property is undefined, and calling it throws when its arguments have been
-- evaluated, which is after the prompts.
unfoldable pub instant_redeem_local_on_balancer : String → Task (Unit {0})
instant_redeem_local_on_balancer balancer = do
  src_pool_id ← input "srcPoolId"
  amount_lp ← input "amountLP"
  to ← input "to"
  throw (type_error "instantRedeemLocal")

unfoldable pub redeem_local_on_balancer : String → Task (Unit {0})
redeem_local_on_balancer balancer = do
  dst_chain_id ← input "dstChainId"
  src_pool_id ← input "srcPoolId"
  dst_pool_id ← input "dstPoolId"
  refund_address ← input "refundAddress"
  amount_lp ← input "amountLP"
  to ← input "to"
  gas ← input "dstGasForCall"
  native_amount ← input "dstNativeAmount"
  native_addr ← input "dstNativeAddr"
  throw (type_error "redeemLocal")

unfoldable pub redeem_remote_on_balancer : String → Task (Unit {0})
redeem_remote_on_balancer balancer = do
  dst_chain_id ← input "dstChainId"
  src_pool_id ← input "srcPoolId"
  dst_pool_id ← input "dstPoolId"
  refund_address ← input "refundAddress"
  amount_lp ← input "amountLP"
  min_amount_ld ← input "minAmountLD"
  to ← input "to"
  gas ← input "dstGasForCall"
  native_amount ← input "dstNativeAmount"
  native_addr ← input "dstNativeAddr"
  throw (type_error "redeemRemote")

-- The tasks that TapiocaZ/tasks/scopes/balancerScope.ts registers.
pub data BalancerTask : Type 0 where
  toggle_swap : BalancerTask
  emergency_save : BalancerTask
  init_connected : BalancerTask
  add_rebalance : BalancerTask
  retry_revert : BalancerTask
  instant_redeem_local : BalancerTask
  redeem_local : BalancerTask
  redeem_remote : BalancerTask

unfoldable pub balancer_body : BalancerTask → String → Task (Unit {0})
balancer_body toggle_swap = toggle_swap_eth
balancer_body emergency_save = emergency_save_tokens
balancer_body init_connected = init_connected_oft
balancer_body add_rebalance = add_rebalance_amount
balancer_body retry_revert = retry_revert_on_balancer
balancer_body instant_redeem_local = instant_redeem_local_on_balancer
balancer_body redeem_local = redeem_local_on_balancer
balancer_body redeem_remote = redeem_remote_on_balancer

unfoldable pub balancer_task : BalancerTask → Task (Unit {0})
balancer_task t = on_balancer (balancer_body t)
