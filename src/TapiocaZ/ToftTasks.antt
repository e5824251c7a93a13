-- ===== src/TapiocaZ/ToftTasks.antt =====
-- TapiocaZ/tasks/exec/toft: the tasks that make one call on a TOFT or an mTOFT.
pub mod Order
use tapioca.Base.{String, Bool, [], ◌∷◌, if◌then◌else◌}
use tapioca.Hre.Types.{Val, str, bool}
use tapioca.Hre.Task.{Task, input, confirm, get_contract_at, send, ◌>>=◌}
use tapioca.Setups.{tx}

unfoldable pub update_connected_chain : String → Task (Unit {0})
update_connected_chain address = do
  mtoft ← get_contract_at "mTOFT" (str address)
  chain ← input "chain"
  send (tx mtoft "setConnectedChain" (str chain ∷ []))

unfoldable pub update_balancer_state : String → Task (Unit {0})
update_balancer_state address = do
  balancer ← input "balancer"
  status ← confirm "status"
  mtoft ← get_contract_at "mTOFT" (str address)
  send (tx mtoft "updateBalancerState" (str balancer ∷ bool status ∷ []))

-- `args.oft ? 'TOFT' : 'mTOFT'`
unfoldable pub toft_at : Bool → String → Task String
toft_at oft address =
    if oft then get_contract_at "TOFT" (str address) else get_contract_at "mTOFT" (str address)

unfoldable pub rescue_eth_from_oft : String → Bool → Task (Unit {0})
rescue_eth_from_oft address oft = do
  toft ← toft_at oft address
  to ← input "to"
  amount ← input "amount"
  send (tx toft "rescueEth" (str amount ∷ str to ∷ []))

unfoldable pub set_stargate_router_on_oft : String → Task (Unit {0})
set_stargate_router_on_oft address = do
  toft ← get_contract_at "mTOFT" (str address)
  router ← input "router"
  send (tx toft "setStargateRouter" (str router ∷ []))

unfoldable pub set_cluster : String → String → Bool → Task (Unit {0})
set_cluster address cluster oft = do
  toft ← toft_at oft address
  send (tx toft "setCluster" (str cluster ∷ []))
