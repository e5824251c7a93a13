-- ===== src/TapiocaZ/DeployBalancer.antt =====
-- TapiocaZ/tasks/deploy/deployBalancer.ts
pub mod Order
use tapioca.Base.{String, Bool, not, ◌&&◌, Option, none, some, [], ◌∷◌, is_some, if◌then◌else◌}
use tapioca.Hre.Types.{Build, Vm, str, no_meta, thrown}
use tapioca.Hre.Task.{
  Task, pure, ask, require, ask_for_tag, get_contract_factory, new_vm, add, execute, save, verify,
  ◌>>=◌, ◌>>◌,
}
use tapioca.TapiocaZ.Config.{StargateRouter, stargate_routers}

abbrev pub balancer_build : StargateRouter → String → Build
balancer_build stargate signer = record {
  factory = "Balancer";
  deployment_name = "Balancer";
  args = str stargate.router_eth ∷ str stargate.router ∷ str signer ∷ [];
  depends_on = [];
  meta = no_meta;
  run_static_simulation = none;
}

-- The part after the check for a deployment that is there. `save` is not awaited by the source.
unfoldable pub deploy_new_balancer : String → String → String → Task (Unit {0})
deploy_new_balancer tag signer chain_id = do
  stargate ← require (thrown "[-] No stargate router found for chainId") (stargate_routers chain_id)
  get_contract_factory "Balancer"
  deployer_vm ← new_vm tag
  let vm : Vm = add deployer_vm (balancer_build stargate signer)
  execute vm
  save vm
  verify vm

unfoldable pub deploy_balancer : Bool → Task (Unit {0})
deploy_balancer overwrite = do
  tag ← ask_for_tag
  signer ← ask (λ w _. w.signer)
  chain_id ← ask (λ w _. w.network_chain_id)
  prev_deployment ← ask (λ w t. w.get_local t chain_id "Balancer" tag)
  if is_some prev_deployment && not overwrite
      then pure tt
      else deploy_new_balancer tag signer chain_id
