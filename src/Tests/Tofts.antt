-- ===== src/Tests/Tofts.antt =====
-- Runs of the tasks of TapiocaZ.
use tapioca.Base.{
  String, ◌≡◌, ◌≢◌, ◌⊎◌, refl, ap, none, some, true, false, not, List, [], ◌∷◌, All, if◌then◌else◌,
  ◌==◌, ◌&&◌,
}
use tapioca.Hre.Types.{
  vm_executed, prompted, str, TContract, Trace, Vm, sent, no_meta, vm_saved, vm_verified,
}
use tapioca.Hre.World.{World}
use tapioca.Hre.Task.{
  ok, try_catch, ◌>>=◌, emit_if, guard, input, confirm, ask_for_tag, send, send_all, deploy,
  get_chain, get_local_contract, get_contract_at, view, view_text, view_length, abi_encode,
  encode_function_data, get_contract_factory, new_vm, execute, save, verify, try_verify, list,
  first_address,
}
use tapioca.Hre.Seen.{seen, is_tx, is_effect}
use tapioca.Tests.{world, entry}
use tapioca.TapiocaZ.Builds.{
  build, build_toft, build_mtoft, build_toft_sender_module, build_toft_receiver_module,
  build_toft_market_receiver_module, build_toft_options_receiver_module,
  build_toft_generic_receiver_module,
}
use tapioca.TapiocaZ.Config.{stargate_routers, use_network}
use tapioca.TapiocaZ.DeployToft.{
  token_names, build_init_struct, module_address, add_modules, module_struct, create_toft_modules,
  deploy_one, deploy_token, deploy_tokens, deploy_connected, toft_inputs, deploy_toft,
}
use tapioca.TapiocaZ.DeployToft.Dropped.{HasNoToft, deploy_toft-NoToft}
use tapioca.TapiocaZ.DeployToft.Missing.{deploy_toft_host-missing_module}
use tapioca.TapiocaZ.DeployToft.Connected.{deploy_toft_connected-nothing}
use tapioca.TapiocaZ.DeployBalancer.{deploy_new_balancer, deploy_balancer}
use tapioca.TapiocaZ.DeployBalancer.Order.{has_balancer, Deploys, deploy_balancer-outcome}
use tapioca.TapiocaZ.Balancer.{
  on_balancer, toggle_swap_eth, emergency_save_tokens, init_connected_oft, add_rebalance_amount,
  retry_revert_on_balancer, instant_redeem_local_on_balancer, redeem_local_on_balancer,
  redeem_remote_on_balancer, balancer_body, balancer_task, init_connected,
}
use tapioca.TapiocaZ.Balancer.Order.{Parameter, function_of, balancer_call, balancer_task-order}
use tapioca.TapiocaZ.ToftMinter.{deploy_toft_minter}
use tapioca.TapiocaZ.ToftMinter.Recorded.{AreRecorded, deploy_toft_minter-AreRecorded}

deploy_toft-NoToft_example : All HasNoToft (deploy_toft none true world []).1
deploy_toft-NoToft_example = deploy_toft-NoToft none true world [] tt

-- The contracts of the repository: none has the name that the module's builder asks for.
abbrev repository_world : World
repository_world = record world {
  has_artifact = λ name. if name == "buildTOFTGenericReceiverModule" then false else true;
}

deploy_toft_host-missing_module_example :
    ((u : Unit {0}) → (deploy_toft none true repository_world []).0 ≢ ok u)
    × (seen is_effect (deploy_toft none true repository_world []).1 ≡ seen is_effect [])
deploy_toft_host-missing_module_example =
    deploy_toft_host-missing_module none repository_world [] refl

abbrev connected_trace : Trace
connected_trace = (deploy_toft none false world []).1

connected_returns : (deploy_toft none false world []).0 ≡ ok tt
unfolding try_catch ◌>>=◌ emit_if guard input confirm ask_for_tag send send_all deploy get_chain
    get_local_contract get_contract_at view view_text view_length abi_encode encode_function_data
    get_contract_factory new_vm execute save verify try_verify list first_address token_names
    build_init_struct module_address add_modules module_struct create_toft_modules deploy_one
    deploy_token deploy_tokens deploy_connected toft_inputs deploy_toft build build_toft build_mtoft
    build_toft_sender_module build_toft_receiver_module build_toft_market_receiver_module
    build_toft_options_receiver_module build_toft_generic_receiver_module stargate_routers
    use_network
connected_returns = refl

connected_run : deploy_toft none false world [] ≡ (ok tt, connected_trace)
connected_run = ap (λ r. (r, connected_trace)) connected_returns

deploy_toft_connected-nothing_example :
    (vm : Vm) × (vm.queue ≡ [])
    × (seen is_effect connected_trace
        ≡ vm_verified vm ∷ vm_saved vm ∷ vm_executed vm ∷ seen is_effect [])
deploy_toft_connected-nothing_example =
    deploy_toft_connected-nothing none world [] {t' = connected_trace} connected_run

abbrev balancer_trace : Trace
balancer_trace = (deploy_balancer true world []).1

balancer_returns : (deploy_balancer true world []).0 ≡ ok tt
unfolding try_catch ◌>>=◌ emit_if guard input confirm ask_for_tag send send_all deploy get_chain
    get_local_contract get_contract_at view view_text view_length abi_encode encode_function_data
    get_contract_factory new_vm execute save verify try_verify list first_address
    deploy_new_balancer deploy_balancer stargate_routers use_network
balancer_returns = refl

balancer_run : deploy_balancer true world [] ≡ (ok tt, balancer_trace)
balancer_run = ap (λ r. (r, balancer_trace)) balancer_returns

deploy_balancer-outcome_example :
    (((has_balancer world [] && not true) ≡ true)
      × (seen is_effect balancer_trace ≡ seen is_effect []))
    ⊎ (((has_balancer world [] && not true) ≡ false) × Deploys world [] balancer_trace)
deploy_balancer-outcome_example =
    deploy_balancer-outcome true world [] {t' = balancer_trace} balancer_run

abbrev connect_trace : Trace
connect_trace = (balancer_task init_connected world []).1

connect_returns : (balancer_task init_connected world []).0 ≡ ok tt
unfolding try_catch ◌>>=◌ emit_if guard input confirm ask_for_tag send send_all deploy get_chain
    get_local_contract get_contract_at view view_text view_length abi_encode encode_function_data
    get_contract_factory new_vm execute save verify try_verify list first_address on_balancer
    toggle_swap_eth emergency_save_tokens init_connected_oft add_rebalance_amount
    retry_revert_on_balancer instant_redeem_local_on_balancer redeem_local_on_balancer
    redeem_remote_on_balancer balancer_body balancer_task
connect_returns = refl

connect_run : balancer_task init_connected world [] ≡ (ok tt, connect_trace)
connect_run = ap (λ r. (r, connect_trace)) connect_returns

balancer_task-order_example :
    (balancer : String) × (dep : String) × (f : String × List Parameter) × (world.local_contract
        (prompted "tag" ∷ [])
        "Balancer"
        (world.ask_for_tag [])
      ≡ some dep)
    × (world.contract_at "Balancer" (str dep) ≡ some balancer)
    × (function_of init_connected ≡ some f)
    × (seen is_tx connect_trace
        ≡ sent (balancer_call world (prompted "tag" ∷ []) balancer init_connected f)
          ∷ seen is_tx [])
balancer_task-order_example =
    balancer_task-order init_connected world [] {t' = connect_trace} connect_run

-- A TOFT on its host chain.
abbrev host_toft : TContract
host_toft = record {
  name = "TapiocaOFT T";
  address = "0x8";
  meta = record no_meta { is_toft_host = some true };
}

abbrev host_world : World
host_world = record world { load_local = λ _ _ _. host_toft ∷ entry "USDO" ∷ [] }

deploy_toft_minter-AreRecorded_example : AreRecorded (deploy_toft_minter true host_world []).1
deploy_toft_minter-AreRecorded_example = deploy_toft_minter-AreRecorded true host_world [] refl
