-- ===== src/Tests/Operations.antt =====
-- Runs of the operators' tasks.
use tapioca.Base.{
  String, ◌≡◌, ◌⊎◌, refl, ap, none, true, false, not, List, [], ◌∷◌, map, filter, find, any,
  contains, All, is_empty, if◌then◌else◌, ◌==◌,
}
use tapioca.Hre.Types.{str, num, TContract, Build, Call, Trace, Vm, sent, no_meta}
use tapioca.Hre.World.{World}
use tapioca.Hre.Task.{
  ok, try_catch, ◌>>=◌, emit_if, guard, input, confirm, ask_for_tag, send, send_all, deploy,
  get_chain, get_local_contract, get_contract_at, view, view_text, view_length, abi_encode,
  encode_function_data, get_contract_factory, new_vm, execute, save, verify, try_verify, list,
  first_address,
}
use tapioca.Hre.Seen.{seen, is_tx, is_effect}
use tapioca.Utils.{
  find_named, find_prefixed, load_vm, get_after_dep_contract, deployments, get_deployment,
  get_singularity_contract, get_big_bang_contract, transfer_one, transfer_ownership,
  get_local_contract as get_contract_of, address_of,
}
use tapioca.Deploy.Lookup.{
  global_or_local, find_oracle, find_token_strategy, get_local, name_of, address_field, name_or,
  yield_box_id,
}
use tapioca.Builds.{build_empty_strat}
use tapioca.Setups.{
  build_penrose_setup, build_master_contracts_setup, build_usdo_flashloan_setup,
  build_cluster_setup, register_calls, build_yield_box_assets, register_strat_for,
  build_oracle_mock_setup, MultiCall, tx, is_strategy,
}
use tapioca.Tests.{world}
use tapioca.Hre.Sends.{reverse_onto, Refusal}
use tapioca.Utils.Ownership.{HandOvers, transfer_ownership-order}
use tapioca.Deploy.Stack.{multicall_args}
use tapioca.Deploy.EmptyStrats.{
  strat_type, selection, strat_tokens, add_strats, deploy_empty_strats,
}
use tapioca.Deploy.EmptyStrats.Order.{
  AreSelected, strat_build, strat_events, deploy_empty_strats-order,
}
use tapioca.Exec.PacketTypes.{packet_types, configure_packet_types}
use tapioca.Exec.PacketTypes.Order.{packet_calls, configure_packet_types-outcome}
use tapioca.Exec.RegisterYbAssets.{
  holds, prune_local, serves, find_strategies, filter_strategies, asset_deps, register_yb_assets,
}
use tapioca.Exec.RegisterYbAssets.Order.{AreDeps, Registers, register_yb_assets-order}
use tapioca.Exec.FillCluster.{
  wanted, load_contracts_from_project, load_from_projects, load_all_contracts, fill_chain,
  fill_chains, fill_cluster, batch_update,
}
use tapioca.Exec.FillCluster.Order.{AreListed, IsCluster, Batches, fill_cluster-order}

abbrev no_adapter_world : World
no_adapter_world = record world {
  accepts = λ _ c. if c.fn == "setUseCustomAdapterParams" then false else true;
}

configure_packet_types-outcome_example :
    let calls = packet_calls "Singularity" "102" packet_types in
    let run = configure_packet_types "0x1" "102" "Singularity" no_adapter_world [] in
    (run ≡ (ok tt, reverse_onto calls [])) ⊎ Refusal calls no_adapter_world [] run
configure_packet_types-outcome_example =
    configure_packet_types-outcome "0x1" "102" "Singularity" "Singularity" no_adapter_world [] refl

abbrev usdo_build : Build
usdo_build = record {
  factory = "USDO";
  deployment_name = "USDO";
  args = [];
  depends_on = [];
  meta = no_meta;
  run_static_simulation = none;
}

abbrev ownership_trace : Trace
ownership_trace =
    (transfer_ownership "default" "5" "0xSafe" (usdo_build ∷ usdo_build ∷ []) world []).1

ownership_returns :
    (transfer_ownership "default" "5" "0xSafe" (usdo_build ∷ usdo_build ∷ []) world []).0 ≡ ok tt
unfolding try_catch ◌>>=◌ emit_if guard input confirm ask_for_tag send send_all deploy get_chain
    get_local_contract get_contract_at view view_text view_length abi_encode encode_function_data
    get_contract_factory new_vm execute save verify try_verify list first_address find_named
    find_prefixed load_vm get_after_dep_contract deployments get_deployment get_singularity_contract
    get_big_bang_contract transfer_one transfer_ownership get_contract_of find
ownership_returns = refl

ownership_run :
    transfer_ownership "default" "5" "0xSafe" (usdo_build ∷ usdo_build ∷ []) world []
    ≡ (ok tt, ownership_trace)
ownership_run = ap (λ r. (r, ownership_trace)) ownership_returns

transfer_ownership-order_example :
    (cs : List Call) × HandOvers world [] "default" "5" "0xSafe" (usdo_build ∷ usdo_build ∷ []) cs
    × (ownership_trace ≡ reverse_onto cs [])
transfer_ownership-order_example =
    transfer_ownership-order "default" "5" "0xSafe" (usdo_build ∷ usdo_build ∷ []) world []
      {t' = ownership_trace} ownership_run

abbrev register_trace : Trace
register_trace = (register_yb_assets none world []).1

register_returns : (register_yb_assets none world []).0 ≡ ok tt
unfolding try_catch ◌>>=◌ emit_if guard input confirm ask_for_tag send send_all deploy get_chain
    get_local_contract get_contract_at view view_text view_length abi_encode encode_function_data
    get_contract_factory new_vm execute save verify try_verify list first_address holds prune_local
    serves find_strategies filter_strategies asset_deps register_yb_assets build_penrose_setup
    build_master_contracts_setup build_usdo_flashloan_setup build_cluster_setup register_calls
    build_yield_box_assets register_strat_for build_oracle_mock_setup global_or_local find_oracle
    find_token_strategy get_local name_of address_field name_or yield_box_id find_named
    find_prefixed load_vm get_after_dep_contract deployments get_deployment get_singularity_contract
    get_big_bang_contract transfer_one transfer_ownership get_contract_of find filter contains
register_returns = refl

register_run : register_yb_assets none world [] ≡ (ok tt, register_trace)
register_run = ap (λ r. (r, register_trace)) register_returns

register_yb_assets-order_example :
    (s : Trace) × (multicall : String) × (deps : List TContract) × (yield_box : String)
    × (calls : List MultiCall) × AreDeps world none deps
    × (world.confirm s "confirm" ≡ true)
    × (address_of (find_named "YieldBox" deps) ≡ str yield_box)
    × Registers world yield_box deps (filter is_strategy deps) calls
    × (seen is_tx register_trace
        ≡ sent (tx multicall "multicall" (multicall_args calls)) ∷ seen is_tx [])
register_yb_assets-order_example =
    register_yb_assets-order none world [] {t' = register_trace} register_run

abbrev fill_trace : Trace
fill_trace = (fill_cluster ("5" ∷ []) world []).1

fill_returns : (fill_cluster ("5" ∷ []) world []).0 ≡ ok tt
unfolding try_catch ◌>>=◌ emit_if guard input confirm ask_for_tag send send_all deploy get_chain
    get_local_contract get_contract_at view view_text view_length abi_encode encode_function_data
    get_contract_factory new_vm execute save verify try_verify list first_address wanted
    load_contracts_from_project load_from_projects load_all_contracts fill_chain fill_chains
    fill_cluster global_or_local find_oracle find_token_strategy get_local name_of address_field
    name_or yield_box_id find_named find_prefixed load_vm get_after_dep_contract deployments
    get_deployment get_singularity_contract get_big_bang_contract transfer_one transfer_ownership
    get_contract_of find filter contains any
fill_returns = refl

fill_run : fill_cluster ("5" ∷ []) world [] ≡ (ok tt, fill_trace)
fill_run = ap (λ r. (r, fill_trace)) fill_returns

fill_cluster-order_example :
    (tag : String) × (cluster : String) × (contracts : List TContract) × (cs : List Call)
    × IsCluster world [] tag cluster
    × AreListed world tag world.chain_id contracts
    × Batches world tag cluster ("5" ∷ []) cs
    × (seen is_tx fill_trace
        ≡ reverse_onto (batch_update cluster (num 0) contracts ∷ cs) (seen is_tx []))
fill_cluster-order_example = fill_cluster-order ("5" ∷ []) world [] {t' = fill_trace} fill_run

abbrev strats_trace : Trace
strats_trace = (deploy_empty_strats 1 world []).1

strats_returns : (deploy_empty_strats 1 world []).0 ≡ ok tt
unfolding try_catch ◌>>=◌ emit_if guard input confirm ask_for_tag send send_all deploy get_chain
    get_local_contract get_contract_at view view_text view_length abi_encode encode_function_data
    get_contract_factory new_vm execute save verify try_verify list first_address strat_type
    selection strat_tokens add_strats deploy_empty_strats global_or_local find_oracle
    find_token_strategy get_local name_of address_field name_or yield_box_id find_named
    find_prefixed load_vm get_after_dep_contract deployments get_deployment get_singularity_contract
    get_big_bang_contract transfer_one transfer_ownership get_contract_of find filter
    build_empty_strat
strats_returns = refl

strats_run : deploy_empty_strats 1 world [] ≡ (ok tt, strats_trace)
strats_run = ap (λ r. (r, strats_trace)) strats_returns

deploy_empty_strats-order_example :
    (s : Trace) × (yield_box : String) × (tokens : List TContract) × (vm : Vm) × AreSelected world 1
      tokens
    × (world.confirm s "isOk" ≡ true)
    × (vm.queue ≡ map (strat_build yield_box) tokens)
    × All (λ (c : TContract). not (is_empty c.address) ≡ true) tokens
    × (seen is_effect strats_trace ≡ strat_events vm (seen is_effect []))
deploy_empty_strats-order_example =
    deploy_empty_strats-order 1 world [] {t' = strats_trace} strats_run
