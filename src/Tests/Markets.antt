-- ===== src/Tests/Markets.antt =====
-- Runs of the market deployments.
use tapioca.Base.{
  String, ◌≡◌, ◌≢◌, ◌⊎◌, refl, ap, none, some, true, false, [], find, if◌then◌else◌, ◌==◌,
}
use tapioca.Hre.Types.{Trace}
use tapioca.Hre.World.{World}
use tapioca.Hre.Task.{
  ok, try_catch, ◌>>=◌, emit_if, guard, input, confirm, ask_for_tag, send, send_all, deploy,
  get_chain, get_local_contract, get_contract_at, view, view_text, view_length, abi_encode,
  encode_function_data, get_contract_factory, new_vm, execute, save, verify, try_verify, list,
  first_address,
}
use tapioca.Hre.Seen.{seen, is_tx, is_act}
use tapioca.Utils.{find_named, find_prefixed, load_vm}
use tapioca.Deploy.Lookup.{
  global_or_local, find_oracle, find_token_strategy, get_local, name_of, address_field, name_or,
  yield_box_id,
}
use tapioca.Builds.{build_oracle_mock}
use tapioca.Tests.{world, bare_world}
use tapioca.Deploy.Strats.{
  penrose_strategy, strategy_address, usd0_strategy, deploy_oracle_mock, oracle_or_mock,
  load_strats,
}
use tapioca.Deploy.SglMarket.{
  load_contracts, sgl_prepare, sgl_init_args, sgl_deploy, sgl_record, deploy_sgl_market, SglArgs,
  SglPlan, sgl_types,
}
use tapioca.Deploy.SglMarket.Order.{
  sgl_events, deploy_sgl_market-order, deploy_sgl_market-missing_executor,
}
use tapioca.Deploy.SglMarket.Progress.{Progress, deploy_sgl_market-Progress}
use tapioca.Deploy.OriginsMarket.{
  load_origins_contracts, origins_prepare, origins_deploy, deploy_origins_market, OriginsArgs,
  OriginsPlan,
}
use tapioca.Deploy.OriginsMarket.Order.{origins_events, IsOriginsUsdo, deploy_origins_market-order}

abbrev sgl_args : SglArgs
sgl_args = record { executor_name = none; oracle_name = none; token_strategy_name = none }

deploy_sgl_market-missing_executor_example :
    ((u : Unit {0}) → (deploy_sgl_market sgl_args bare_world []).0 ≢ ok u)
    × (seen is_tx (deploy_sgl_market sgl_args bare_world []).1 ≡ seen is_tx [])
deploy_sgl_market-missing_executor_example =
    deploy_sgl_market-missing_executor sgl_args bare_world [] (λ _ _. refl)

abbrev sgl_trace : Trace
sgl_trace = (deploy_sgl_market sgl_args world []).1

sgl_returns : (deploy_sgl_market sgl_args world []).0 ≡ ok tt
unfolding try_catch ◌>>=◌ emit_if guard input confirm ask_for_tag send send_all deploy get_chain
    get_local_contract get_contract_at view view_text view_length abi_encode encode_function_data
    get_contract_factory new_vm execute save verify try_verify list first_address load_contracts
    sgl_prepare sgl_init_args sgl_deploy sgl_record deploy_sgl_market penrose_strategy
    strategy_address usd0_strategy deploy_oracle_mock oracle_or_mock load_strats global_or_local
    find_oracle find_token_strategy get_local name_of address_field name_or yield_box_id find_named
    find_prefixed load_vm find build_oracle_mock
sgl_returns = refl

sgl_run : deploy_sgl_market sgl_args world [] ≡ (ok tt, sgl_trace)
sgl_run = ap (λ r. (r, sgl_trace)) sgl_returns

deploy_sgl_market-order_example :
    (p : SglPlan) × (s : Trace) × (sgl : String) × (init_data : String) × (sgl_prepare sgl_args
        world []
      ≡ (ok p, s))
    × (seen is_tx s ≡ seen is_tx [])
    × (world.abi_encode sgl_types (sgl_init_args p) ≡ some init_data)
    × (seen is_act sgl_trace ≡ sgl_events p sgl init_data (seen is_act s))
deploy_sgl_market-order_example = deploy_sgl_market-order sgl_args world [] {t' = sgl_trace} sgl_run

-- The registration is refused.
abbrev unregistered_world : World
unregistered_world = record world {
  accepts = λ _ c. if c.fn == "addSingularity" then false else true;
}

deploy_sgl_market-Progress_example :
    (seen is_tx (deploy_sgl_market sgl_args unregistered_world []).1 ≡ seen is_tx [])
    ⊎ ((p : SglPlan) × (s : Trace) × (sgl_prepare sgl_args unregistered_world [] ≡ (ok p, s))
        × (seen is_tx s ≡ seen is_tx [])
        × Progress unregistered_world p
            (seen is_act s)
            (seen is_act (deploy_sgl_market sgl_args unregistered_world []).1))
deploy_sgl_market-Progress_example = deploy_sgl_market-Progress sgl_args unregistered_world []

abbrev origins_args_0 : OriginsArgs
origins_args_0 = record { oracle_name = none; token_strategy_name = none }

abbrev origins_trace : Trace
origins_trace = (deploy_origins_market origins_args_0 world []).1

origins_returns : (deploy_origins_market origins_args_0 world []).0 ≡ ok tt
unfolding try_catch ◌>>=◌ emit_if guard input confirm ask_for_tag send send_all deploy get_chain
    get_local_contract get_contract_at view view_text view_length abi_encode encode_function_data
    get_contract_factory new_vm execute save verify try_verify list first_address
    load_origins_contracts origins_prepare origins_deploy deploy_origins_market penrose_strategy
    strategy_address usd0_strategy deploy_oracle_mock oracle_or_mock load_strats global_or_local
    find_oracle find_token_strategy get_local name_of address_field name_or yield_box_id find_named
    find_prefixed load_vm find build_oracle_mock
origins_returns = refl

origins_run : deploy_origins_market origins_args_0 world [] ≡ (ok tt, origins_trace)
origins_run = ap (λ r. (r, origins_trace)) origins_returns

deploy_origins_market-order_example :
    (p : OriginsPlan) × (s : Trace) × (origins : String) × (usdo : String) × (origins_prepare
        origins_args_0 world []
      ≡ (ok p, s))
    × (seen is_tx s ≡ seen is_tx [])
    × IsOriginsUsdo world p origins s usdo
    × (seen is_act origins_trace ≡ origins_events p origins usdo (seen is_act s))
deploy_origins_market-order_example =
    deploy_origins_market-order origins_args_0 world [] {t' = origins_trace} origins_run
