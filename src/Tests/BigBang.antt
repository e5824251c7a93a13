-- ===== src/Tests/BigBang.antt =====
-- Runs of the BigBang deployment.
use tapioca.Base.{
  String, ◌≡◌, refl, ap, none, some, true, false, List, [], ◌∷◌, find, if◌then◌else◌, ◌==◌,
}
use tapioca.Hre.Types.{vm_executed, str, num, TContract, Trace, Vm, sent, deployed, type_error}
use tapioca.Hre.World.{World}
use tapioca.Hre.Task.{
  add, ok, err, try_catch, ◌>>=◌, emit_if, guard, input, confirm, ask_for_tag, send, send_all,
  deploy, get_chain, get_local_contract, get_contract_at, view, view_text, view_length, abi_encode,
  encode_function_data, get_contract_factory, new_vm, execute, save, verify, try_verify, list,
  first_address,
}
use tapioca.Hre.Seen.{seen, is_tx, is_act, is_effect}
use tapioca.Utils.{find_named, find_prefixed, load_vm, address_of}
use tapioca.Deploy.Lookup.{
  global_or_local, find_oracle, find_token_strategy, get_local, name_of, address_field, name_or,
  yield_box_id,
}
use tapioca.Builds.{build_oracle_mock}
use tapioca.Tests.{world, entry, testnet_info}
use tapioca.Deploy.BigBangOracles.{
  bb_basis, queue_oracle, queue_asset_oracle, save_oracles, bb_oracles, BigBangArgs, BigBangBasis,
  Oracles,
}
use tapioca.Deploy.BigBangMarket.{
  bb_plan, bb_init_args, oracle_address, bb_deploy, bb_record, bb_settings, deploy_big_bang_market,
  BigBangPlan, bb_types, execute_market_fn,
}
use tapioca.Deploy.BigBangMarket.Order.{
  IsPlan, IsMarket, IsUsdo, oracle_of, setting_events, register_events,
  deploy_big_bang_market-order,
}
use tapioca.Deploy.BigBangMarket.Oracle.{asset_oracle_of, mock_of, bb_oracles-named_lost}
use tapioca.Deploy.BigBangMarket.Faults.{deploy_big_bang_market-orphan}

abbrev bb_args : BigBangArgs
bb_args = record {
  executor_name = none;
  token_strategy_name = none;
  oracle_name = none;
  asset_oracle_name = none;
}

abbrev bb_trace : Trace
bb_trace = (deploy_big_bang_market bb_args world []).1

bb_returns : (deploy_big_bang_market bb_args world []).0 ≡ ok tt
unfolding try_catch ◌>>=◌ emit_if guard input confirm ask_for_tag send send_all deploy get_chain
    get_local_contract get_contract_at view view_text view_length abi_encode encode_function_data
    get_contract_factory new_vm execute save verify try_verify list first_address bb_plan
    bb_init_args oracle_address bb_deploy bb_record bb_settings deploy_big_bang_market bb_basis
    queue_oracle queue_asset_oracle save_oracles bb_oracles global_or_local find_oracle
    find_token_strategy get_local name_of address_field name_or yield_box_id find_named
    find_prefixed load_vm find build_oracle_mock
bb_returns = refl

bb_run : deploy_big_bang_market bb_args world [] ≡ (ok tt, bb_trace)
bb_run = ap (λ r. (r, bb_trace)) bb_returns

deploy_big_bang_market-order_example :
    (p : BigBangPlan) × (s : Trace) × (bb : String) × (oracle : String) × (executor : String)
    × (init_data : String) × (market : String) × (usdo : String) × (call_data : String) × IsPlan
        bb_args world [] p s
    × (seen is_tx s ≡ seen is_tx [])
    × (address_of p.leverage_executor ≡ str executor)
    × (oracle_of world (deployed "BigBang" [] bb ∷ s) p.oracles.vm p.oracles.oracle ≡ some oracle)
    × (world.abi_encode bb_types (bb_init_args p oracle executor) ≡ some init_data)
    × IsMarket world p
        (register_events p bb init_data (deployed "BigBang" [] bb ∷ seen is_act s))
        market
    × (world.encode_function_data "setAssetOracle"
          (address_of p.oracles.asset_oracle ∷ str "0x" ∷ [])
        ≡ some call_data)
    × IsUsdo world p
        (sent (execute_market_fn p.basis.penrose market call_data)
          ∷ register_events p bb init_data (deployed "BigBang" [] bb ∷ seen is_act s))
        usdo
    × (seen is_act bb_trace
        ≡ setting_events p market usdo call_data
            (register_events p bb init_data (deployed "BigBang" [] bb ∷ seen is_act s)))
deploy_big_bang_market-order_example =
    deploy_big_bang_market-order bb_args world [] {t' = bb_trace} bb_run

-- The world without a leverage executor.
abbrev no_executor_world : World
no_executor_world = record world {
  get_local = λ _ _ name _. if name == "SimpleLeverageExecutor" then none else some (entry name);
}

abbrev the_basis : BigBangBasis
the_basis = record {
  tag = "default";
  chain_info = testnet_info;
  penrose = "Penrose";
  medium_risk_mc = entry "BigBangMediumRiskMC";
  token = entry "T";
  collateral = record { address = str "T"; strategy_address = str "ERC20WithoutStrategy-T" };
  collateral_id = num 7;
}

abbrev basis_trace : Trace
basis_trace = (bb_basis bb_args no_executor_world []).1

abbrev the_oracles : Oracles
the_oracles = record {
  vm = record { born = 3; tag = "default"; queue = []; loaded = [] };
  should_save = false;
  oracle = some (entry "OracleMock-T");
  asset_oracle = some (entry "AssetOracleMock");
}

abbrev the_plan : BigBangPlan
the_plan = record {
  basis = the_basis;
  oracles = the_oracles;
  modules = record {
    liquidation = "BBLiquidation";
    collateral = "BBCollateral";
    borrow = "BBBorrow";
    leverage = "BBLeverage";
  };
  leverage_executor = none;
  exchange_rate_precision = "0";
  collateralization_rate = "0";
  liquidation_collateralization_rate = "0";
  debt_rate_against_eth = "0";
  debt_rate_min = "0";
  debt_rate_max = "0";
}

abbrev plan_trace : Trace
plan_trace = (bb_plan bb_args the_basis the_oracles no_executor_world basis_trace).1

basis_run : bb_basis bb_args no_executor_world [] ≡ (ok the_basis, basis_trace)
unfolding try_catch ◌>>=◌ emit_if guard input confirm ask_for_tag send send_all deploy get_chain
    get_local_contract get_contract_at view view_text view_length abi_encode encode_function_data
    get_contract_factory new_vm execute save verify try_verify list first_address bb_plan
    bb_init_args oracle_address bb_deploy bb_record bb_settings deploy_big_bang_market bb_basis
    queue_oracle queue_asset_oracle save_oracles bb_oracles global_or_local find_oracle
    find_token_strategy get_local name_of address_field name_or yield_box_id find_named
    find_prefixed load_vm find build_oracle_mock
basis_run = refl

oracles_run :
    bb_oracles bb_args the_basis no_executor_world basis_trace ≡ (ok the_oracles, basis_trace)
unfolding try_catch ◌>>=◌ emit_if guard input confirm ask_for_tag send send_all deploy get_chain
    get_local_contract get_contract_at view view_text view_length abi_encode encode_function_data
    get_contract_factory new_vm execute save verify try_verify list first_address bb_plan
    bb_init_args oracle_address bb_deploy bb_record bb_settings deploy_big_bang_market bb_basis
    queue_oracle queue_asset_oracle save_oracles bb_oracles global_or_local find_oracle
    find_token_strategy get_local name_of address_field name_or yield_box_id find_named
    find_prefixed load_vm find build_oracle_mock
oracles_run = refl

plan_run :
    bb_plan bb_args the_basis the_oracles no_executor_world basis_trace ≡ (ok the_plan, plan_trace)
unfolding try_catch ◌>>=◌ emit_if guard input confirm ask_for_tag send send_all deploy get_chain
    get_local_contract get_contract_at view view_text view_length abi_encode encode_function_data
    get_contract_factory new_vm execute save verify try_verify list first_address bb_plan
    bb_init_args oracle_address bb_deploy bb_record bb_settings deploy_big_bang_market bb_basis
    queue_oracle queue_asset_oracle save_oracles bb_oracles global_or_local find_oracle
    find_token_strategy get_local name_of address_field name_or yield_box_id find_named
    find_prefixed load_vm find build_oracle_mock
plan_run = refl

deploy_big_bang_market-orphan_example :
    deploy_big_bang_market bb_args no_executor_world []
    ≡ (err (type_error "address"), deployed "BigBang" [] "BigBang" ∷ plan_trace)
deploy_big_bang_market-orphan_example =
    deploy_big_bang_market-orphan bb_args no_executor_world [] basis_trace basis_trace plan_trace
      the_basis the_oracles the_plan (entry "OracleMock-T") "BigBang" basis_run oracles_run plan_run
      refl refl refl

-- No asset oracle is recorded until the deployer has run, and the oracle that is named is.
abbrev locals_of : Trace → List TContract
locals_of [] = entry "USDO" ∷ entry "OracleMock-T" ∷ []
locals_of (e ∷ t) = entry "USDO" ∷ entry "OracleMock-T" ∷ entry "AssetOracleMock" ∷ []

abbrev no_asset_world : World
no_asset_world = record world {
  load_local = λ t _ _. locals_of (seen is_effect t);
  load_global = λ _ _ _ _. entry "MyOracle" ∷ [];
}

abbrev named_args : BigBangArgs
named_args = record bb_args { oracle_name = some "MyOracle" }

abbrev lost_oracles : Oracles
lost_oracles = record {
  vm =
      add (record { born = 0; tag = "default"; queue = []; loaded = [] })
        (build_oracle_mock "AssetOracleMock" "OCM-T" 1);
  should_save = true;
  oracle = some (entry "OracleMock-T");
  asset_oracle = some (entry "AssetOracleMock");
}

abbrev lost_trace : Trace
lost_trace = (bb_oracles named_args the_basis no_asset_world []).1

lost_run : bb_oracles named_args the_basis no_asset_world [] ≡ (ok lost_oracles, lost_trace)
unfolding try_catch ◌>>=◌ emit_if guard input confirm ask_for_tag send send_all deploy get_chain
    get_local_contract get_contract_at view view_text view_length abi_encode encode_function_data
    get_contract_factory new_vm execute save verify try_verify list first_address bb_plan
    bb_init_args oracle_address bb_deploy bb_record bb_settings deploy_big_bang_market bb_basis
    queue_oracle queue_asset_oracle save_oracles bb_oracles global_or_local find_oracle
    find_token_strategy get_local name_of address_field name_or yield_box_id find_named
    find_prefixed load_vm find build_oracle_mock
lost_run = refl

no_asset_oracle :
    (s : Trace)
    → seen is_effect s ≡ seen is_effect []
    → asset_oracle_of named_args the_basis no_asset_world s ≡ none
unfolding find_named find
no_asset_oracle s e = rw e refl

bb_oracles-named_lost_example :
    (s : Trace) × (vm : Vm) × (seen is_act s ≡ vm_executed vm ∷ seen is_act [])
    × (lost_oracles.oracle ≡ mock_of the_basis no_asset_world s)
bb_oracles-named_lost_example =
    bb_oracles-named_lost named_args the_basis no_asset_world [] {os = lost_oracles}
      {t' = lost_trace} no_asset_oracle lost_run
