-- ===== src/Tests/Endings.antt =====
-- Runs that are known to return, and what they leave.
use tapioca.Base.{
  String, ◌≡◌, refl, sym, ap, Option, none, some, Bool, true, false, List, [], ◌∷◌, filter, find,
  any, contains, All,
}
use tapioca.Hre.Types.{Val, num, TContract, ChainInfo, Trace}
use tapioca.Hre.Task.{
  ok, try_catch, ◌>>=◌, emit_if, guard, input, confirm, ask_for_tag, send, send_all, deploy,
  get_chain, get_local_contract, get_contract_at, view, view_text, view_length, abi_encode,
  encode_function_data, get_contract_factory, new_vm, execute, save, verify, try_verify, list,
  first_address,
}
use tapioca.Utils.{
  find_named, find_prefixed, load_vm, get_after_dep_contract, deployments, get_deployment,
  get_singularity_contract, get_big_bang_contract, transfer_one, transfer_ownership,
  get_local_contract as get_contract_of,
}
use tapioca.Deploy.Lookup.{
  global_or_local, find_oracle, find_token_strategy, get_local, name_of, address_field, name_or,
  yield_box_id, is_testnet,
}
use tapioca.Tests.{world, entry, testnet_info}
use tapioca.Hre.Obliging.{IsObliging}
use tapioca.Deploy.SglMarket.{deploy_sgl_market, SglArgs}
use tapioca.Deploy.SglMarket.Returns.{IsEquipped, deploy_sgl_market-Returns}
use tapioca.Exec.FillCluster.{
  wanted, load_contracts_from_project, load_from_projects, load_all_contracts, fill_chain,
  fill_chains, fill_cluster,
}
use tapioca.Exec.FillCluster.Order.{AreListed, IsCluster}
use tapioca.Exec.FillCluster.Returns.{HasCluster, IsSupported, fill_cluster-Returns}
use tapioca.Exec.FillCluster.Whitelist.{
  Whitelist, whitelist, allow_all, addresses_of, Grants, fill_cluster-refines,
}
use tapioca.Exec.FillCluster.Allowed.{fill_cluster-allows}

abbrev on_testnet : Option ChainInfo → Bool
on_testnet none = false
on_testnet (some c) = is_testnet c

world-IsObliging : IsObliging world
world-IsObliging = record {
  chain = (testnet_info, refl);
  has_local = λ t name tag. (name, refl);
  has_contract = λ artifact v. (artifact, refl);
  factories = λ name. refl;
  views = λ t c. (num 7, refl);
  text_views = λ t c. ("T", refl);
  lengths = λ t c. (1, refl);
  accepted = λ t c. refl;
  deployments = λ t factory args. (factory, refl);
  data_encoded = λ fn args. (fn, refl);
  abi_encoded = λ types args. ("0xAB", refl);
  executed = λ t vm. refl;
  verified = λ t vm. refl;
}

world-IsEquipped : IsEquipped world
unfolding find_named find
world-IsEquipped = record {
  recorded = λ t chain name tag. (entry name, refl);
  token = λ t tag. (entry "T", refl);
  testnet = λ c e. ap on_testnet (sym e);
  parses = λ s. (1, refl);
  listed = λ t vm. (entry "Penrose", refl);
}

world-HasCluster : HasCluster world
unfolding find_named find
world-HasCluster = record { cluster = λ t tag chain. (entry "Cluster", refl) }

world-IsSupported : IsSupported world "5"
unfolding find
world-IsSupported = (testnet_info, refl)

abbrev sgl_args_0 : SglArgs
sgl_args_0 = record { executor_name = none; oracle_name = none; token_strategy_name = none }

deploy_sgl_market-Returns_example :
    (t' : Trace) × (deploy_sgl_market sgl_args_0 world [] ≡ (ok tt, t'))
deploy_sgl_market-Returns_example =
    deploy_sgl_market-Returns sgl_args_0 world [] world-IsObliging world-IsEquipped

fill_cluster-Returns_example : (t' : Trace) × (fill_cluster ("5" ∷ []) world [] ≡ (ok tt, t'))
fill_cluster-Returns_example =
    fill_cluster-Returns ("5" ∷ []) world [] world-IsObliging world-HasCluster
      (world-IsSupported, tt)

-- At first no address is whitelisted.
abbrev nobody : Whitelist
nobody chain a = false

abbrev grant_trace : Trace
grant_trace = (fill_cluster ("5" ∷ []) world []).1

grant_returns : (fill_cluster ("5" ∷ []) world []).0 ≡ ok tt
unfolding try_catch ◌>>=◌ emit_if guard input confirm ask_for_tag send send_all deploy get_chain
    get_local_contract get_contract_at view view_text view_length abi_encode encode_function_data
    get_contract_factory new_vm execute save verify try_verify list first_address wanted
    load_contracts_from_project load_from_projects load_all_contracts fill_chain fill_chains
    fill_cluster global_or_local find_oracle find_token_strategy get_local name_of address_field
    name_or yield_box_id find_named find_prefixed load_vm get_after_dep_contract deployments
    get_deployment get_singularity_contract get_big_bang_contract transfer_one transfer_ownership
    get_contract_of find filter contains any
grant_returns = refl

grant_run : fill_cluster ("5" ∷ []) world [] ≡ (ok tt, grant_trace)
grant_run = ap (λ r. (r, grant_trace)) grant_returns

fill_cluster-refines_example :
    (tag : String) × (cluster : String) × (contracts : List TContract) × (grants : List
      (Val × List String))
    × IsCluster world [] tag cluster
    × AreListed world tag world.chain_id contracts
    × Grants world tag ("5" ∷ []) grants
    × (whitelist "105" cluster nobody grant_trace
        ≡ allow_all "105"
            ((num 0, addresses_of contracts) ∷ grants)
            (whitelist "105" cluster nobody []))
fill_cluster-refines_example =
    fill_cluster-refines "105" ("5" ∷ []) nobody world [] {t' = grant_trace} grant_run

fill_cluster-allows_example :
    (tag : String) × (cluster : String) × (contracts : List TContract) × IsCluster world [] tag
      cluster
    × AreListed world tag world.chain_id contracts
    × All (λ c. whitelist "105" cluster nobody grant_trace (num 0) c.address ≡ true) contracts
    × ((chain : Val) (a : String)
        → whitelist "105" cluster nobody [] chain a ≡ true
        → whitelist "105" cluster nobody grant_trace chain a ≡ true)
fill_cluster-allows_example =
    fill_cluster-allows "105" ("5" ∷ []) nobody world [] {t' = grant_trace} grant_run
