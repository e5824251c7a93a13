-- ===== src/Deploy/StratsSilent.antt =====
-- `loadStrats` makes no transaction.
use tapioca.Base.{String, Option, none, some}
use tapioca.Hre.Types.{TContract, ChainInfo, Vm}
use tapioca.Hre.Seen.{IsSilent, is_tx}
use tapioca.Deploy.Silent.{lookup_rules}
use tapioca.Deploy.Strats.{
  penrose_strategy, strategy_address, usd0_strategy, deploy_oracle_mock, oracle_or_mock,
  load_strats,
}

penrose_strategy-IsSilent : (tag : String) → IsSilent is_tx (penrose_strategy tag)
unfolding penrose_strategy
penrose_strategy-IsSilent tag = search lookup_rules depth 10

strategy_address-IsSilent :
    (tag : String) (s : Option TContract) → IsSilent is_tx (strategy_address tag s)
unfolding strategy_address
strategy_address-IsSilent tag none = penrose_strategy-IsSilent tag
strategy_address-IsSilent tag (some s) = search lookup_rules

usd0_strategy-IsSilent : (tag : String) → IsSilent is_tx (usd0_strategy tag)
unfolding usd0_strategy
usd0_strategy-IsSilent tag = search (lookup_rules, strategy_address-IsSilent)

deploy_oracle_mock-IsSilent :
    (vm : Vm) (token : Option TContract) → IsSilent is_tx (deploy_oracle_mock vm token)
unfolding deploy_oracle_mock
deploy_oracle_mock-IsSilent vm token = search lookup_rules depth 10

oracle_or_mock-IsSilent :
    (vm : Vm) (c : ChainInfo) (token oracle : Option TContract)
    → IsSilent is_tx (oracle_or_mock vm c token oracle)
unfolding oracle_or_mock
oracle_or_mock-IsSilent vm c token none = search (lookup_rules, deploy_oracle_mock-IsSilent)
oracle_or_mock-IsSilent vm c token (some o) = search lookup_rules

pub load_strats-IsSilent :
    (tag : String) (token : Option TContract) (oracle_name : Option String)
    → IsSilent is_tx (load_strats tag token oracle_name)
unfolding load_strats
load_strats-IsSilent tag token oracle_name =
    search (lookup_rules, usd0_strategy-IsSilent, oracle_or_mock-IsSilent) depth 10
