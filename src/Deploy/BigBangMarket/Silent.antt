-- ===== src/Deploy/BigBangMarket/Silent.antt =====
-- The parts of deployBigBangMarket.ts that make no transaction.
use tapioca.Base.{Bool, Option, none, some}
use tapioca.Hre.Types.{Event, TContract, Vm}
use tapioca.Hre.Seen.{IsSilent, is_tx, is_act, silent_rules}
use tapioca.Deploy.Silent.{lookup_rules}
use tapioca.Deploy.BigBangOracles.{
  BigBangArgs, BigBangBasis, Oracles, bb_basis, queue_oracle, queue_asset_oracle, save_oracles,
  bb_oracles,
}
use tapioca.Deploy.BigBangMarket.{BigBangPlan, bb_plan, oracle_address, bb_record}

pub bb_basis-IsSilent : (args : BigBangArgs) → IsSilent is_tx (bb_basis args)
unfolding bb_basis
bb_basis-IsSilent args = search lookup_rules depth 20

pub queue_oracle-IsSilent :
    (b : BigBangBasis) (vm : Vm) (o : Option TContract) → IsSilent is_tx (queue_oracle b vm o)
unfolding queue_oracle
queue_oracle-IsSilent b vm none = search lookup_rules depth 10
queue_oracle-IsSilent b vm (some o) = search lookup_rules

pub queue_asset_oracle-IsSilent :
    (b : BigBangBasis) (os : Oracles) (o : Option TContract)
    → IsSilent is_tx (queue_asset_oracle b os o)
unfolding queue_asset_oracle
queue_asset_oracle-IsSilent b os none = search lookup_rules depth 10
queue_asset_oracle-IsSilent b os (some o) = search lookup_rules

pub save_oracles-IsSilent : (b : BigBangBasis) (os : Oracles) → IsSilent is_tx (save_oracles b os)
unfolding save_oracles
save_oracles-IsSilent b os = search lookup_rules depth 10

pub bb_oracles-IsSilent :
    (args : BigBangArgs) (b : BigBangBasis) → IsSilent is_tx (bb_oracles args b)
unfolding bb_oracles
bb_oracles-IsSilent args b =
    search (lookup_rules, queue_oracle-IsSilent, queue_asset_oracle-IsSilent, save_oracles-IsSilent)
      depth 10

pub bb_plan-IsSilent :
    (args : BigBangArgs) (b : BigBangBasis) (os : Oracles) → IsSilent is_tx (bb_plan args b os)
unfolding bb_plan
bb_plan-IsSilent args b os = search lookup_rules depth 15

pub oracle_address-IsSilent :
    {f : Event → Bool} (vm : Vm) (o : Option TContract) → IsSilent f (oracle_address vm o)
unfolding oracle_address
oracle_address-IsSilent vm none = search silent_rules
oracle_address-IsSilent vm (some o) = search silent_rules

pub bb_record-IsSilent : (p : BigBangPlan) → IsSilent is_act (bb_record p)
unfolding bb_record
bb_record-IsSilent p = search lookup_rules depth 10
