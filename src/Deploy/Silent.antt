-- ===== src/Deploy/Silent.antt =====
-- The lookups of the deployment tasks leave the trace alone, but for the prompts and the deployer.
use tapioca.Base.{String, Bool, Option, none, some, ◌≡◌}
use tapioca.Hre.Types.{TContract, AssetMeta, Event, Trace, Error}
use tapioca.Hre.World.{World}
use tapioca.Hre.Task.{Task, require, ◌>>=◌}
use tapioca.Hre.Throws.{Throws, require_missing-Throws}
use tapioca.Hre.Seen.{IsSilent, is_tx, silent_rules}
use tapioca.Utils.{load_vm}
use tapioca.Deploy.Lookup.{
  global_or_local, find_oracle, find_token_strategy, get_local, name_of, address_field, name_or,
  yield_box_id,
}

module _ {f : Event → Bool} where
  pub global_or_local-IsSilent :
      (tag project chain name : String) → IsSilent f (global_or_local tag project chain name)
  unfolding global_or_local
  global_or_local-IsSilent tag project chain name = search silent_rules

  pub find_oracle-IsSilent :
      (tag chain filter_name : String) → IsSilent f (find_oracle tag chain filter_name)
  unfolding find_oracle
  find_oracle-IsSilent tag chain filter_name = search silent_rules

  pub find_token_strategy-IsSilent :
      (tag chain filter_name : String) → IsSilent f (find_token_strategy tag chain filter_name)
  unfolding find_token_strategy
  find_token_strategy-IsSilent tag chain filter_name = search silent_rules

  pub get_local-IsSilent : (name tag : String) → IsSilent f (get_local name tag)
  unfolding get_local
  get_local-IsSilent name tag = search silent_rules

  pub name_of-IsSilent : (c : Option TContract) → IsSilent f (name_of c)
  unfolding name_of
  name_of-IsSilent none = search silent_rules
  name_of-IsSilent (some c) = search silent_rules

  pub address_field-IsSilent : (c : Option TContract) → IsSilent f (address_field c)
  unfolding address_field
  address_field-IsSilent none = search silent_rules
  address_field-IsSilent (some c) = search silent_rules

  pub name_or-IsSilent :
      (o : Option String) (prefix : String) (c : Option TContract) → IsSilent f (name_or o prefix c)
  unfolding name_or
  name_or-IsSilent none prefix c = search (silent_rules, name_of-IsSilent)
  name_or-IsSilent (some n) prefix c = search silent_rules

  pub yield_box_id-IsSilent : (y : String) (a : AssetMeta) → IsSilent f (yield_box_id y a)
  unfolding yield_box_id
  yield_box_id-IsSilent y a = search silent_rules

  pub load_vm-IsSilent : (tag : String) → IsSilent f (load_vm tag)
  unfolding load_vm
  load_vm-IsSilent tag = search silent_rules

pub ruleset lookup_rules = (
  silent_rules, load_vm-IsSilent, global_or_local-IsSilent, find_oracle-IsSilent,
  find_token_strategy-IsSilent, get_local-IsSilent, name_of-IsSilent, address_field-IsSilent,
  name_or-IsSilent, yield_box_id-IsSilent,
)

-- A local deployment that is required and is not there.
pub get_local-Throws {ℓ} :
    {B : Type ℓ} {w : World} (name tag : String) (e : Error) (k : TContract → Task B)
    → ((t : Trace) → w.get_local t w.chain_id name tag ≡ none)
    → Throws w (get_local name tag >>= λ o. require e o >>= k)
unfolding get_local
get_local-Throws {w} name tag e k h =
    require_missing-Throws (λ w t. w.get_local t w.chain_id name tag) e k h
