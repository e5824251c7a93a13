-- ===== src/TapiocaZ/DeployToft/Missing.antt =====
-- The generic receiver's module, without which no TOFT is deployed on the host.
use tapioca.Base.{
  String, ◌==◌, Bool, Bool-cases, inl, inr, true, false, ◌≡◌, refl, Option, none, some, List, [],
  ◌∷◌, ◌≢◌, ◌⊎◌,
}
use tapioca.Hre.Types.{Val, ChainInfo, Vm, Trace, Error}
use tapioca.Hre.World.{World}
use tapioca.Hre.Task.{Task, ok, guard, require, get_contract_factory, ◌>>=◌}
use tapioca.Hre.Seen.{IsSilent, seen, is_effect, silent_rules, ask-IsSilent, new_vm-IsSilent}
use tapioca.Hre.Fails.{
  Fails, Fails->>=, >>=-Fails, of_silent, ask->>=-Fails, none->>=-Fails, some->>=-Fails,
}
use tapioca.TapiocaZ.Builds.{
  build, build_toft_sender_module, build_toft_receiver_module, build_toft_market_receiver_module,
  build_toft_options_receiver_module, build_toft_generic_receiver_module,
}
use tapioca.TapiocaZ.Config.{ChainTofts, chain_tofts, arbitrum_sepolia_tofts, use_network}
use tapioca.TapiocaZ.DeployToft.{
  InitStruct, ToftInputs, toft_inputs, token_names, build_init_struct, add_modules,
  create_toft_modules, deploy_one, deploy_token, deploy_tokens, deploy_toft,
}

build-IsSilent :
    (factory name : String) (args : List Val) → IsSilent is_effect (build factory name args)
unfolding build get_contract_factory
build-IsSilent factory name args = search silent_rules depth 9

use_network-IsSilent : (info : Option ChainInfo) → IsSilent is_effect (use_network info)
unfolding use_network
use_network-IsSilent info = search silent_rules depth 9

token_names-IsSilent :
    (m : Bool) (token : String) (host : Option String)
    → IsSilent is_effect (token_names m token host)
unfolding token_names
token_names-IsSilent true token host = search silent_rules
token_names-IsSilent false token none = search silent_rules depth 9
token_names-IsSilent false token (some h) = search (silent_rules, use_network-IsSilent) depth 12

init-IsSilent :
    (s : ToftInputs) (m : Bool) (token : String) (host : Option String)
    → IsSilent is_effect (build_init_struct s m token host)
unfolding build_init_struct
init-IsSilent s m token host = search (silent_rules, token_names-IsSilent)

pub toft_inputs-IsSilent : (tag : String) → IsSilent is_effect (toft_inputs tag)
unfolding toft_inputs
toft_inputs-IsSilent tag = search silent_rules depth 14

module _ {w : World} (h : w.has_artifact "buildTOFTGenericReceiverModule" ≡ false) where
  build_generic-Fails :
      (name : String) (args : List Val)
      → Fails is_effect w (build_toft_generic_receiver_module name args)
  unfolding build_toft_generic_receiver_module build get_contract_factory guard ◌>>=◌
  build_generic-Fails name args =
      of_silent _ (build-IsSilent _ name args) (record { at = λ t b. rw h (λ p. cc p) })

  add_modules-Fails :
      (vm : Vm) (s : InitStruct) (r : String) → Fails is_effect w (add_modules vm s r)
  unfolding add_modules build_toft_sender_module build_toft_receiver_module
      build_toft_market_receiver_module build_toft_options_receiver_module
  add_modules-Fails vm s r = >>=-Fails _ _ (build-IsSilent _ _ _) λ _.
      >>=-Fails _ _ (build-IsSilent _ _ _) λ _.
        >>=-Fails _ _ (build-IsSilent _ _ _)
          λ _. >>=-Fails _ _ (build-IsSilent _ _ _) λ _. Fails->>= _ _ (build_generic-Fails _ _)

  deploy_one-Fails :
      (tag : String) (s : InitStruct) (chain_id : String) (m : Bool)
      → Fails is_effect w (deploy_one tag s chain_id m)
  unfolding deploy_one create_toft_modules
  deploy_one-Fails tag s chain_id m = Fails->>= _ _ (
      >>=-Fails _ _ (new_vm-IsSilent tag)
        λ vm. >>=-Fails _ _ (ask-IsSilent _) λ r. Fails->>= _ _ (add_modules-Fails vm s r))

  deploy_tokens-Fails :
      (s : ToftInputs) (host : Option String) (token : String) (tokens : List String)
      → Fails is_effect w (deploy_tokens s host (token ∷ tokens))
  unfolding deploy_tokens deploy_token
  deploy_tokens-Fails s host token tokens = Fails->>= _ _ (
      >>=-Fails _ _ (init-IsSilent s _ token host)
        λ init. Fails->>= _ _ (deploy_one-Fails _ init _ _))

  -- The tokens of a chain that the table has are three, and of another there is no table.
  from_table-Fails :
      (e : Error) (s : ToftInputs) (k : Task (Unit {0})) (o : Option ChainTofts)
      → (o ≡ none)
        ⊎ ((token : String) × (tokens : List String) × (tofts : ChainTofts) × (o ≡ some tofts)
            × (tofts.host_tokens ≡ token ∷ tokens))
      → Fails is_effect w
          (require e o >>= λ tofts. deploy_tokens s none tofts.host_tokens >>= λ _. k)
  from_table-Fails e s k o (inl q) = rw q (none->>=-Fails e _)
  from_table-Fails e s k o (inr (token, tokens, tofts, q, r)) =
      rw q
        (some->>=-Fails e tofts _ (rw r (Fails->>= _ _ (deploy_tokens-Fails s none token tokens))))

chain_tofts-cases :
    (w : World) (chain : String)
    → (chain_tofts w chain ≡ none)
      ⊎ ((token : String) × (tokens : List String) × (tofts : ChainTofts) × (chain_tofts w chain
            ≡ some tofts)
          × (tofts.host_tokens ≡ token ∷ tokens))
chain_tofts-cases w chain = elim (Bool-cases (chain == w.arbitrum_sepolia)) [
  | inl q ↦ inr ("0x0", "0x1" ∷ "0x2" ∷ [], arbitrum_sepolia_tofts w, rw q refl, refl)
  | inr q ↦ inl (rw q refl)
]

-- Where no contract is called "buildTOFTGenericReceiverModule", which is what the module's builder asks for, the deployment on the host
-- never returns, whatever the chain, and executes, saves and sends nothing.
pub deploy_toft_host-missing_module :
    (tag : Option String) (w : World) (t : Trace)
    → w.has_artifact "buildTOFTGenericReceiverModule" ≡ false
    → ((u : Unit {0}) → (deploy_toft tag true w t).0 ≢ ok u)
      × (seen is_effect (deploy_toft tag true w t).1 ≡ seen is_effect t)
unfolding deploy_toft
deploy_toft_host-missing_module tag w t h =
    let fails : Fails is_effect w (deploy_toft tag true) = >>=-Fails _ _ (new_vm-IsSilent _) λ vm.
      >>=-Fails _ _ (toft_inputs-IsSilent _) λ s.
        ask->>=-Fails _ _
          λ _. from_table-Fails h _ s _ _ (chain_tofts-cases w s.chain_info.chain_id) in
    (fails.throws.at t, fails.quiet t)
