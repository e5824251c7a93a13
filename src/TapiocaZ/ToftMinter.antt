-- ===== src/TapiocaZ/ToftMinter.antt =====
-- TapiocaZ/tasks/deploy/testnet/deployTOFTMinter.ts
pub mod Recorded
use Prim.Native.String.{◌++◌ as ◌+++◌}
use tapioca.Base.{
  String, ◌==◌, Bool, false, true, not, ◌&&◌, Option, none, some, List, [], ◌∷◌, map, filter,
  contains, is_some, if◌then◌else◌,
}
use tapioca.Hre.Types.{
  Val, str, TContract, ChainInfo, no_meta, Event, prompted, deployed_on, saved_locally,
  source_verified, project_set, rejected,
}
use tapioca.Hre.World.{World}
use tapioca.Hre.Task.{
  Result, ok, err, Task, pure, ask, guard, ask_for_tag, get_contract_factory, emit_if, ◌>>=◌, ◌>>◌,
}

-- A checkbox prompt.
unfoldable pub choose : String → List String → Task (List String)
choose name choices w t = (ok (w.choose t name choices), prompted name ∷ t)

-- `factory.connect(signer).deploy(...args)`, with the signer of a network, and `deployed()`
unfoldable pub deploy_on : String → String → List Val → Task String
deploy_on network factory args w t = elim (w.deploys_on t network factory args) [
  | none ↦ (err (rejected factory), t)
  | some a ↦ (ok a, deployed_on network factory args a ∷ t)
]

unfoldable pub save_locally : String → TContract → Task (Unit {0})
save_locally chain_id entry w t = (ok tt, saved_locally chain_id entry ∷ t)

unfoldable pub verify_source : String → List Val → Task (Unit {0})
unfolding emit_if
verify_source address args w t =
    emit_if (w.verifies_source t address args) (rejected "verify:verify")
      (source_verified address args) w t

unfoldable pub set_project : String → Task (Unit {0})
set_project project w t = (ok tt, project_set project ∷ t)

-- `askForChains`
unfoldable pub ask_for_chains : Task (List ChainInfo)
unfolding filter contains
ask_for_chains = do
  supported ← ask (λ w _. w.supported_chains)
  chains ← choose "chains" (map (λ e. e.name) supported)
  pure (filter (λ e. contains chains e.name) supported)

-- `e.meta['isToftHost']`
abbrev pub is_toft_host : TContract → Bool
is_toft_host e = elim e.meta.is_toft_host [ none ↦ false | some b ↦ b ]

abbrev pub minter_name : TContract → String
minter_name oft = "TOFTMinter_" +++ oft.name

abbrev pub minter_entry : TContract → String → TContract
minter_entry oft address = record {
  name = minter_name oft;
  address = address;
  meta = record no_meta { is_toft_minter = some true; args = some (str oft.address ∷ []) };
}

unfoldable pub deploy_minter : ChainInfo → TContract → Task (Unit {0})
deploy_minter chain oft = do
  minter ← deploy_on chain.name "TOFTMinter" (str oft.address ∷ [])
  save_locally chain.chain_id (minter_entry oft minter)
  here ← ask (λ w _. w.network_chain_id)
  if chain.chain_id == here then verify_source minter (str oft.address ∷ []) else pure tt

-- One round of the loop over the TOFTs of a chain.
unfoldable pub mint_one : String → Bool → ChainInfo → TContract → Task (Unit {0})
mint_one tag overwrite chain oft = do
  prev_deployment ← ask (λ w t. w.get_local t chain.chain_id (minter_name oft) tag)
  if is_some prev_deployment && not overwrite then pure tt else deploy_minter chain oft

unfoldable pub mint_all : String → Bool → ChainInfo → List TContract → Task (Unit {0})
mint_all tag overwrite chain [] = pure tt
mint_all tag overwrite chain (oft ∷ ofts) = do
  mint_one tag overwrite chain oft
  mint_all tag overwrite chain ofts

-- One round of the loop over the chains.
unfoldable pub mint_on_chain : String → Bool → ChainInfo → Task (Unit {0})
unfolding filter
mint_on_chain tag overwrite chain = do
  get_contract_factory "TOFTMinter"
  usable ← ask (λ w _. w.use_network chain.name)
  guard usable (rejected "useNetwork")
  ofts ← ask (λ w t. filter is_toft_host (w.load_local t tag chain.chain_id))
  mint_all tag overwrite chain ofts

unfoldable pub mint_on_chains : String → Bool → List ChainInfo → Task (Unit {0})
mint_on_chains tag overwrite [] = pure tt
mint_on_chains tag overwrite (c ∷ cs) = do
  mint_on_chain tag overwrite c
  mint_on_chains tag overwrite cs

unfoldable pub deploy_toft_minter : Bool → Task (Unit {0})
deploy_toft_minter overwrite = do
  temp_conf ← ask (λ w _. w.project)
  set_project "generic"
  tag ← ask_for_tag
  chains ← ask_for_chains
  mint_on_chains tag overwrite chains
  set_project temp_conf
