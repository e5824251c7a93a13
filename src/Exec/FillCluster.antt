-- ===== src/Exec/FillCluster.antt =====
-- Tapioca-bar/tasks/exec/fillCluster.ts
pub mod Order
pub mod Whitelist
pub mod Allowed
pub mod Returns
use tapioca.Base.{
  String, ◌==◌, starts_with, Bool, true, false, ◌||◌, List, [], ◌∷◌, ◌++◌, map, any, contains,
  filter, find, if◌then◌else◌,
}
use tapioca.Hre.Types.{Val, str, num, bool, strs, TContract, Call, ChainInfo, thrown, type_error}
use tapioca.Hre.Task.{Task, pure, ask, require, ask_for_tag, get_chain, send, ◌>>=◌, ◌>>◌}
use tapioca.Setups.{tx}
use tapioca.Deploy.Lookup.{global_or_local}

abbrev pub fixed_names : List String
fixed_names =
    "MockSwapper" ∷ "YieldBox" ∷ "USDO" ∷ "TapOFT" ∷ "TapiocaOptionLiquidityProvision" ∷ "OTAP"
    ∷ "TwTAP" ∷ "TapiocaOptionBroker" ∷ "Magnetar" ∷ "MagnetarHelper" ∷ []

abbrev pub name_prefixes : List String
name_prefixes = "BigBang" ∷ "Tapioca Singularity" ∷ "TapiocaOFT" ∷ []

-- `filter`; where no test applies it returns `undefined`, which is falsy.
unfoldable pub wanted : TContract → Bool
unfolding contains any
wanted a =
    if a.name == "Cluster"
    then false
    else contains fixed_names a.name || any (λ p. starts_with a.name p) name_prefixes

-- The projects of `loadAllContracts`, in its order, by the values of `TAPIOCA_PROJECTS_NAME`.
abbrev pub projects : List String
projects =
    "tapioca-bar" ∷ "tapiocaz" ∷ "tap-token" ∷ "tapioca-periphery" ∷ "yieldbox" ∷ "generic" ∷ []

unfoldable pub load_contracts_from_project : String → String → String → Task (List TContract)
unfolding filter wanted
load_contracts_from_project tag chain project =
    ask λ w t. filter wanted (w.load_global t tag project chain)

-- `contracts.push(...)` for each project
unfoldable pub load_from_projects : String → String → List String → Task (List TContract)
load_from_projects tag chain [] = pure []
load_from_projects tag chain (p ∷ ps) = do
  contracts ← load_contracts_from_project tag chain p
  rest ← load_from_projects tag chain ps
  pure (contracts ++ rest)

unfoldable pub load_all_contracts : String → String → Task (List TContract)
load_all_contracts tag chain = load_from_projects tag chain projects

-- `clusterContract.batchUpdateContracts(lzChainId, addresses, true)`
abbrev pub batch_update : String → Val → List TContract → Call
batch_update cluster lz_chain_id contracts =
    tx cluster "batchUpdateContracts"
      (lz_chain_id ∷ strs (map (λ a. a.address) contracts) ∷ bool true ∷ [])

-- One round of the loop over `data.chains`. The contracts are loaded before the chain's entry is
-- read, which throws on a chain that the SDK does not support.
unfoldable pub fill_chain : String → String → List ChainInfo → String → Task (Unit {0})
unfolding find
fill_chain tag cluster supported chain = do
  contracts ← load_all_contracts tag chain
  info ← require (type_error "lzChainId") (find (λ a. a.chain_id == chain) supported)
  send (batch_update cluster (str info.lz_chain_id) contracts)

unfoldable pub fill_chains : String → String → List ChainInfo → List String → Task (Unit {0})
fill_chains tag cluster supported [] = pure tt
fill_chains tag cluster supported (c ∷ cs) = do
  fill_chain tag cluster supported c
  fill_chains tag cluster supported cs

unfoldable pub fill_cluster : List String → Task (Unit {0})
fill_cluster chains = do
  chain_info ← get_chain
  tag ← ask_for_tag
  found ← global_or_local tag "tapioca-periphery" chain_info.chain_id "Cluster"
  cluster ← require (thrown "[-] Cluster not found") found
  here ← ask (λ w _. w.chain_id)
  contracts ← load_all_contracts tag here
  send (batch_update cluster.address (num 0) contracts)
  supported ← ask (λ w _. w.supported_chains)
  fill_chains tag cluster.address supported chains
