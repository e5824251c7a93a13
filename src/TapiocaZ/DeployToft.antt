-- ===== src/TapiocaZ/DeployToft.antt =====
-- TapiocaZ/tasks/deploy/deployTOFT.ts
pub mod Dropped
pub mod Missing
pub mod Connected
use Prim.Native.String.{◌++◌ as ◌+++◌}
use tapioca.Base.{String, ◌==◌, Bool, true, false, Option, none, some, List, [], ◌∷◌, if◌then◌else◌}
use tapioca.Hre.Types.{Val, str, struct, ChainInfo, Vm, thrown, type_error, rejected}
use tapioca.Hre.Task.{
  Task, pure, ask, ask_or, require, get_contract_at, view_text, new_vm, add, execute, save, verify,
  ◌>>=◌, ◌>>◌,
}
use tapioca.Builds.{address_zero}
use tapioca.Setups.{tx}
use tapioca.TapiocaZ.Builds.{
  build_toft, build_mtoft, build_toft_sender_module, build_toft_receiver_module,
  build_toft_market_receiver_module, build_toft_options_receiver_module,
  build_toft_generic_receiver_module,
}
use tapioca.TapiocaZ.Config.{ChainTofts, chain_tofts, stargate_router, use_network}

pub record InitStruct : Type 0 where
  pub name : String
  pub symbol : String
  pub endpoint : String
  pub owner : String
  pub yield_box : String
  pub cluster : String
  pub erc20 : String
  pub host_eid : String

abbrev init_struct : InitStruct → Val
init_struct s = struct (
    ("name", s.name)
    ∷ ("symbol", s.symbol)
    ∷ ("endpoint", s.endpoint)
    ∷ ("owner", s.owner)
    ∷ ("yieldBox", s.yield_box)
    ∷ ("cluster", s.cluster)
    ∷ ("erc20", s.erc20)
    ∷ ("hostEid", s.host_eid)
    ∷ [])

-- `Object.values(initStruct)`
abbrev init_values : InitStruct → List Val
init_values s =
    str s.name
    ∷ str s.symbol
    ∷ str s.endpoint
    ∷ str s.owner
    ∷ str s.yield_box
    ∷ str s.cluster
    ∷ str s.erc20
    ∷ str s.host_eid
    ∷ []

-- The name and the symbol of the token: of the native one, of an ERC20 on the chain of the host, or of one here.
unfoldable pub token_names : Bool → String → Option String → Task (String × String)
token_names true token host = pure ("TapiocaOFT Native", "tNative")
token_names false token (some host_chain_id) = do
  host_chain_info ← ask (λ w _. w.get_chain_by host_chain_id)
  network ← use_network host_chain_info
  erc20 ← get_contract_at "ERC20" (str token)
  name ← ask_or (rejected "name") (λ w t. w.view_text_on t network (tx erc20 "name" []))
  symbol ← ask_or (rejected "symbol") (λ w t. w.view_text_on t network (tx erc20 "symbol" []))
  pure ("TapiocaOFT " +++ name, "t" +++ symbol)
token_names false token none = do
  erc20 ← get_contract_at "ERC20" (str token)
  name ← view_text (tx erc20 "name" [])
  symbol ← view_text (tx erc20 "symbol" [])
  pure ("TapiocaOFT " +++ name, "t" +++ symbol)

-- What a deployment takes from its surroundings.
pub record ToftInputs : Type 0 where
  pub tag : String
  pub chain_info : ChainInfo
  pub yield_box : String
  pub cluster : String
  pub signer : String

-- `buildInitStruct`; the host is given on a connected chain.
unfoldable pub build_init_struct : ToftInputs → Bool → String → Option String → Task InitStruct
build_init_struct s is_mtoft token host = do
  names ← token_names is_mtoft token host
  pure (record {
    name = names.0;
    symbol = names.1;
    endpoint = s.chain_info.address;
    owner = s.signer;
    yield_box = s.yield_box;
    cluster = s.cluster;
    erc20 = token;
    host_eid = s.chain_info.lz_chain_id;
  })

-- `findLocalDeployment(...).address`
unfoldable pub module_address : String → String → String → Task String
module_address tag chain_id name = do
  found ← ask (λ w t. w.find_local t chain_id name tag)
  entry ← require (type_error "address") found
  pure entry.address

-- `${name} - ${part} - ${randName}`
abbrev part_name : InitStruct → String → String → String
part_name s rand_name part = s.name +++ (" - " +++ (part +++ (" - " +++ rand_name)))

-- The five modules are queued, each built from the values of the struct.
unfoldable pub add_modules : Vm → InitStruct → String → Task Vm
add_modules modules_vm s rand_name = do
  sender ← build_toft_sender_module (part_name s rand_name "SenderModule") (init_values s)
  receiver ← build_toft_receiver_module (part_name s rand_name "ReceiverModule") (init_values s)
  market ←
      build_toft_market_receiver_module (part_name s rand_name "MarketReceiverModule")
        (init_values s)
  options ←
      build_toft_options_receiver_module (part_name s rand_name "OptionsReceiverModule")
        (init_values s)
  generic ←
      build_toft_generic_receiver_module (part_name s rand_name "GenericReceiverModule")
        (init_values s)
  pure (add (add (add (add (add modules_vm sender) receiver) market) options) generic)

-- The struct of the modules' addresses.
unfoldable pub module_struct : String → String → InitStruct → String → Task Val
module_struct tag chain_id s rand_name = do
  sender ← module_address tag chain_id (part_name s rand_name "SenderModule")
  receiver ← module_address tag chain_id (part_name s rand_name "ReceiverModule")
  market ← module_address tag chain_id (part_name s rand_name "MarketReceiverModule")
  options ← module_address tag chain_id (part_name s rand_name "OptionsReceiverModule")
  generic ← module_address tag chain_id (part_name s rand_name "GenericReceiverModule")
  pure (
      struct (
        ("tOFTSenderModule", sender)
        ∷ ("tOFTReceiverModule", receiver)
        ∷ ("marketReceiverModule", market)
        ∷ ("optionsReceiverModule", options)
        ∷ ("genericReceiverModule", generic)
        ∷ []))

-- `createTOFTModules`
unfoldable pub create_toft_modules : String → String → InitStruct → Task Val
create_toft_modules tag chain_id s = do
  modules_vm ← new_vm tag
  rand_name ← ask (λ w t. w.random_name t)
  vm ← add_modules modules_vm s rand_name
  execute vm
  save vm
  verify vm
  module_struct tag chain_id s rand_name

-- `deployTOFT`: the deployer that it fills is its own, and is dropped at its end.
unfoldable pub deploy_one : String → InitStruct → String → Bool → Task Vm
deploy_one tag s chain_id is_mtoft = do
  modules ← create_toft_modules tag chain_id s
  vm ← new_vm tag
  router ← ask (λ w _. stargate_router w chain_id)
  toft ←
      if is_mtoft
      then build_mtoft s.name (init_struct s ∷ modules ∷ router ∷ [])
      else build_toft s.name (init_struct s ∷ modules ∷ [])
  pure (add vm toft)

-- One round of the loops over tokens.
unfoldable pub deploy_token : ToftInputs → Option String → String → Task (Unit {0})
deploy_token s host token = do
  let is_mtoft : Bool = token == address_zero
  init ← build_init_struct s is_mtoft token host
  dropped ← deploy_one s.tag init s.chain_info.chain_id is_mtoft
  pure tt

unfoldable pub deploy_tokens : ToftInputs → Option String → List String → Task (Unit {0})
deploy_tokens s host [] = pure tt
deploy_tokens s host (token ∷ tokens) = do deploy_token s host token; deploy_tokens s host tokens

unfoldable pub deploy_connected : ToftInputs → List (String × List String) → Task (Unit {0})
deploy_connected s [] = pure tt
deploy_connected s ((chain, tokens) ∷ rest) = do
  deploy_tokens s (some chain) tokens
  deploy_connected s rest

unfoldable pub toft_inputs : String → Task ToftInputs
toft_inputs tag = do
  signer ← ask (λ w _. w.signer)
  found ← ask (λ w _. w.get_chain_by w.get_chain_id)
  chain_info ← require (type_error "chainId") found
  found_yield_box ← ask (λ w t. w.find_global t "yieldbox" chain_info.chain_id "YieldBox" tag)
  yield_box ← require (thrown "[-] YieldBox not found") found_yield_box
  found_cluster ← ask (λ w t. w.find_global t "tapioca-periphery" chain_info.chain_id "Cluster" tag)
  cluster ← require (thrown "[-] Cluster not found") found_cluster
  pure (record {
    tag = tag;
    chain_info = chain_info;
    yield_box = yield_box.address;
    cluster = cluster.address;
    signer = signer;
  })

-- `args.tag ?? 'default'`
abbrev tag_or_default : Option String → String
tag_or_default none = "default"
tag_or_default (some tag) = tag

unfoldable pub deploy_toft : Option String → Bool → Task (Unit {0})
deploy_toft tag_arg on_host = do
  let tag : String = tag_or_default tag_arg
  vm ← new_vm tag
  s ← toft_inputs tag
  found ← ask (λ w _. chain_tofts w s.chain_info.chain_id)
  tofts ← require (type_error "HOST_TOKENS") found
  if on_host
      then deploy_tokens s none tofts.host_tokens
      else deploy_connected s tofts.connected_chains
  execute vm
  save vm
  verify vm
