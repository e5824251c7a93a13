-- ===== src/Tests.antt =====
-- Runs of the tasks in worlds that are given in full.
mod Markets
mod BigBang
mod Stacks
mod Operations
mod Operators
mod Tofts
mod Endings
mod CrossChain
mod Manual
mod Registered
use tapioca.Base.{String, ◌==◌, true, false, none, some, List, [], ◌∷◌, if◌then◌else◌}
use tapioca.Hre.Types.{Val, undefined, str, num, TContract, ChainInfo, no_meta}
use tapioca.Hre.World.{World}

abbrev pub entry : String → TContract
entry name = record { name = name; address = name; meta = no_meta }

-- A strategy for the token "T".
abbrev pub strategy : TContract
strategy = record {
  name = "TStrategy";
  address = "0xS";
  meta = record no_meta { strat_for = some "T" };
}

abbrev pub testnet_info : ChainInfo
testnet_info = record {
  name = "sepolia";
  address = "0xE";
  chain_id = "5";
  lz_chain_id = "105";
  tags = "testnet" ∷ [];
}

abbrev pub globals : String → List TContract
globals project =
    if project == "tapioca-strategies"
    then strategy ∷ []
    else entry "YieldBox" ∷ entry "Cluster" ∷ entry "T" ∷ entry "TapOFT" ∷ entry "WETHMock" ∷ []

-- A test network on which every name is deployed and everything succeeds.
abbrev pub world : World
world = record {
  chain_id = "5";
  get_chain_by = λ _. some testnet_info;
  ask_for_tag = λ _. "default";
  signer = "0xD";
  load_global = λ _ _ project _. globals project;
  load_local = λ _ _ _. entry "USDO" ∷ entry "OracleMock-T" ∷ entry "AssetOracleMock" ∷ [];
  get_local = λ _ _ name _. some (entry name);
  local_contract = λ _ name _. some name;
  contract_at = λ artifact _. some artifact;
  is_address = λ _. true;
  read_deployments = λ _. none;
  sdk_deployments = λ _. none;
  input = λ _ name. if name == "tokenName" then "T" else "0";
  confirm = λ _ _. true;
  view = λ _ _. some (num 7);
  view_text = λ _ _. some "T";
  view_length = λ _ _. some 1;
  view_addresses = λ _ _. some ("0x1" ∷ "0x2" ∷ []);
  payload_events = λ _ _ _. some [];
  max_uint256 = str "MaxUint256";
  accepts = λ _ _. true;
  deploys = λ _ factory _. some factory;
  encode_function_data = λ fn _. some fn;
  abi_encode = λ _ _. some "0xAB";
  parse_ether = λ _. some 1;
  executes = λ _ _. true;
  verifies = λ _ _. true;
  vm_list = λ _ _.
      entry "Penrose"
      ∷ entry "USDO"
      ∷ entry "MediumRiskMC"
      ∷ entry "BigBangMediumRiskMC"
      ∷ entry "USDOFlashloanHelper"
      ∷ [];
  multicall = λ _ _. some "0xM";
  tokens_deployments_weth = none;
  uniswap_v2_router = λ _. undefined;
  uniswap_v2_factory = λ _. undefined;
  curve_stable_pool = λ _. undefined;
  multicall_address = λ _. "0xM";
  supported_chains = testnet_info ∷ [];
  find_global = λ _ _ _ name _. some (entry name);
  find_local = λ _ _ name _. some (entry name);
  get_chain_id = "5";
  network_chain_id = "5";
  arbitrum_sepolia = "5";
  sepolia = "6";
  has_artifact = λ _. true;
  random_name = λ _. "r4nd";
  view_text_on = λ _ _ _. some "T";
  private_key = some "0xPK";
  choose = λ _ _ choices. choices;
  use_network = λ _. true;
  deploys_on = λ _ _ factory _. some factory;
  verifies_source = λ _ _ _. true;
  project = "tapiocaz";
  get_chain_by_name = λ _. some testnet_info;
  arbitrum_goerli = "421613";
  lz_of_chain = λ _. num 10143;
  solidity_pack = λ _ _. some "0xPP";
  parse_units = λ _. some 1;
  parse_int = λ _. some 7;
  count_below = λ _. 2;
  min_gas_of_send = num 200000;
  deployer = "0xD";
  wallet_address = λ _. "0xD";
  accepts_on = λ _ _ _. true;
}

-- The same without any local deployment by its name.
abbrev pub bare_world : World
bare_world = record world { get_local = λ _ _ _ _. none }
