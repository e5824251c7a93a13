-- ===== src/Hre/World.antt =====
-- Code that the repository only calls: tapioca-sdk, ethers, hardhat, inquirer, and the chain
-- behind them. Each answer may depend on all that the task has done so far.
use tapioca.Base.{ℕ, String, Bool, Option, List}
use tapioca.Hre.Types.{Val, TContract, ChainInfo, Call, Vm, Trace, PayloadStored}

pub record World : Type 0 where
  -- `hre.SDK.eChainId`
  pub chain_id : String
  -- `getChainBy('chainId', id)`
  pub get_chain_by : String → Option ChainInfo
  -- `hardhatUtils.askForTag(hre, 'local')`
  pub ask_for_tag : Trace → String
  -- `getSigners()[0].address`
  pub signer : String
  -- `db.loadGlobalDeployment(tag, project, chain)`
  pub load_global : Trace → String → String → String → List TContract
  -- `db.loadLocalDeployment(tag, chain)`
  pub load_local : Trace → String → String → List TContract
  -- `db.getLocalDeployment(chain, name, tag)`
  pub get_local : Trace → String → String → String → Option TContract
  -- `db.findGlobalDeployment(project, chain, name, tag)`, `db.findLocalDeployment(chain, name, tag)`
  pub find_global : Trace → String → String → String → String → Option TContract
  pub find_local : Trace → String → String → String → Option TContract
  -- `hardhatUtils.getLocalContract(hre, name, tag)`: the contract's address, or a failure
  pub local_contract : Trace → String → String → Option String
  -- `ethers.getContractAt(artifact, address)`: the contract's address, or a failure
  pub contract_at : String → Val → Option String
  -- `ethers.utils.isAddress`
  pub is_address : String → Bool
  -- the entries of this chain in the project's deployment file, or a failure to read it
  pub read_deployments : Trace → Option (List TContract)
  -- `SDK.API.utils.getDeployment('Tapioca-Bar', chain)`
  pub sdk_deployments : Trace → Option (List TContract)
  -- what the user answers to `inquirer.prompt`, by the prompt's name
  pub input : Trace → String → String
  pub confirm : Trace → String → Bool
  -- a view call of a contract, or its failure
  pub view : Trace → Call → Option Val
  pub view_text : Trace → Call → Option String
  -- the length of the array that a view call returns
  pub view_length : Trace → Call → Option ℕ
  -- the array of addresses that a view call returns
  pub view_addresses : Trace → Call → Option (List String)
  -- `contract.queryFilter(contract.filters.PayloadStored(), block)`
  pub payload_events : Trace → String → String → Option (List PayloadStored)
  -- `ethers.constants.MaxUint256`
  pub max_uint256 : Val
  -- does the transaction go through?
  pub accepts : Trace → Call → Bool
  -- `factory.deploy(...args)` and `deployed()`: the new address, or a failure
  pub deploys : Trace → String → List Val → Option String
  -- `interface.encodeFunctionData(fn, args)`, `AbiCoder.encode(types, args)`, `parseEther`
  pub encode_function_data : String → List Val → Option String
  pub abi_encode : List String → List Val → Option String
  pub parse_ether : String → Option ℕ
  -- `VM.execute`, `VM.verify`: does it succeed?
  pub executes : Trace → Vm → Bool
  pub verifies : Trace → Vm → Bool
  -- `VM.list()`
  pub vm_list : Trace → Vm → List TContract
  -- `VM.getMulticall()`
  pub multicall : Trace → Vm → Option String
  -- the weth of `TOKENS_DEPLOYMENTS` on a chain; `none` if that identifier is not bound
  pub tokens_deployments_weth : Option (String → Val)
  -- `UNISWAP_DEPLOYMENTS[chain]?.v2Router`, `?.v2factory`, `CURVE_DEPLOYMENTS[chain]?.stablePool`
  pub uniswap_v2_router : String → Val
  pub uniswap_v2_factory : String → Val
  pub curve_stable_pool : String → Val
  -- `hre.SDK.config.MULTICALL_ADDRESSES[chain]`
  pub multicall_address : String → String
  -- `hre.SDK.utils.getSupportedChains()`
  pub supported_chains : List ChainInfo
  -- `hre.getChainId()`, `String(hre.network.config.chainId)`
  pub get_chain_id : String
  pub network_chain_id : String
  -- the values of the SDK's `EChainID.ARBITRUM_SEPOLIA` and `EChainID.SEPOLIA`
  pub arbitrum_sepolia : String
  pub sepolia : String
  -- is there a compiled contract of this name, for `getContractFactory`?
  pub has_artifact : String → Bool
  -- `(Math.random() + 1).toString(36).substring(2)`
  pub random_name : Trace → String
  -- a view call through a provider of the named network
  pub view_text_on : Trace → String → Call → Option String
  -- `process.env.PRIVATE_KEY`
  pub private_key : Option String
  -- the choices ticked at a checkbox prompt
  pub choose : Trace → String → List String → List String
  -- `hardhatUtils.useNetwork(hre, name)`: does it succeed?
  pub use_network : String → Bool
  -- a deployment on the named network: the new address, or a failure
  pub deploys_on : Trace → String → String → List Val → Option String
  -- `hre.run('verify:verify', ...)`: does it succeed?
  pub verifies_source : Trace → String → List Val → Bool
  -- `getChainBy('name', name)`
  pub get_chain_by_name : String → Option ChainInfo
  -- the value of `EChainID.ARBITRUM_GOERLI`, and `NETWORK_MAPPING_CHAIN_TO_LZ`
  pub arbitrum_goerli : String
  pub lz_of_chain : String → Val
  -- `solidityPack(types, values)`, `parseUnits(value, 18)`, `parseInt(text)`, which may be `NaN`
  pub solidity_pack : List String → List Val → Option String
  pub parse_units : String → Option ℕ
  pub parse_int : String → Option ℕ
  -- how many numbers from 0 on are below `Number(text)`, for a text that is a finite number or none
  pub count_below : String → ℕ
  -- `MIN_GAS_FOR_PACKET_TYPE[PT_SEND]`
  pub min_gas_of_send : Val
  -- `(await getNamedAccounts()).deployer`
  pub deployer : String
  -- the address of the wallet of a private key
  pub wallet_address : String → String
  -- does the transaction go through, on the named network?
  pub accepts_on : Trace → String → Call → Bool
  -- `hre.config.SDK.project` as the configuration sets it
  pub project : String
