-- ===== src/Hre/Types.antt =====
-- The values that the tasks pass to the SDK, to ethers and to inquirer.
use tapioca.Base.{ℕ, String, Bool, Option, none, List}

-- An argument of a contract call or of a constructor; `undefined` is JavaScript's.
pub data Val : Type 0 where
  undefined : Val
  str : String → Val
  num : ℕ → Val
  -- a negative number, -(n + 1)
  negsuc : ℕ → Val
  bool : Bool → Val
  strs : List String → Val
  -- an object, by its fields in order
  struct : List (String × String) → Val
  -- a contract object, by its address
  object : String → Val
  -- the overrides `{ value }` of a transaction
  value : Val → Val

-- The arguments 0, 1 and 4 of a `PayloadStored` event of an endpoint.
pub record PayloadStored : Type 0 where
  pub src_chain_id : ℕ
  pub src_address : String
  pub payload : String

-- `meta.collateral` and `meta.asset` of a market.
pub record AssetMeta : Type 0 where
  pub address : Val
  pub strategy_address : Val

-- The fields of `TContract.meta` that the tasks read or write.
pub record Meta : Type 0 where
  pub strat_for : Option String
  pub is_sgl_market : Option Bool
  pub is_big_bang_market : Option Bool
  pub collateral : Option AssetMeta
  pub asset : Option AssetMeta
  pub is_toft_host : Option Bool
  pub is_toft_minter : Option Bool
  pub args : Option (List Val)

-- `meta: {}`
abbrev pub no_meta : Meta
no_meta = record {
  strat_for = none;
  is_sgl_market = none;
  is_big_bang_market = none;
  collateral = none;
  asset = none;
  is_toft_host = none;
  is_toft_minter = none;
  args = none;
}

-- `TContract`, an entry of the deployment database.
pub record TContract : Type 0 where
  pub name : String
  pub address : String
  pub meta : Meta

-- `{ argPosition, deploymentName }` of `dependsOn`.
pub record Dependency : Type 0 where
  pub arg_position : ℕ
  pub deployment_name : String

-- `IDeployerVMAdd`: what `VM.add` takes. `factory` is the name that the contract factory was
-- made from. `dependsOn` left out is the empty list.
pub record Build : Type 0 where
  pub factory : String
  pub deployment_name : String
  pub args : List Val
  pub depends_on : List Dependency
  pub meta : Meta
  pub run_static_simulation : Option Bool

-- The client's side of a `DeployerVM`: what has been handed to it. `born` is the number of events before
-- the instance was made.
pub record Vm : Type 0 where
  pub born : ℕ
  pub tag : String
  pub queue : List Build
  pub loaded : List TContract

-- `hre.SDK.utils.getChainBy`
pub record ChainInfo : Type 0 where
  pub name : String
  pub address : String
  pub chain_id : String
  pub lz_chain_id : String
  pub tags : List String

-- One transaction: `target.fn(...args)`.
pub record Call : Type 0 where
  pub target : String
  pub fn : String
  pub args : List Val

-- What a task does that others can see, `prompted` on the terminal and the rest on the chain
-- or in the deployment database.
pub data Event : Type 0 where
  prompted : String → Event
  sent : Call → Event
  deployed : String → List Val → String → Event
  vm_executed : Vm → Event
  vm_saved : Vm → Event
  vm_verified : Vm → Event
  -- a deployment with a signer on the named network
  deployed_on : String → String → List Val → String → Event
  -- a transaction with a signer on the named network
  sent_on : String → Call → Event
  -- `db.saveLocally` of one entry on a chain
  saved_locally : String → TContract → Event
  -- `hre.run('verify:verify', ...)` of an address
  source_verified : String → List Val → Event
  -- an assignment to `hre.config.SDK.project`
  project_set : String → Event

-- The newest event comes first.
abbrev pub Trace : Type 0
Trace = List Event

-- `throw`, a property of `undefined`, and an awaited SDK or ethers call that fails.
pub data Error : Type 0 where
  thrown : String → Error
  type_error : String → Error
  rejected : String → Error
