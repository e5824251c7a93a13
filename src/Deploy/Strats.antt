-- ===== src/Deploy/Strats.antt =====
-- `loadStrats` of Tapioca-bar/tasks/deploy/deploySGLMarket.ts, which deployOriginsMarket.ts repeats.
use Prim.Native.String.{◌++◌}
use tapioca.Base.{String, Option, none, some, [], ◌∷◌}
use tapioca.Hre.Types.{Val, str, TContract, Vm, ChainInfo, thrown, rejected}
use tapioca.Hre.Task.{
  Task, pure, ask_or, require, guard, input, get_chain, get_contract_at, view, add, execute, save,
  try_verify, first_address, ◌>>=◌, ◌>>◌,
}
use tapioca.Builds.{build_oracle_mock}
use tapioca.Setups.{tx}
use tapioca.Utils.{load_vm, address_of}
use tapioca.Deploy.Lookup.{find_oracle, get_local, name_of, name_or, is_testnet}

-- On a host chain, the strategy that Penrose holds for USDO. A contract object is never falsy, so
-- the code's `if (!penroseContract)` has no branch here.
unfoldable pub penrose_strategy : String → Task Val
penrose_strategy tag = do
  penrose_deployment ← get_local "Penrose" tag
  penrose_contract ← get_contract_at "Penrose" (address_of penrose_deployment)
  usdo ← get_local "USDO" tag
  usdo_deployment ← require (thrown "[-] USDO not found on host chain") usdo
  view (tx penrose_contract "emptyStrategies" (str usdo_deployment.address ∷ []))

unfoldable pub strategy_address : String → Option TContract → Task Val
strategy_address tag (some s) = pure (str s.address)
strategy_address tag none = penrose_strategy tag

-- `usd0Strategy.address`: a local deployment's, or what Penrose answers.
unfoldable pub usd0_strategy : String → Task Val
usd0_strategy tag = do
  local_strategy ← get_local "ERC20WithoutStrategy-USDO" tag
  strategy_address tag local_strategy

-- The mock that a test network gets where no oracle is registered.
unfoldable pub deploy_oracle_mock : Vm → Option TContract → Task Vm
deploy_oracle_mock vm token = do
  oracle_rate ← input "oracleRate"
  token_name ← name_of token
  rate ← ask_or (rejected "parseEther") (λ w _. w.parse_ether oracle_rate)
  let vm' = add vm (build_oracle_mock ("OracleMock-" ++ token_name) ("OCM-" ++ token_name) rate)
  execute vm'
  save vm'
  try_verify vm'
  pure vm'

unfoldable pub oracle_or_mock : Vm → ChainInfo → Option TContract → Option TContract → Task String
oracle_or_mock vm chain_info token (some oracle) = pure oracle.address
oracle_or_mock vm chain_info token none = do
  guard (is_testnet chain_info) (thrown "[-] Oracle not found")
  vm' ← deploy_oracle_mock vm token
  first_address vm'

pub record Strats : Type 0 where
  pub usd0_strategy_address : Val
  pub oracle_address : String

unfoldable pub load_strats : String → Option TContract → Option String → Task Strats
load_strats tag token oracle_name = do
  vm ← load_vm tag
  strategy ← usd0_strategy tag
  chain_info ← get_chain
  oracle_filter_name ← name_or oracle_name "OracleMock-" token
  oracle ← find_oracle tag chain_info.chain_id oracle_filter_name
  oracle_address ← oracle_or_mock vm chain_info token oracle
  pure (record { usd0_strategy_address = strategy; oracle_address = oracle_address })
