-- ===== src/Deploy/Stack.antt =====
-- What 00-deployFullStack.ts and 01-deployLinkedChainStack.ts have in common: the addresses that
-- the stack stands on, and the run of a queue with the setup after it.
pub mod Full
pub mod Linked
pub mod Silent
pub mod Order
pub mod Setup
pub mod Run
pub mod Whole
use tapioca.Base.{
  String, ◌==◌, is_empty, Bool, true, false, not, ◌||◌, ◌&&◌, is_some, Option, none, some, List, [],
  ◌∷◌, ◌++◌, map, if◌then◌else◌,
}
use tapioca.Hre.Types.{
  Val, undefined, str, strs, TContract, Build, Call, ChainInfo, Vm, thrown, type_error, rejected,
}
use tapioca.Hre.Task.{
  Task, pure, throw, ask, ask_or, guard, require, confirm, send, send_all, try_catch, execute, save,
  try_verify, list, ◌>>=◌, ◌>>◌,
}
use tapioca.Builds.{address_zero, build_yield_box, build_cluster}
use tapioca.Setups.{MultiCall, tx}
use tapioca.Utils.{find_prefixed, address_of}
use tapioca.Deploy.Lookup.{global_or_local}

-- `weth`, by its address. Off the test networks it is an object in any case; reading the table
-- throws if nothing binds its name.
unfoldable pub find_weth : String → ChainInfo → Bool → Task (Option Val)
unfolding find_prefixed
find_weth tag chain_info true = ask λ w t.
    elim (find_prefixed "WETHMock" (w.load_global t tag "tapioca-mocks" chain_info.chain_id)) [
      | some e ↦ some (str e.address)
      | none ↦ elim (find_prefixed "WETHMock" (w.load_local t tag chain_info.chain_id)) [
        | some e ↦ some (str e.address)
        | none ↦ none
      ]
    ]
find_weth tag chain_info false = do
  weth_of ← ask_or (type_error "TOKENS_DEPLOYMENTS") (λ w _. w.tokens_deployments_weth)
  pure (some (weth_of chain_info.chain_id))

-- `ybAddress`, `undefined` where a test network has no YieldBox
unfoldable pub find_yield_box : String → ChainInfo → Bool → Task Val
find_yield_box tag chain_info testnet = do
  yb ← global_or_local tag "yieldbox" chain_info.chain_id "YieldBox"
  guard (is_some yb || testnet) (thrown "[-] YieldBox not found")
  pure (address_of yb)

-- `clusterAddress`; the field is read also where no Cluster was found.
unfoldable pub find_cluster : String → ChainInfo → Bool → Task Val
find_cluster tag chain_info testnet = do
  found ← global_or_local tag "tapioca-periphery" chain_info.chain_id "Cluster"
  guard (is_some found || testnet) (thrown "[-] Cluster not found")
  cluster_dep ← require (type_error "address") found
  pure (str cluster_dep.address)

-- `!address || address == AddressZero`
abbrev pub is_missing : Val → Bool
is_missing undefined = true
is_missing (str s) = is_empty s || s == address_zero
is_missing _ = false

-- What the queue of a stack is made from.
pub record StackInputs : Type 0 where
  pub chain_info : ChainInfo
  pub testnet : Bool
  pub weth : Val
  pub yield_box : Val
  pub cluster : Val
  pub signer : Val
  pub v2_router : Val
  pub v2_factory : Val

-- The builds that only a test network gets, if the stack has none yet.
unfoldable pub base_queue : StackInputs → List Build
unfolding build_yield_box build_cluster
base_queue s =
    if s.testnet
    then (if is_missing s.yield_box then build_yield_box s.weth else [])
      ++ (if is_missing s.cluster
          then build_cluster (str s.chain_info.address) s.signer ∷ []
          else [])
    else []

abbrev pub multicall_args : List MultiCall → List Val
multicall_args calls = strs (map (λ c. c.target) calls) ∷ strs (map (λ c. c.call_data) calls) ∷ []

-- `signer.sendTransaction({ data, to })`
abbrev pub raw_call : MultiCall → Call
raw_call c = tx c.target "sendTransaction" (str c.call_data ∷ [])

-- All calls in one multicall; if that fails, one by one.
unfoldable pub run_calls : String → List MultiCall → Task (Unit {0})
run_calls multicall [] = pure tt
run_calls multicall (c ∷ cs) =
    try_catch (send (tx multicall "multicall" (multicall_args (c ∷ cs))))
      (send_all (map raw_call (c ∷ cs)))

-- Deploys and saves the queue, and then runs the setup on what the deployer lists. The
-- confirmations of `execute` and its second argument are the SDK's.
unfoldable pub run_stack : Vm → (List TContract → Task (List MultiCall)) → Task (Unit {0})
run_stack vm setup = do
  execute vm
  save vm
  want_to_verify ← confirm "wantToVerify"
  (if want_to_verify then try_verify vm else pure tt)
  vm_list ← list vm
  multicall ← ask_or (rejected "getMulticall") (λ w t. w.multicall t vm)
  calls ← setup vm_list
  run_calls multicall calls
