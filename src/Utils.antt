-- ===== src/Utils.antt =====
-- Tapioca-bar/tasks/utils.ts: lookups by name that the tasks share, and the handover of
-- ownership.
pub mod Ownership
use tapioca.Base.{
  String, ◌==◌, starts_with, is_empty, Option, none, some, List, [], ◌∷◌, find, if◌then◌else◌,
}
use tapioca.Hre.Types.{
  Val, undefined, str, TContract, Build, Call, Vm, thrown, type_error, rejected,
}
use tapioca.Hre.Task.{
  Task, pure, throw, require, ask, ask_or, try_catch, guard, send, new_vm, get_contract_at, ◌>>=◌,
  ◌>>◌,
}

-- `list.find((e) => e.name == name)`
unfoldable pub find_named : String → List TContract → Option TContract
unfolding find
find_named name = find (λ e. e.name == name)

-- `list.find((e) => e.name.startsWith(prefix))`
unfoldable pub find_prefixed : String → List TContract → Option TContract
unfolding find
find_prefixed prefix = find (λ e. starts_with e.name prefix)

-- `e?.address`
abbrev pub address_of : Option TContract → Val
address_of none = undefined
address_of (some e) = str e.address

unfoldable pub load_vm : String → Task Vm
load_vm tag = new_vm tag

-- `if (!address) throw`: a missing entry and an empty address are both falsy.
abbrev pub address_or_throw : String → Option TContract → Task String
address_or_throw name none = throw (thrown name)
address_or_throw name (some e) = if is_empty e.address then throw (thrown name) else pure e.address

-- `artifactName ?? contractName` is the caller's choice of `artifact`.
unfoldable pub get_after_dep_contract : List TContract → String → String → Task String
get_after_dep_contract deps contract_name artifact = do
  contract_addr ← address_or_throw contract_name (find_named contract_name deps)
  get_contract_at artifact (str contract_addr)

-- The `try`/`catch` of `getDeployment`: the local file, or the SDK's record.
unfoldable pub deployments : Task (List TContract)
deployments =
    try_catch (ask_or (rejected "readFileSync") (λ w t. w.read_deployments t))
      (ask_or (rejected "getDeployment") (λ w t. w.sdk_deployments t))

unfoldable pub get_deployment : String → Task String
get_deployment name = do
  found ← deployments
  deployment ← require (thrown "[-] Contract not found") (find_named name found)
  get_contract_at name (str deployment.address)

unfoldable pub get_singularity_contract : String → Task String
get_singularity_contract singularity = do
  valid ← ask (λ w _. w.is_address singularity)
  guard valid (thrown "[-] Singularity address not valid")
  get_contract_at "Singularity" (str singularity)

unfoldable pub get_big_bang_contract : String → Task String
get_big_bang_contract big_bang = do
  valid ← ask (λ w _. w.is_address big_bang)
  guard valid (thrown "[-] BigBang address not valid")
  get_contract_at "Singularity" (str big_bang)

-- `getLocalContract` of this file: no contract for no address.
unfoldable pub get_local_contract : String → Option TContract → Task (Option String)
get_local_contract name none = pure none
get_local_contract name (some e) =
    if is_empty e.address
    then pure none
    else (do c ← get_contract_at name (str e.address); pure (some c))

abbrev pub ownership : String → String → Call
ownership multisig target = record {
  target = target;
  fn = "transferOwnership";
  args = str multisig ∷ [];
}

-- One round of the loop of `transferOwnership`.
unfoldable pub transfer_one : String → String → String → Build → Task (Unit {0})
transfer_one tag chain_id multisig deployment = do
  locals ← ask (λ w t. w.load_local t tag chain_id)
  found ←
      get_local_contract deployment.deployment_name
        (find_prefixed deployment.deployment_name locals)
  crt_contract ← require (type_error "transferOwnership") found
  send (ownership multisig crt_contract)

unfoldable pub transfer_ownership : String → String → String → List Build → Task (Unit {0})
transfer_ownership tag chain_id multisig [] = pure tt
transfer_ownership tag chain_id multisig (d ∷ ds) = do
  transfer_one tag chain_id multisig d
  transfer_ownership tag chain_id multisig ds
