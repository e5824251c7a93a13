-- ===== src/Exec/Proxies.antt =====
-- Tapioca-bar/tasks: exec/setProxyAdapterParams.ts, exec/setProxyTrustedRemote.ts, whitelistSingularity.ts and
-- exec/03-market-rescueEth.ts.
use tapioca.Base.{String, is_empty, Bool, true, false, Option, none, some, [], ◌∷◌, if◌then◌else◌}
use tapioca.Hre.Types.{Val, str, num, bool, rejected}
use tapioca.Hre.Task.{
  Task, pure, throw, ask_for_tag, get_local_contract, get_contract_at, view, send, ◌>>=◌, ◌>>◌,
}
use tapioca.Setups.{tx}
use tapioca.Utils.{get_deployment}
use tapioca.Exec.CrossChain.{solidity_pack}

-- A Boolean that a view answers.
abbrev is_true : Val → Bool
is_true (bool b) = b
is_true _ = false

-- `if (taskArgs.lzDestinationId && taskArgs.lzDestinationId?.length > 0)`
unfoldable pub set_destination_gas : String → Option String → Task (Unit {0})
set_destination_gas proxy none = pure tt
set_destination_gas proxy (some id) =
    if is_empty id then pure tt else send (tx proxy "setMinDstGas" (str id ∷ num 1 ∷ num 1 ∷ []))

unfoldable pub set_proxy_adapter_params : Option String → Task (Unit {0})
set_proxy_adapter_params destination = do
  proxy ← get_deployment "MarketsProxy"
  already_set ← view (tx proxy "useCustomAdapterParams" [])
  if is_true already_set
      then pure tt
      else send (tx proxy "setUseCustomAdapterParams" (bool true ∷ []))
  set_destination_gas proxy destination

unfoldable pub set_proxy_trusted_remote : String → String → String → Task (Unit {0})
set_proxy_trusted_remote chain dst src = do
  proxy ← get_deployment "MarketsProxy"
  path ← solidity_pack ("address" ∷ "address" ∷ []) (str dst ∷ str src ∷ [])
  send (tx proxy "setTrustedRemote" (str chain ∷ str path ∷ []))

unfoldable pub whitelist_singularity : String → String → Task (Unit {0})
whitelist_singularity singularity sgl_proxy = do
  proxy ← get_contract_at "SGLProxy" (str sgl_proxy)
  send (tx proxy "updateSingularityStatus" (str singularity ∷ bool true ∷ []))

-- The text of the ABI has a comma after its only entry, which JSON.parse refuses; what stands behind that is not reached.
unfoldable pub market_rescue_eth : Task (Unit {0})
market_rescue_eth = do
  tag ← ask_for_tag
  penrose ← get_local_contract "Penrose" tag
  throw (rejected "JSON.parse")
