-- ===== src/Setups.antt =====
-- Tapioca-bar/tasks/setups: the transactions after a deployment. Each builder returns a list of
-- calls for a multicall, which only `build_yield_box_assets` fills; the others send directly.
use tapioca.Base.{
  String, is_empty, Bool, true, false, not, Option, none, some, List, [], ◌∷◌, filter,
}
use tapioca.Hre.Types.{Val, undefined, str, num, bool, TContract, ChainInfo, Call}
use tapioca.Hre.Task.{Task, pure, ask, send, encode_function_data, get_contract_at, ◌>>=◌, ◌>>◌}
use tapioca.Utils.{find_named, address_of, address_or_throw, get_after_dep_contract}

-- `Multicall3.Call3Struct` with `allowFailure: false`
pub record MultiCall : Type 0 where
  pub target : String
  pub call_data : String

abbrev lz_chain_id_of : Option ChainInfo → Val
lz_chain_id_of none = undefined
lz_chain_id_of (some c) = str c.lz_chain_id

abbrev pub tx : String → String → List Val → Call
tx target fn args = record { target = target; fn = fn; args = args }

unfoldable pub build_penrose_setup : List TContract → Task (List MultiCall)
build_penrose_setup deps = do
  penrose ← get_after_dep_contract deps "Penrose" "Penrose"
  usd0 ← get_after_dep_contract deps "USDO" "USDO"
  send (tx penrose "setUsdoToken" (str usd0 ∷ []))
  pure []

unfoldable pub build_master_contracts_setup : List TContract → Task (List MultiCall)
build_master_contracts_setup deps = do
  penrose ← get_after_dep_contract deps "Penrose" "Penrose"
  medium_risk_mc ← get_after_dep_contract deps "MediumRiskMC" "Singularity"
  big_bang_medium_risk_mc ← get_after_dep_contract deps "BigBangMediumRiskMC" "BigBang"
  send (tx penrose "registerSingularityMasterContract" (str medium_risk_mc ∷ num 1 ∷ []))
  send (tx penrose "registerBigBangMasterContract" (str big_bang_medium_risk_mc ∷ num 1 ∷ []))
  pure []

unfoldable pub build_usdo_flashloan_setup : List TContract → Task (List MultiCall)
build_usdo_flashloan_setup deps = do
  helper ← get_after_dep_contract deps "USDOFlashloanHelper" "USDOFlashloanHelper"
  usd0 ← get_after_dep_contract deps "USDO" "USDO"
  send (tx usd0 "setFlashloanHelper" (str helper ∷ []))
  send (tx usd0 "setMinterStatus" (str helper ∷ bool true ∷ []))
  send (tx usd0 "setBurnerStatus" (str helper ∷ bool true ∷ []))
  pure []

unfoldable pub build_cluster_setup : List TContract → Task (List MultiCall)
build_cluster_setup deps = do
  cluster ← get_after_dep_contract deps "Cluster" "Cluster"
  let multi_swapper = address_of (find_named "MultiSwapper" deps)
  usd0 ← get_after_dep_contract deps "USDO" "USDO"
  lz_chain_id ← ask (λ w _. lz_chain_id_of (w.get_chain_by w.chain_id))
  send (tx cluster "updateContract" (lz_chain_id ∷ multi_swapper ∷ bool true ∷ []))
  send (tx cluster "updateContract" (lz_chain_id ∷ str usd0 ∷ bool true ∷ []))
  pure []

-- `e.meta?.stratFor`, as a test
abbrev pub is_strategy : TContract → Bool
is_strategy e = elim e.meta.strat_for [ none ↦ false | some s ↦ not (is_empty s) ]

-- `deps.find((e) => e.name == strategy.meta.stratFor)`
abbrev pub token_of : List TContract → TContract → Option TContract
token_of deps strategy = elim strategy.meta.strat_for [
  | none ↦ none
  | some name ↦ find_named name deps
]

-- The arguments of `registerAsset` for one strategy.
abbrev pub asset_args : List TContract → TContract → List Val
asset_args deps strategy =
    num 1 ∷ address_of (token_of deps strategy) ∷ str strategy.address ∷ num 0 ∷ []

-- The loop over the strategies of `deps`.
unfoldable pub register_calls : String → List TContract → List TContract → Task (List MultiCall)
register_calls yield_box deps [] = pure []
register_calls yield_box deps (s ∷ rest) = do
  call_data ← encode_function_data "registerAsset" (asset_args deps s)
  calls ← register_calls yield_box deps rest
  pure (record { target = yield_box; call_data = call_data } ∷ calls)

unfoldable pub build_yield_box_assets : List TContract → Task (List MultiCall)
build_yield_box_assets deps = do
  yield_box_addr ← address_or_throw "[-] One address not found" (find_named "YieldBox" deps)
  yield_box ← get_contract_at "YieldBox" (str yield_box_addr)
  register_calls yield_box_addr deps (filter is_strategy deps)

-- `asset.meta.stratFor` as an argument
abbrev pub strat_for_arg : TContract → Val
strat_for_arg e = elim e.meta.strat_for [ none ↦ undefined | some s ↦ str s ]

-- The loop of 901-buildOracleMockSetup.ts, which takes `stratFor` itself for the token's address.
unfoldable pub register_strat_for : String → List TContract → Task (List MultiCall)
register_strat_for yield_box [] = pure []
register_strat_for yield_box (e ∷ rest) = do
  call_data ←
      encode_function_data "registerAsset" (num 1 ∷ strat_for_arg e ∷ str e.address ∷ num 0 ∷ [])
  calls ← register_strat_for yield_box rest
  pure (record { target = yield_box; call_data = call_data } ∷ calls)

unfoldable pub build_oracle_mock_setup : List TContract → Task (List MultiCall)
build_oracle_mock_setup deps = do
  yield_box_addr ← address_or_throw "[-] One address not found" (find_named "YieldBox" deps)
  yield_box ← get_contract_at "YieldBox" (str yield_box_addr)
  register_strat_for yield_box_addr (filter is_strategy deps)
