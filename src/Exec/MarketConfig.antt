-- ===== src/Exec/MarketConfig.antt =====
-- Tapioca-bar/tasks/exec: 04-market-setMarketConfig.ts, 05-singularity-setSingularityConfig.ts,
-- 09-bb-setBigBangConfig.ts and setBorrowCap.ts. Each makes one call of `executeMarketFn`.
use tapioca.Base.{String, Option, none, some, List, [], ◌∷◌, ◌++◌, if◌then◌else◌}
use tapioca.Hre.Types.{Val, undefined, str, num, rejected}
use tapioca.Hre.Task.{
  Task, pure, throw, ask, require, input, ask_for_tag, get_local_contract, get_contract_at, view,
  encode_function_data, send, ◌>>=◌,
}
use tapioca.Builds.{address_zero}
use tapioca.Setups.{tx}
use tapioca.Deploy.BigBangMarket.{execute_market_fn}

-- One prompt after the other.
unfoldable pub inputs : List String → Task (List Val)
inputs [] = pure []
inputs (n ∷ ns) = do answer ← input n; rest ← inputs ns; pure (str answer ∷ rest)

-- `interface.encodeFunctionData(fn, args)` where the contract has no function of that name with so
-- many parameters: it throws, whatever the arguments are.
unfoldable pub encode_misfit : String → List Val → Task String
encode_misfit fn args = throw (rejected fn)

-- `penrose.executeMarketFn([market.address], [callData], true)`, after the encoding.
unfoldable pub execute_on_market : String → String → String → List Val → Task (Unit {0})
execute_on_market penrose market fn args = do
  call_data ← encode_function_data fn args
  send (execute_market_fn penrose market call_data)

abbrev pub first_config : List String
first_config = "oracle" ∷ "oracleData" ∷ "conservator" ∷ []

abbrev pub fee_config : List String
fee_config =
    "protocolFee" ∷ "liquidationBonusAmount" ∷ "minLiquidatorReward" ∷ "maxLiquidatorReward"
    ∷ "totalBorrowCap" ∷ "collateralizationRate" ∷ "liquidationCollateralizationRate" ∷ []

abbrev pub singularity_config : List String
singularity_config =
    "borrowOpeningFee" ∷ "lqCollateralizationRate" ∷ "liquidationMultiplier"
    ∷ "minimumTargetUtilization" ∷ "maximumTargetUtilization" ∷ "minimumInterestPerSecond"
    ∷ "maximumInterestPerSecond" ∷ "interestElasticity" ∷ []

abbrev pub big_bang_config : List String
big_bang_config =
    "minDebtRate" ∷ "maxDebtRate" ∷ "debtRateAgainstEthMarket" ∷ "liquidationMultiplier" ∷ []

-- The deprecated `callerFee`, 0, stands between the two groups of answers. They are eleven, and
-- `setMarketConfig` of Tapioca-bar/contracts/markets/Market.sol has ten parameters.
unfoldable pub set_market_config : String → Task (Unit {0})
set_market_config market_arg = do
  tag ← ask_for_tag
  penrose ← get_local_contract "Penrose" tag
  market ← get_contract_at "Market" (str market_arg)
  heads ← inputs first_config
  rest ← inputs fee_config
  call_data ← encode_misfit "setMarketConfig" (heads ++ (num 0 ∷ rest))
  send (execute_market_fn penrose market call_data)

-- `borrowOpeningFee()` is read for the default of the first prompt.
unfoldable pub set_singularity_config : String → Task (Unit {0})
set_singularity_config singularity = do
  tag ← ask_for_tag
  penrose ← get_local_contract "Penrose" tag
  market ← get_contract_at "Singularity" (str singularity)
  opening_fee ← view (tx market "borrowOpeningFee" [])
  args ← inputs singularity_config
  execute_on_market penrose market "setSingularityConfig" args

unfoldable pub set_big_bang_config : String → Task (Unit {0})
set_big_bang_config bb = do
  tag ← ask_for_tag
  penrose ← get_local_contract "Penrose" tag
  market ← get_contract_at "BigBang" (str bb)
  args ← inputs big_bang_config
  execute_on_market penrose market "setBigBangConfig" args

-- `marketAddress`: the Singularity if that is an address, else the BigBang, else `undefined`.
unfoldable pub market_address : String → String → Task Val
market_address singularity big_bang = ask λ w _.
    if w.is_address singularity
    then str singularity
    else (if w.is_address big_bang then str big_bang else undefined)

-- The eleven arguments of `setMarketConfig`, one more than it has parameters; the cap is the ninth.
-- `toUtf8Bytes('')` is empty.
abbrev pub cap_args : String → List Val
cap_args cap =
    str address_zero
    ∷ str ""
    ∷ str address_zero
    ∷ num 0
    ∷ num 0
    ∷ num 0
    ∷ num 0
    ∷ num 0
    ∷ str cap
    ∷ num 0
    ∷ num 0
    ∷ []

-- An address that is `undefined` cannot be an argument of a call.
abbrev pub text_of : Val → Option String
text_of (str s) = some s
text_of _ = none

-- The call names the address of the argument, not that of the contract object.
unfoldable pub set_cap : String → String → String → Task (Unit {0})
set_cap singularity big_bang cap = do
  tag ← ask_for_tag
  penrose ← get_local_contract "Penrose" tag
  address ← market_address singularity big_bang
  market ← get_contract_at "Market" address
  call_data ← encode_misfit "setMarketConfig" (cap_args cap)
  target ← require (rejected "executeMarketFn") (text_of address)
  send (execute_market_fn penrose target call_data)
