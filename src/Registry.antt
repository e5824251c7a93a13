-- ===== src/Registry.antt =====
-- Tapioca-bar/hardhat.tasks.ts: which function each task of the command line runs, and which parameters it declares.
use tapioca.Base.{String, Option, none, some, List, [], ◌∷◌, ◌++◌}

-- `addParam`, `addOptionalParam` with a default, if there is one, and `addVariadicPositionalParam`.
pub data Param : Type 0 where
  required : String → Option String → Param
  optional : String → Option String → Param
  variadic : String → Param
  -- `addFlag`
  flag : String → Param

abbrev pub param_name : Param → String
param_name (required n d) = n
param_name (optional n d) = n
param_name (variadic n) = n
param_name (flag n) = n

-- `task(name, description, action)` and its parameters; `accounts` alone has its action in place, which prints the signers' addresses.
pub record Registration : Type 0 where
  pub name : String
  pub action : Option String
  pub params : List Param

abbrev pub register : String → Option String → List Param → Registration
register name action params = record { name = name; action = action; params = params }

-- The views.
abbrev pub view_tasks : List Registration
view_tasks =
    register "accounts" none []
    ∷ register "singularityMarkets" (some "getSingularityMarkets__task") []
    ∷ register "bigBangMarkets" (some "getBigBangMarkets__task") []
    ∷ register "getLocalDeployments" (some "getLocalDeployments__task") []
    ∷ register "getSDKDeployments" (some "getSDKDeployments__task") []
    ∷ register "getParticipantSingularityInfo" (some "getParticipantSingularityInfo__task")
        (required "singularity" none ∷ required "participant" none ∷ [])
    ∷ register "getParticipantBigBangInfo" (some "getParticipantBigBangInfo__task")
        (required "singularity" none ∷ required "participant" none ∷ [])
    ∷ register "getSingularityTotals" (some "getSingularityTotals__task")
        (required "singularity" none ∷ [])
    ∷ register "getBigBangTotals" (some "getBigBangTotals__task") (required "bigBang" none ∷ [])
    ∷ []

-- The rights on USDO.
abbrev pub right_tasks : List Registration
right_tasks =
    register "setMinterStatus" (some "setMinterStatus__task")
      (required "operator" none ∷ required "status" none ∷ [])
    ∷ register "setBurnerStatus" (some "setMinterStatus__task")
        (required "operator" none ∷ required "status" none ∷ [])
    ∷ []

-- The deployments.
abbrev pub deploy_tasks : List Registration
deploy_tasks =
    register "deploySGLMarket" (some "deploySGLMarket__task") (
      optional "overrideOptions" none
      ∷ optional "executorName" none
      ∷ optional "oracleName" none
      ∷ optional "tokenStrategyName" none
      ∷ [])
    ∷ register "deployBigBangMarket" (some "deployBigBangMarket__task")
        (optional "overrideOptions" none ∷ [])
    ∷ register "deployOriginsMarket" (some "deployOriginsMarket__task")
        (optional "overrideOptions" none ∷ [])
    ∷ register "deployFullStack" (some "deployFullStack__task") []
    ∷ register "deployLinkedChainStack" (some "deployLinkedChainStack__task") []
    ∷ register "deployOracleMock" (some "deployOracleMock__task") (required "name" none ∷ [])
    ∷ register "deployEmptyStrats" (some "deployEmptyStrats__task")
        (required "type" (some "0") ∷ [])
    ∷ []

-- The configuration of markets, YieldBox and the proxy.
abbrev pub setup_tasks : List Registration
setup_tasks =
    register "setBorrowCap" (some "setBorrowCap__task")
      (optional "singularity" (some " ") ∷ optional "bigBang" (some " ") ∷ required "cap" none ∷ [])
    ∷ register "setLiquidationQueueBidSwapper" (some "setLiquidationQueueBidSwapper__task")
        (required "singularity" none ∷ required "swapper" none ∷ [])
    ∷ register "setLiquidationQueueExecutionSwapper"
        (some "setLiquidationQueueExecutionSwapper__task")
        (required "singularity" none ∷ required "swapper" none ∷ [])
    ∷ register "setLiquidationQueue" (some "setLiquidationQueue__task")
        (required "singularity" none ∷ required "liquidationQueue" none ∷ required "meta" none ∷ [])
    ∷ register "registerYbAssets" (some "registerYbAssets__task") (variadic "strategies" ∷ [])
    ∷ register "setProxyTrustedRemote" (some "setProxyTrustedRemote__task")
        (required "chain" none ∷ required "dst" none ∷ required "src" none ∷ [])
    ∷ register "setProxyAdapterParams" (some "setProxyAdapterParams__task")
        (optional "lzDestinationId" none ∷ [])
    ∷ []

-- The manual tests, and what is beside them.
abbrev pub test_tasks : List Registration
test_tasks =
    register "sameChainBorrow" (some "sameChainBorrow__task") (
      required "market" none
      ∷ required "marketHelper" none
      ∷ required "collateralAmount" none
      ∷ required "borrowAmount" none
      ∷ [])
    ∷ register "otherChainBorrow" (some "otherChainBorrow__task") (
        required "srcLzChainId" none
        ∷ required "destLzChainId" none
        ∷ required "extraGas" none
        ∷ required "assetId" none
        ∷ required "zroAddress" none
        ∷ required "depositGas" none
        ∷ required "singularityGas" none
        ∷ required "airdropGas" none
        ∷ required "depositAmount" none
        ∷ required "oft" none
        ∷ required "proxy" none
        ∷ required "collateralShare" none
        ∷ required "borrowAmount" none
        ∷ required "withdraw" none
        ∷ required "singularityDestination" none
        ∷ [])
    ∷ register "hasStoredPayload" (some "hasStoredPayload__task") (
        required "srcChainId" none
        ∷ required "srcAddress" none
        ∷ required "dstAddress" none
        ∷ required "lzEndpoint" none
        ∷ [])
    ∷ register "retryPayload" (some "retryPayload__task") (
        required "srcChainId" none
        ∷ required "srcAddress" none
        ∷ required "dstAddress" none
        ∷ required "blockHash" none
        ∷ required "lzEndpoint" none
        ∷ [])
    ∷ register "whitelistSingularity" (some "whitelistSingularity__task")
        (required "singularity" none ∷ required "sglProxy" none ∷ [])
    ∷ register "airdropGas" (some "airdropGas__task") (
        required "amount" none
        ∷ required "dstChain" none
        ∷ required "dstAddress" none
        ∷ optional "recursive" none
        ∷ [])
    ∷ register "testCrossChainBorrow" (some "testCrossChainBorrow__task") []
    ∷ register "testCrossChainRepay" (some "crossChainRepay__task") []
    ∷ register "sendFrom" (some "sendFrom__task") (
        required "contractName" none
        ∷ required "src" none
        ∷ required "dst" none
        ∷ required "value" none
        ∷ [])
    ∷ register "sameChainFlowTest" (some "sameChainFlowTest__task") (
        required "bbMarket" none ∷ required "sglMarket" none ∷ required "magnetarAddress" none ∷ [])
    ∷ register "testDeployMockSwapper" (some "testDeployMockSwapper__task") []
    ∷ register "fillMockSwapper" (some "fillMockSwapper__test")
        (required "toft" none ∷ required "assetid" none ∷ [])
    ∷ register "fillCluster" (some "fillCluster__task") (variadic "chains" ∷ [])
    ∷ register "testGmxCall" (some "testGmxEarnCall__task") (required "tx" none ∷ [])
    ∷ []

-- The tasks of one call.
abbrev pub operator_tasks : List Registration
operator_tasks =
    register "marketUpdatePause" (some "marketUpdatePause__task")
      (required "market" none ∷ required "type" none ∷ required "status" none ∷ [])
    ∷ register "setLeverageExecutor" (some "setLeverageExecutor__task")
        (required "market" none ∷ required "executor" none ∷ [])
    ∷ register "marketRescueEth" (some "marketRescueEth__task")
        (required "market" none ∷ required "amount" none ∷ required "to" none ∷ [])
    ∷ register "setMarketConfig" (some "setMarketConfig__task") (required "market" none ∷ [])
    ∷ register "setSingularityConfig" (some "setSingularityConfig__task")
        (required "singularity" none ∷ [])
    ∷ register "setMinAndMaxMintRange" (some "setMinAndMaxMintRange__task")
        (required "bb" none ∷ required "start" none ∷ required "end" none ∷ [])
    ∷ register "setMinAndMaxMintFee" (some "setMinAndMaxMintFee__task")
        (required "bb" none ∷ required "min" none ∷ required "max" none ∷ [])
    ∷ register "setAssetOracle" (some "setAssetOracle__task")
        (required "bb" none ∷ required "oracle" none ∷ required "oracleData" none ∷ [])
    ∷ register "setBigBangConfig" (some "setBigBangConfig__task") (required "bb" none ∷ [])
    ∷ register "setPenroseCluster" (some "setPenroseCluster__task")
        (required "penrose" none ∷ required "cluster" none ∷ [])
    ∷ register "setBigBangEthMarketDebtRate" (some "setBigBangEthMarketDebtRate__task")
        (required "penrose" none ∷ required "rate" none ∷ [])
    ∷ register "setBigBangEthMarket" (some "setBigBangEthMarket__task")
        (required "penrose" none ∷ required "bb" none ∷ [])
    ∷ register "withdrawMarketFees" (some "withdrawFees__task")
        (required "penrose" none ∷ required "twTap" none ∷ variadic "markets" ∷ [])
    ∷ register "setUsdoFlashloanHelper" (some "setUsdoFlashloanHelper__task")
        (required "helper" none ∷ [])
    ∷ register "extractFeesFromUsdo" (some "extractFeesFromUsdo__task") []
    ∷ []

abbrev pub tasks : List Registration
tasks = view_tasks ++ right_tasks ++ deploy_tasks ++ setup_tasks ++ test_tasks ++ operator_tasks
