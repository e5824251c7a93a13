-- ===== src/Builds.antt =====
-- Tapioca-bar/tasks/deployBuilds: what the deployer is told to deploy, and which constructor
-- arguments it fills in from other deployments.
use tapioca.Base.{ℕ, String, none, some, false, List, [], ◌∷◌, is_empty, not}
use tapioca.Hre.Types.{Val, str, num, TContract, Dependency, Build, no_meta, thrown}
use tapioca.Hre.Task.{Task, pure, guard, ◌>>◌}
use Prim.Native.String.{◌++◌}

-- `hre.ethers.constants.AddressZero`
abbrev pub address_zero : String
address_zero = "0x0000000000000000000000000000000000000000"

abbrev pub dep : ℕ → String → Dependency
dep i name = record { arg_position = i; deployment_name = name }

-- A build with no metadata; `runStaticSimulation` is left out.
abbrev pub build : String → String → List Val → List Dependency → Build
build factory name args deps = record {
  factory = factory;
  deployment_name = name;
  args = args;
  depends_on = deps;
  meta = no_meta;
  run_static_simulation = none;
}

-- `runStaticSimulation: false`
abbrev pub unsimulated : Build → Build
unsimulated b = record b { run_static_simulation = some false }

unfoldable pub build_yield_box : Val → List Build
build_yield_box weth =
    build "YieldBoxURIBuilder" "YieldBoxURIBuilder" [] []
    ∷ build "YieldBox" "YieldBox" (weth ∷ str address_zero ∷ []) (dep 1 "YieldBoxURIBuilder" ∷ [])
    ∷ []

unfoldable pub build_penrose : Val → Val → Val → Val → Val → Val → Build
build_penrose tap weth owner yield_box cluster chain_id = unsimulated (
    build "Penrose" "Penrose" (yield_box ∷ cluster ∷ tap ∷ weth ∷ chain_id ∷ owner ∷ [])
      (dep 0 "YieldBox" ∷ dep 1 "Cluster" ∷ []))

unfoldable pub build_master_contracts : List Build
build_master_contracts =
    build "Singularity" "MediumRiskMC" [] [] ∷ build "BigBang" "BigBangMediumRiskMC" [] [] ∷ []

unfoldable pub build_multi_swapper : Val → Val → Val → Val → Build
build_multi_swapper router factory yield_box owner = unsimulated (
    build "UniswapV2Swapper" "MultiSwapper" (router ∷ factory ∷ yield_box ∷ owner ∷ [])
      (dep 2 "YieldBox" ∷ []))

unfoldable pub build_oracle_mock : String → String → ℕ → Build
build_oracle_mock name symbol rate =
    build "OracleMock" name (str name ∷ str symbol ∷ num rate ∷ []) []

-- The USDO's modules, in the order of its constructor's arguments 4 to 10.
abbrev pub usdo_modules : List String
usdo_modules =
    "USDOLeverageModule" ∷ "USDOLeverageDestinationModule" ∷ "USDOMarketModule"
    ∷ "USDOMarketDestinationModule" ∷ "USDOOptionsModule" ∷ "USDOOptionsDestinationModule"
    ∷ "USDOGenericModule" ∷ []

unfoldable pub build_usd0 : Val → Val → Val → Val → Build
build_usd0 lz_end_point owner yield_box cluster =
    let zero_arg = str address_zero in
    unsimulated (
      build "USDO" "USDO"
        (lz_end_point ∷ yield_box ∷ cluster ∷ owner ∷ zero_arg ∷ zero_arg ∷ zero_arg ∷ zero_arg
          ∷ zero_arg ∷ zero_arg ∷ zero_arg ∷ [])
        (dep 1 "YieldBox"
          ∷ dep 2 "Cluster"
          ∷ dep 4 "USDOLeverageModule"
          ∷ dep 5 "USDOLeverageDestinationModule"
          ∷ dep 6 "USDOMarketModule"
          ∷ dep 7 "USDOMarketDestinationModule"
          ∷ dep 8 "USDOOptionsModule"
          ∷ dep 9 "USDOOptionsDestinationModule"
          ∷ dep 10 "USDOGenericModule"
          ∷ []))

-- `curvePoolAssetCount` has the default '4', and the only caller leaves it out.
unfoldable pub build_stable_to_usd0_bidder : Val → Val → List Build
build_stable_to_usd0_bidder crv_stable_pool yield_box =
    unsimulated (
      build "CurveSwapper" "CurveSwapper" (crv_stable_pool ∷ yield_box ∷ [])
        (dep 1 "YieldBox" ∷ []))
    ∷ unsimulated (
        build "CurveStableToUsdoBidder" "CurveStableToUsdoBidder" (str address_zero ∷ str "4" ∷ [])
          (dep 0 "CurveSwapper" ∷ dep 1 "Penrose" ∷ []))
    ∷ []

unfoldable pub build_singularity_modules : List Build
build_singularity_modules =
    build "SGLLiquidation" "SGLLiquidation" [] []
    ∷ build "SGLBorrow" "SGLBorrow" [] []
    ∷ build "SGLCollateral" "SGLCollateral" [] []
    ∷ build "SGLLeverage" "SGLLeverage" [] []
    ∷ []

unfoldable pub build_big_bang_modules : List Build
build_big_bang_modules =
    build "BBLiquidation" "BBLiquidation" [] []
    ∷ build "BBBorrow" "BBBorrow" [] []
    ∷ build "BBCollateral" "BBCollateral" [] []
    ∷ build "BBLeverage" "BBLeverage" [] []
    ∷ []

-- The two guards come before the build; `throw` here throws a text, not an `Error`.
unfoldable pub build_empty_strat : String → TContract → Task Build
build_empty_strat yield_box token = do
  guard (not (is_empty token.address)) (thrown "[-] Token needs to be deployed")
  guard (not (is_empty yield_box)) (thrown "[-] YieldBox needs to be deployed")
  pure (record {
    factory = "ERC20WithoutStrategy";
    deployment_name = "ERC20WithoutStrategy-" ++ token.name;
    args = str yield_box ∷ str token.address ∷ [];
    depends_on = [];
    meta = record no_meta { strat_for = some token.name };
    run_static_simulation = none;
  })

unfoldable pub build_usdo_modules : Val → Val → Val → List Build
build_usdo_modules lz_endpoint yield_box cluster =
    let module_build : String → Build = λ name.
      build name name (lz_endpoint ∷ yield_box ∷ cluster ∷ [])
        (dep 1 "YieldBox" ∷ dep 2 "Cluster" ∷ []) in
    module_build "USDOLeverageModule"
    ∷ module_build "USDOLeverageDestinationModule"
    ∷ module_build "USDOMarketModule"
    ∷ module_build "USDOMarketDestinationModule"
    ∷ module_build "USDOOptionsModule"
    ∷ module_build "USDOOptionsDestinationModule"
    ∷ module_build "USDOGenericModule"
    ∷ []

unfoldable pub build_cluster : Val → Val → Build
build_cluster lz_endpoint owner =
    unsimulated (build "Cluster" "Cluster" (lz_endpoint ∷ owner ∷ []) [])

unfoldable pub build_usdo_flashloan_helper : Val → Build
build_usdo_flashloan_helper owner = unsimulated (
    build "USDOFlashloanHelper" "USDOFlashloanHelper" (str address_zero ∷ owner ∷ [])
      (dep 0 "USDO" ∷ []))

unfoldable pub build_simple_leverage_executor : Val → Val → Build
build_simple_leverage_executor cluster yield_box = unsimulated (
    build "SimpleLeverageExecutor" "SimpleLeverageExecutor"
      (yield_box ∷ str address_zero ∷ cluster ∷ [])
      (dep 0 "YieldBox" ∷ dep 1 "MultiSwapper" ∷ dep 2 "Cluster" ∷ []))

-- The amounts are texts of wei: `parseEther('10').toString()` and so on.
unfoldable pub build_mocks : List Build
build_mocks =
    build "WETH9Mock" "WETH9Mock" (str "10000000000000000000" ∷ []) []
    ∷ build "ERC20FactoryMock" "ERC20FactoryMock" [] []
    ∷ build "ERC20Mock" "ERC20Mock-USDC"
        (str "10000000000000000000000000" ∷ str "18" ∷ str "1000000000000000000000" ∷ []) []
    ∷ build "OracleMockFactory" "OracleMockFactory" [] []
    ∷ []

unfoldable pub build_test : Build
build_test = unsimulated (build "Test" "Test" [] [])
