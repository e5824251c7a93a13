-- ===== src/TapiocaZ/Builds.antt =====
-- TapiocaZ/tasks/deployBuilds, one function per file. A builder awaits the contract's factory, and
-- fails where no contract has the name it asks for.
use tapioca.Base.{String, none, List, []}
use tapioca.Hre.Types.{Val, Build, no_meta}
use tapioca.Hre.Task.{Task, pure, get_contract_factory, ◌>>◌}

-- What the builders have in common.
unfoldable pub build : String → String → List Val → Task Build
build factory deployment_name args = do
  get_contract_factory factory
  pure (record {
    factory = factory;
    deployment_name = deployment_name;
    args = args;
    depends_on = [];
    meta = no_meta;
    run_static_simulation = none;
  })

unfoldable pub build_toft : String → List Val → Task Build
build_toft deployment_name args = build "TOFT" deployment_name args

unfoldable pub build_mtoft : String → List Val → Task Build
build_mtoft deployment_name args = build "mTOFT" deployment_name args

unfoldable pub build_toft_sender_module : String → List Val → Task Build
build_toft_sender_module deployment_name args = build "TOFTSender" deployment_name args

unfoldable pub build_toft_receiver_module : String → List Val → Task Build
build_toft_receiver_module deployment_name args = build "TOFTReceiver" deployment_name args

unfoldable pub build_toft_market_receiver_module : String → List Val → Task Build
build_toft_market_receiver_module deployment_name args =
    build "TOFTMarketReceiverModule" deployment_name args

unfoldable pub build_toft_options_receiver_module : String → List Val → Task Build
build_toft_options_receiver_module deployment_name args =
    build "TOFTOptionsReceiverModule" deployment_name args

-- The builder asks for its own name, and not for the contract's.
unfoldable pub build_toft_generic_receiver_module : String → List Val → Task Build
build_toft_generic_receiver_module deployment_name args =
    build "buildTOFTGenericReceiverModule" deployment_name args
