-- ===== src/TapiocaZ/Scopes.antt =====
-- TapiocaZ/tasks/scopes: what the scopes oft and balancer run. Two files add to the scope oft.
use tapioca.Base.{none, some, List, [], ◌∷◌, ◌++◌}
use tapioca.Registry.{required, optional, flag, Registration, register}

abbrev pub deploy_scope : List Registration
deploy_scope =
    register "deployBalancer" (some "deployBalancer__task") (flag "overwrite" ∷ [])
    ∷ register "deployTOFT" (some "deployTOFT__task")
        (optional "tag" none ∷ flag "onHost" ∷ flag "overrideOptions" ∷ [])
    ∷ []

abbrev pub toft_scope : List Registration
toft_scope =
    register "setCluster" (some "setCluster__task")
      (required "address" none ∷ required "cluster" none ∷ flag "oft" ∷ [])
    ∷ register "updateConnectedChain" (some "updateConnectedChain__task")
        (required "address" none ∷ [])
    ∷ register "updateBalancerState" (some "updateBalancerState__task")
        (required "address" none ∷ [])
    ∷ register "rescueEthFromOft" (some "rescueEthFromOft__task")
        (required "address" none ∷ flag "oft" ∷ [])
    ∷ register "setStargateRouterOnOft" (some "setStargateRouterOnOft__task")
        (required "address" none ∷ [])
    ∷ []

abbrev pub balancer_scope : List Registration
balancer_scope =
    register "toggleSwapEth" (some "toggleSwapEth__task") []
    ∷ register "emergencySaveTokens" (some "emergencySaveTokens__task") []
    ∷ register "initConnectedOFT" (some "initConnectedOFT__task") []
    ∷ register "setRebalanceAmount" (some "addRebalanceAmount__task") []
    ∷ register "retryRevertOnBalancer" (some "retryRevertOnBalancer__task") []
    ∷ register "instantRedeemLocalOnBalancer" (some "instantRedeemLocalOnBalancer__task") []
    ∷ register "redeemLocalOnBalancer" (some "redeemLocalOnBalancer__task") []
    ∷ register "redeemRemoteOnBalancer" (some "redeemRemoteOnBalancer__task") []
    ∷ []

abbrev pub oft_scope : List Registration
oft_scope = deploy_scope ++ toft_scope
