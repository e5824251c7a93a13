-- ===== src/Deploy/Stack/Whole.antt =====
-- 00-deployFullStack.ts and 01-deployLinkedChainStack.ts from start to end.
use tapioca.Base.{◌≡◌, some, ◌∷◌}
use tapioca.Hre.Types.{str, TContract, Trace, prompted}
use tapioca.Hre.World.{World}
use tapioca.Utils.{address_of}
use tapioca.Deploy.Lookup.{is_testnet}
use tapioca.Deploy.Found.{entry_of, weth_of}
use tapioca.Deploy.Stack.{StackInputs}

-- The inputs are what the lists and tables have for the chain that the task runs on, when nothing has been done but the question
-- for the tag.
abbrev pub AreInputs : World → Trace → StackInputs → Type 0
AreInputs w t s =
    let r = prompted "tag" ∷ t in
    let tag = w.ask_for_tag t in
    let chain = s.chain_info.chain_id in
    (w.get_chain_by w.chain_id ≡ some s.chain_info)
    × (s.testnet ≡ is_testnet s.chain_info)
    × (s.signer ≡ str w.signer)
    × (weth_of w r tag s.chain_info s.testnet ≡ some s.weth)
    × (address_of (entry_of w r tag "yieldbox" chain "YieldBox") ≡ s.yield_box)
    × ((c : TContract) × (entry_of w r tag "tapioca-periphery" chain "Cluster" ≡ some c)
        × (s.cluster ≡ str c.address))
    × (w.uniswap_v2_router chain ≡ s.v2_router)
    × (w.uniswap_v2_factory chain ≡ s.v2_factory)
