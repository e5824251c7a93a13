-- ===== src/Tests/Stacks.antt =====
-- Runs of the stacks' deployments, and their queues.
use tapioca.Base.{
  ◌≡◌, refl, sym, ap, Option, none, some, Bool, true, false, not, [], ◌∷◌, filter, find, All,
}
use tapioca.Hre.Types.{str, Build, ChainInfo, Trace}
use tapioca.Hre.World.{World}
use tapioca.Utils.{find_named}
use tapioca.Deploy.Lookup.{is_testnet}
use tapioca.Tests.{world, entry, testnet_info}
use tapioca.Deploy.Stack.{StackInputs}
use tapioca.Deploy.Stack.Full.{full_queue, deploy_full_stack}
use tapioca.Deploy.Stack.Linked.{linked_queue, deploy_linked_chain_stack}
use tapioca.Deploy.Stack.Order.{
  dangling, existing, expected, distinct, Fits, Overwrites, is_bidder, full_queue-dangling,
  full_queue-Fits, linked_queue_sound, full_queue_misfit,
}
use tapioca.Deploy.Stack.Silent.{
  Idle, IsUnbound, NoCluster, stacks_need_tokens_table, stacks_need_cluster,
}

abbrev inputs_on : Bool → StackInputs
inputs_on testnet = record {
  chain_info = testnet_info;
  testnet = testnet;
  weth = str "0xW";
  yield_box = str "0xY";
  cluster = str "0xC";
  signer = str "0xD";
  v2_router = str "0xR";
  v2_factory = str "0xF";
}

full_queue-dangling_example :
    (dangling (existing (inputs_on false)) (full_queue (inputs_on false) (str "0xT") (str "0xP"))
      ≡ expected (inputs_on false))
    × (distinct [] (full_queue (inputs_on false) (str "0xT") (str "0xP")) ≡ true)
full_queue-dangling_example = full_queue-dangling (inputs_on false) (str "0xT") (str "0xP")

full_queue-Fits_example :
    All
      (Fits (inputs_on true))
      (filter (λ b. not (is_bidder b)) (full_queue (inputs_on true) (str "0xT") (str "0xP")))
full_queue-Fits_example = full_queue-Fits (inputs_on true) (str "0xT") (str "0xP")

linked_queue_sound_example :
    (dangling (existing (inputs_on false)) (linked_queue (inputs_on false))
      ≡ expected (inputs_on false))
    × (distinct [] (linked_queue (inputs_on false)) ≡ true)
    × All (Fits (inputs_on false)) (linked_queue (inputs_on false))
linked_queue_sound_example = linked_queue_sound (inputs_on false)

full_queue_misfit_example :
    (b : Build) × (filter is_bidder (full_queue (inputs_on true) (str "0xT") (str "0xP")) ≡ b ∷ [])
    × Overwrites (inputs_on true) b
    × All
        (Fits (inputs_on true))
        (filter (λ x. not (is_bidder x)) (full_queue (inputs_on true) (str "0xT") (str "0xP")))
full_queue_misfit_example = full_queue_misfit (inputs_on true) (str "0xT") (str "0xP") refl

abbrev mainnet_info : ChainInfo
mainnet_info = record testnet_info { tags = "mainnet" ∷ [] }

abbrev mainnet_world : World
mainnet_world = record world { get_chain_by = λ _. some mainnet_info }

abbrev on_testnet : Option ChainInfo → Bool
on_testnet none = false
on_testnet (some c) = is_testnet c

mainnet-IsUnbound : IsUnbound mainnet_world
mainnet-IsUnbound = record { no_testnet = λ c e. ap on_testnet (sym e); unbound = refl }

stacks_need_tokens_table_example :
    Idle mainnet_world [] deploy_full_stack × Idle mainnet_world [] deploy_linked_chain_stack
stacks_need_tokens_table_example = stacks_need_tokens_table mainnet_world [] mainnet-IsUnbound

-- A test network on which no Cluster is recorded.
abbrev no_cluster_world : World
no_cluster_world = record world {
  load_global = λ _ _ _ _. entry "YieldBox" ∷ entry "TapOFT" ∷ entry "WETHMock" ∷ [];
}

no_cluster : NoCluster no_cluster_world
unfolding find_named find
no_cluster = record { not_global = λ _ _ _. refl; not_local = λ _ _ _. refl }

stacks_need_cluster_example :
    Idle no_cluster_world [] deploy_full_stack × Idle no_cluster_world [] deploy_linked_chain_stack
stacks_need_cluster_example = stacks_need_cluster no_cluster_world [] no_cluster

abbrev full_trace : Trace
full_trace = (deploy_full_stack world []).1

abbrev linked_trace : Trace
linked_trace = (deploy_linked_chain_stack world []).1
