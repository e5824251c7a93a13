-- ===== src/Deploy/Stack/Silent.antt =====
-- Nothing happens before the queue of a stack is executed, and two reasons why it never is.
use tapioca.Base.{refl, String, ◌≡◌, ◌≢◌, ap, ◌∙◌, Bool, true, false, Option, none, some}
use tapioca.Hre.Types.{prompted, Event, Val, ChainInfo, Trace, Vm}
use tapioca.Hre.World.{World}
use tapioca.Hre.Task.{Task, ok, guard, ◌>>=◌}
use tapioca.Hre.Seen.{IsSilent, seen, is_effect, silent_rules}
use tapioca.Hre.Throws.{Throws, >>=-Throws, Throws->>=, trace_of_Throws, get_chain-Throws}
use tapioca.Utils.{find_named}
use tapioca.Deploy.Lookup.{is_testnet, global_or_local}
use tapioca.Deploy.Silent.{lookup_rules}
use tapioca.Deploy.Stack.{find_weth, find_yield_box, find_cluster, run_stack}
use tapioca.Deploy.Stack.Full.{find_tap_token, full_prepare, full_setup, deploy_full_stack}
use tapioca.Deploy.Stack.Linked.{linked_prepare, deploy_linked_chain_stack}
use tapioca.Setups.{build_usdo_flashloan_setup}

module _ {f : Event → Bool} where
  find_tap_token-IsSilent :
      (tag : String) (c : ChainInfo) (testnet : Bool) → IsSilent f (find_tap_token tag c testnet)
  unfolding find_tap_token
  find_tap_token-IsSilent tag c testnet = search silent_rules

  find_weth-IsSilent :
      (tag : String) (c : ChainInfo) (testnet : Bool) → IsSilent f (find_weth tag c testnet)
  unfolding find_weth
  find_weth-IsSilent tag c true = search silent_rules
  find_weth-IsSilent tag c false = search silent_rules

  find_yield_box-IsSilent :
      (tag : String) (c : ChainInfo) (testnet : Bool) → IsSilent f (find_yield_box tag c testnet)
  unfolding find_yield_box
  find_yield_box-IsSilent tag c testnet = search lookup_rules

  find_cluster-IsSilent :
      (tag : String) (c : ChainInfo) (testnet : Bool) → IsSilent f (find_cluster tag c testnet)
  unfolding find_cluster
  find_cluster-IsSilent tag c testnet = search lookup_rules

ruleset stack_rules = (
  lookup_rules, find_tap_token-IsSilent, find_weth-IsSilent, find_yield_box-IsSilent,
  find_cluster-IsSilent,
)

module _ {f : Event → Bool} where
  pub full_prepare-IsSilent : f (prompted "tag") ≡ false → IsSilent f full_prepare
  unfolding full_prepare
  full_prepare-IsSilent q = search stack_rules depth 25

  pub linked_prepare-IsSilent : f (prompted "tag") ≡ false → IsSilent f linked_prepare
  unfolding linked_prepare
  linked_prepare-IsSilent q = search stack_rules depth 25

-- A task that prepares its deployer quietly and cannot.
abbrev pub Idle : World → Trace → Task (Unit {0}) → Type 0
Idle w t m = ((u : Unit {0}) → (m w t).0 ≢ ok u) × (seen is_effect (m w t).1 ≡ seen is_effect t)

idle :
    (prepare : Task Vm) (k : Vm → Task (Unit {0})) (w : World) (t : Trace)
    → IsSilent is_effect prepare
    → Throws w prepare
    → Idle w t (prepare >>= k)
idle prepare k w t quiet throws = (
  (Throws->>= prepare k throws).at t,
  ap (seen is_effect) (trace_of_Throws prepare k t throws) ∙ quiet.at w t,
)

-- The task is run on a network that is not tagged as a test network, and no global binds
-- `TOKENS_DEPLOYMENTS`.
pub record IsUnbound (w : World) : Type 0 where
  pub no_testnet : (c : ChainInfo) → w.get_chain_by w.chain_id ≡ some c → is_testnet c ≡ false
  pub unbound : w.tokens_deployments_weth ≡ none

find_weth-Throws :
    (tag : String) (c : ChainInfo) (testnet : Bool) (w : World)
    → testnet ≡ false
    → w.tokens_deployments_weth ≡ none
    → Throws w (find_weth tag c testnet)
unfolding find_weth ◌>>=◌
find_weth-Throws tag c true w e u = cc
find_weth-Throws tag c false w e u = record { at = λ t a. rw u (λ p. cc p) }

-- Both preparations end at the table of tokens.
weth_rest :
    {A : Type 0} (w : World) (k : Option Val → Task A) (tag : String) (c : ChainInfo)
    → IsUnbound w
    → w.get_chain_by w.chain_id ≡ some c
    → Throws w (find_weth tag c (is_testnet c) >>= k)
weth_rest w k tag c h e =
    Throws->>= (find_weth tag c (is_testnet c)) k
      (find_weth-Throws tag c (is_testnet c) w (h.no_testnet c e) h.unbound)

full_prepare_unbound : (w : World) → IsUnbound w → Throws w full_prepare
unfolding full_prepare
full_prepare_unbound w h = search (>>=-Throws, get_chain-Throws, weth_rest) depth 15

linked_prepare_unbound : (w : World) → IsUnbound w → Throws w linked_prepare
unfolding linked_prepare
linked_prepare_unbound w h = search (>>=-Throws, get_chain-Throws, weth_rest) depth 15

-- Off the test networks neither stack is ever deployed, and nothing is done at all: the name
-- `TOKENS_DEPLOYMENTS` is read and not bound.
pub stacks_need_tokens_table :
    (w : World) (t : Trace)
    → IsUnbound w
    → Idle w t deploy_full_stack × Idle w t deploy_linked_chain_stack
unfolding deploy_full_stack deploy_linked_chain_stack
stacks_need_tokens_table w t h = (
  idle full_prepare (λ vm. run_stack vm full_setup) w t (full_prepare-IsSilent refl)
      (full_prepare_unbound w h),
  idle linked_prepare (λ vm. run_stack vm build_usdo_flashloan_setup) w t
      (linked_prepare-IsSilent refl) (linked_prepare_unbound w h),
)

-- Neither list of the deployment database has a Cluster on this chain.
pub record NoCluster (w : World) : Type 0 where
  pub not_global :
      (t : Trace) (tag chain : String)
      → find_named "Cluster" (w.load_global t tag "tapioca-periphery" chain) ≡ none
  pub not_local :
      (t : Trace) (tag chain : String) → find_named "Cluster" (w.load_local t tag chain) ≡ none

find_cluster-Throws :
    (w : World) (tag : String) (c : ChainInfo) (testnet : Bool)
    → NoCluster w
    → Throws w (find_cluster tag c testnet)
unfolding find_cluster ◌>>=◌ global_or_local guard
find_cluster-Throws w tag c true h = record {
  at = λ t a. rw (h.not_global t tag c.chain_id, h.not_local t tag c.chain_id) (λ p. cc p);
}
find_cluster-Throws w tag c false h = record {
  at = λ t a. rw (h.not_global t tag c.chain_id, h.not_local t tag c.chain_id) (λ p. cc p);
}

cluster_rest :
    {A : Type 0} (w : World) (k : Val → Task A) (tag : String) (c : ChainInfo) (testnet : Bool)
    → NoCluster w
    → Throws w (find_cluster tag c testnet >>= k)
cluster_rest w k tag c testnet h =
    Throws->>= (find_cluster tag c testnet) k (find_cluster-Throws w tag c testnet h)

full_prepare-NoCluster : (w : World) → NoCluster w → Throws w full_prepare
unfolding full_prepare
full_prepare-NoCluster w h = search (>>=-Throws, cluster_rest) depth 15

linked_prepare-NoCluster : (w : World) → NoCluster w → Throws w linked_prepare
unfolding linked_prepare
linked_prepare-NoCluster w h = search (>>=-Throws, cluster_rest) depth 15

-- Where no Cluster is recorded, on a test network too, neither stack is deployed and nothing is
-- done: the branch that would deploy a Cluster is not reached.
pub stacks_need_cluster :
    (w : World) (t : Trace)
    → NoCluster w
    → Idle w t deploy_full_stack × Idle w t deploy_linked_chain_stack
unfolding deploy_full_stack deploy_linked_chain_stack
stacks_need_cluster w t h = (
  idle full_prepare (λ vm. run_stack vm full_setup) w t (full_prepare-IsSilent refl)
      (full_prepare-NoCluster w h),
  idle linked_prepare (λ vm. run_stack vm build_usdo_flashloan_setup) w t
      (linked_prepare-IsSilent refl) (linked_prepare-NoCluster w h),
)
