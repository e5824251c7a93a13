-- ===== src/Exec/FillCluster/Returns.antt =====
-- Where fillCluster.ts returns.
use tapioca.Base.{String, ◌==◌, ◌≡◌, some, List, [], ◌∷◌, All, find}
use tapioca.Hre.Types.{TContract, ChainInfo, Trace}
use tapioca.Hre.World.{World}
use tapioca.Hre.Task.{ok}
use tapioca.Hre.Obliging.{
  Returns, IsObliging, >>=-Returns, ask->>=-Returns, ask-Returns, pure-Returns, some-Returns,
  send-Returns, get_chain-Returns, ask_for_tag-Returns, require-Returns,
}
use tapioca.Utils.{find_named}
use tapioca.Deploy.Lookup.{global_or_local}
use tapioca.Exec.FillCluster.{
  projects, load_contracts_from_project, load_from_projects, load_all_contracts, fill_chain,
  fill_chains, fill_cluster,
}

-- The Cluster is recorded for tapioca-periphery.
pub record HasCluster (w : World) : Type 0 where
  pub cluster :
      (t : Trace) (tag chain : String)
      → (c : TContract) × (find_named "Cluster" (w.load_global t tag "tapioca-periphery" chain)
          ≡ some c)

-- The SDK supports the chain.
abbrev pub IsSupported : World → String → Type 0
IsSupported w x = (info : ChainInfo) × (find (λ a. a.chain_id == x) w.supported_chains ≡ some info)

load-Returns :
    (tag chain : String) (ps : List String) (w : World)
    → Returns w (load_from_projects tag chain ps)
unfolding load_from_projects load_contracts_from_project
load-Returns tag chain [] w = pure-Returns []
load-Returns tag chain (p ∷ ps) w =
    >>=-Returns _ _ (ask-Returns _)
      λ a. >>=-Returns _ _ (load-Returns tag chain ps w) λ b. pure-Returns _

fill_chains-Returns :
    (tag cluster : String) (chains : List String) (w : World)
    → IsObliging w
    → All (IsSupported w) chains
    → Returns w (fill_chains tag cluster w.supported_chains chains)
unfolding fill_chains fill_chain load_all_contracts
fill_chains-Returns tag cluster [] w o h = pure-Returns tt
fill_chains-Returns tag cluster (x ∷ xs) w o h =
    >>=-Returns _ _
      (>>=-Returns _ _ (load-Returns tag x projects w)
        λ contracts. >>=-Returns _ _ (require-Returns _ _ h.0) λ info. send-Returns o _)
      λ _. fill_chains-Returns tag cluster xs w o h.1

-- In a world in which nothing that is called fails, with a Cluster recorded and each chain of the list supported, the filling of the Cluster returns.
pub fill_cluster-Returns :
    (chains : List String) (w : World) (t : Trace)
    → IsObliging w
    → HasCluster w
    → All (IsSupported w) chains
    → (t' : Trace) × (fill_cluster chains w t ≡ (ok tt, t'))
unfolding fill_cluster global_or_local load_all_contracts
fill_cluster-Returns chains w t o q h =
    let whole : Returns w (fill_cluster chains) = >>=-Returns _ _ (get_chain-Returns o) λ info.
      >>=-Returns _ _ ask_for_tag-Returns λ tag. ask->>=-Returns _ _ λ s.
        let (c, e) = q.cluster s tag info.chain_id in
        rw e (
          >>=-Returns _ _ (some-Returns _ c) λ cluster. >>=-Returns _ _ (ask-Returns _) λ here.
            >>=-Returns _ _ (load-Returns tag here projects w) λ contracts.
              >>=-Returns _ _ (send-Returns o _) λ _.
                ask->>=-Returns _ _ λ _. fill_chains-Returns tag cluster.address chains w o h) in
    let (u, t', e) = whole.at t in (t', e)
