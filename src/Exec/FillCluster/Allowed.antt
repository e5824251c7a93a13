-- ===== src/Exec/FillCluster/Allowed.antt =====
-- Who is on the whitelist of the Cluster after fillCluster.ts.
use mathlib.Core.Path.{subst}
use tapioca.Base.{
  arith, All, String, Bool-cases, true, ◌&&◌, ◌≡◌, refl, sym, ap, ◌∙◌, inl, inr, List, [], ◌∷◌,
  contains,
}
use tapioca.Hre.Types.{Val, num, TContract, Trace}
use tapioca.Hre.World.{World}
use tapioca.Hre.Task.{ok}
use tapioca.Exec.FillCluster.{fill_cluster}
use tapioca.Exec.FillCluster.Order.{AreListed, IsCluster}
use tapioca.Exec.FillCluster.Whitelist.{
  Whitelist, same_id, whitelist, allow, allow_all, addresses_of, ==-same, fill_cluster-refines,
}

-- What the specification gives.
allow-keeps :
    (home : String) (id : Val) (addresses : List String) (old : Whitelist) (chain : Val)
    (a : String)
    → old chain a ≡ true
    → allow home id addresses old chain a ≡ true
allow-keeps home id addresses old chain a h =
    elim (Bool-cases (same_id home id chain && contains addresses a)) [
      | inl e ↦ rw e refl
      | inr e ↦ rw e h
    ]

allow_all-keeps :
    (home : String) (grants : List (Val × List String)) (old : Whitelist) (chain : Val) (a : String)
    → old chain a ≡ true
    → allow_all home grants old chain a ≡ true
allow_all-keeps home [] old chain a h = h
allow_all-keeps home ((id, addresses) ∷ grants) old chain a h =
    allow_all-keeps home grants _ chain a (allow-keeps home id addresses old chain a h)

added-later :
    (x : String) (xs : List String) (a : String) → contains xs a ≡ true → contains (x ∷ xs) a ≡ true
unfolding contains
added-later x xs a h = ground arith

All-later :
    (x : String) (xs : List String) (cs : List TContract)
    → All (λ c. contains xs c.address ≡ true) cs
    → All (λ c. contains (x ∷ xs) c.address ≡ true) cs
All-later x xs [] h = tt
All-later x xs (c ∷ cs) h = (added-later x xs c.address h.0, All-later x xs cs h.1)

All-contains : (cs : List TContract) → All (λ c. contains (addresses_of cs) c.address ≡ true) cs
unfolding contains
All-contains [] = tt
All-contains (c ∷ cs) =
    (rw (==-same c.address) refl, All-later c.address (addresses_of cs) cs (All-contains cs))

All-added :
    (home : String) (addresses : List String) (grants : List (Val × List String)) (old : Whitelist)
    (cs : List TContract)
    → All (λ c. contains addresses c.address ≡ true) cs
    → All (λ c. allow_all home ((num 0, addresses) ∷ grants) old (num 0) c.address ≡ true) cs
All-added home addresses grants old [] h = tt
All-added home addresses grants old (c ∷ cs) h = (
  allow_all-keeps home grants _ (num 0) c.address (rw (h.0, ==-same home) refl),
  All-added home addresses grants old cs h.1,
)

-- After a run that returns every wanted entry of the chain that it runs on is whitelisted for the Cluster's own chain, in the Cluster that is recorded for the chain under the tag, and no address
-- that was whitelisted there for any chain has lost that.
pub fill_cluster-allows :
    (home : String) (chains : List String) (start : Whitelist) (w : World) (t : Trace) {t' : Trace}
    → fill_cluster chains w t ≡ (ok tt, t')
    → (tag : String) × (cluster : String) × (contracts : List TContract) × IsCluster w t tag cluster
      × AreListed w tag w.chain_id contracts
      × All (λ c. whitelist home cluster start t' (num 0) c.address ≡ true) contracts
      × ((chain : Val) (a : String)
          → whitelist home cluster start t chain a ≡ true
          → whitelist home cluster start t' chain a ≡ true)
fill_cluster-allows home chains start w t h =
    let (tag, cluster, contracts, grants, is_cluster, listed, hg, e) =
      fill_cluster-refines home chains start w t h in
    (
      tag,
      cluster,
      contracts,
      is_cluster,
      listed,
      subst (λ (x : Whitelist). All (λ c. x (num 0) c.address ≡ true) contracts) (sym e)
          (All-added home (addresses_of contracts) grants (whitelist home cluster start t) contracts
            (All-contains contracts)),
      λ chain a p.
          ap (λ (x : Whitelist). x chain a) e
          ∙ allow_all-keeps home ((num 0, addresses_of contracts) ∷ grants)
              (whitelist home cluster start t) chain a p,
    )
