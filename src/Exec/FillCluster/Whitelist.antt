-- ===== src/Exec/FillCluster/Whitelist.antt =====
-- The whitelist of the Cluster, as an abstract specification of what fillCluster.ts does to it.
use tapioca.Base.{
  arith, String, ◌==◌, eq_iff, zero, Bool, true, ◌&&◌, ◌≡◌, refl, sym, ap, ◌∙◌, some, List, [], ◌∷◌,
  map, contains, find, if◌then◌else◌,
}
use tapioca.Hre.Types.{
  Val, str, num, bool, strs, TContract, ChainInfo, Call, prompted, sent, deployed, vm_executed,
  vm_saved, vm_verified, deployed_on, sent_on, saved_locally, source_verified, project_set, Trace,
}
use tapioca.Hre.World.{World}
use tapioca.Hre.Task.{ok}
use tapioca.Hre.Seen.{seen, is_tx}
use tapioca.Hre.Sends.{reverse_onto}
use tapioca.Exec.FillCluster.{batch_update, fill_cluster}
use tapioca.Exec.FillCluster.Order.{AreListed, Batches, IsCluster, fill_cluster-order}

-- By the id that a chain is asked for with, and an address: is the address whitelisted?
abbrev pub Whitelist : Type 0
Whitelist = Val → String → Bool

-- The chain that an id stands for, where `home` is the Cluster's own LayerZero id: 0 stands for that.
abbrev pub chain_of : String → Val → String
chain_of home (str a) = if a == "0" then home else a
chain_of home (num zero) = home
chain_of home _ = ""

abbrev pub same_id : String → Val → Val → Bool
same_id home a b = chain_of home a == chain_of home b

-- `batchUpdateContracts(id, addresses, status)`
abbrev pub update : String → List Val → Whitelist → Whitelist
update home (id ∷ strs addresses ∷ bool status ∷ []) old =
    λ chain a. if same_id home id chain && contains addresses a then status else old chain a
update home _ old = old

-- What a transaction does to the whitelist of the Cluster at the address.
abbrev pub apply : String → String → Call → Whitelist → Whitelist
apply home cluster c old =
    if (c.target == cluster) && (c.fn == "batchUpdateContracts")
    then update home c.args old
    else old

-- The whitelist after the events of a trace, from the one that it begins with.
abbrev pub whitelist : String → String → Whitelist → Trace → Whitelist
whitelist home cluster start [] = start
whitelist home cluster start (sent c ∷ t) = apply home cluster c (whitelist home cluster start t)
whitelist home cluster start (_ ∷ t) = whitelist home cluster start t

-- The specification: the addresses are added for each chain, and nothing else changes.
abbrev pub allow : String → Val → List String → Whitelist → Whitelist
allow home id addresses old =
    λ chain a. if same_id home id chain && contains addresses a then true else old chain a

whitelist-seen :
    (home cluster : String) (start : Whitelist) (t : Trace)
    → whitelist home cluster start (seen is_tx t) ≡ whitelist home cluster start t
whitelist-seen home cluster start [] = refl
whitelist-seen home cluster start (prompted _ ∷ t) = whitelist-seen home cluster start t
whitelist-seen home cluster start (sent c ∷ t) =
    ap (apply home cluster c) (whitelist-seen home cluster start t)
whitelist-seen home cluster start (deployed _ _ _ ∷ t) = whitelist-seen home cluster start t
whitelist-seen home cluster start (vm_executed _ ∷ t) = whitelist-seen home cluster start t
whitelist-seen home cluster start (vm_saved _ ∷ t) = whitelist-seen home cluster start t
whitelist-seen home cluster start (vm_verified _ ∷ t) = whitelist-seen home cluster start t
whitelist-seen home cluster start (deployed_on _ _ _ _ ∷ t) = whitelist-seen home cluster start t
whitelist-seen home cluster start (sent_on _ _ ∷ t) = whitelist-seen home cluster start t
whitelist-seen home cluster start (saved_locally _ _ ∷ t) = whitelist-seen home cluster start t
whitelist-seen home cluster start (source_verified _ _ ∷ t) = whitelist-seen home cluster start t
whitelist-seen home cluster start (project_set _ ∷ t) = whitelist-seen home cluster start t

abbrev pub addresses_of : List TContract → List String
addresses_of contracts = map (λ a. a.address) contracts

pub ==-same : (s : String) → (s == s) ≡ true
==-same s = ground (arith, eq_iff s s)

-- A batch does what the specification says.
batch_update-allow :
    (home cluster : String) (id : Val) (contracts : List TContract) (old : Whitelist)
    → apply home cluster (batch_update cluster id contracts) old
      ≡ allow home id (addresses_of contracts) old
batch_update-allow home cluster id contracts old = rw (==-same cluster) refl

abbrev pub allow_all : String → List (Val × List String) → Whitelist → Whitelist
allow_all home [] old = old
allow_all home ((id, addresses) ∷ grants) old = allow_all home grants (allow home id addresses old)

-- For each chain of the list its LayerZero id and the addresses of the entries that are listed for it.
abbrev pub Grants : World → String → List String → List (Val × List String) → Type 0
Grants w tag [] [] = Unit
Grants w tag (x ∷ xs) ((id, addresses) ∷ grants) =
    ((info : ChainInfo) × (contracts : List TContract) × (find (λ a. a.chain_id == x)
          w.supported_chains
        ≡ some info)
      × AreListed w tag x contracts
      × (id ≡ str info.lz_chain_id)
      × (addresses ≡ addresses_of contracts))
    × Grants w tag xs grants
Grants w tag _ _ = ⊥

granted :
    (w : World) (home tag cluster : String) (start : Whitelist) (chains : List String)
    (cs : List Call)
    → Batches w tag cluster chains cs
    → (grants : List (Val × List String)) × Grants w tag chains grants
      × ((t : Trace)
          → whitelist home cluster start (reverse_onto cs t)
            ≡ allow_all home grants (whitelist home cluster start t))
granted w home tag cluster start [] [] h = ([], tt, λ t. refl)
granted w home tag cluster start [] (c ∷ cs) h = elim h [ ]
granted w home tag cluster start (x ∷ xs) [] h = elim h [ ]
granted w home tag cluster start (x ∷ xs) (c ∷ cs) ((info, contracts, found, listed, same), h) =
    let (grants, hg, step) = granted w home tag cluster start xs cs h in
    (
      (str info.lz_chain_id, addresses_of contracts) ∷ grants,
      ((info, contracts, found, listed, refl, refl), hg),
      λ t.
          step (sent c ∷ t)
          ∙ ap (allow_all home grants) (
              ap (λ x. apply home cluster x (whitelist home cluster start t)) same
              ∙ batch_update-allow home cluster (str info.lz_chain_id) contracts
                  (whitelist home cluster start t)),
    )

-- A run that returns refines the specification of the Cluster that is recorded for the chain under the tag: whatever its whitelist was, it is now that whitelist with the wanted entries
-- of the chain that it runs on added for the Cluster's own chain, which the id 0 stands for, then those of each chain of the list for the chain of its LayerZero id, and it is otherwise unchanged.
pub fill_cluster-refines :
    (home : String) (chains : List String) (start : Whitelist) (w : World) (t : Trace) {t' : Trace}
    → fill_cluster chains w t ≡ (ok tt, t')
    → (tag : String) × (cluster : String) × (contracts : List TContract) × (grants : List
        (Val × List String))
      × IsCluster w t tag cluster
      × AreListed w tag w.chain_id contracts
      × Grants w tag chains grants
      × (whitelist home cluster start t'
          ≡ allow_all home
              ((num 0, addresses_of contracts) ∷ grants)
              (whitelist home cluster start t))
fill_cluster-refines home chains start w t {t' = t'} h =
    let (tag, cluster, contracts, cs, is_cluster, listed, batches, order) =
      fill_cluster-order chains w t h in
    let (grants, hg, step) = granted w home tag cluster start chains cs batches in
    let first = batch_update cluster (num 0) contracts in
    (
      tag,
      cluster,
      contracts,
      grants,
      is_cluster,
      listed,
      hg,
      sym (whitelist-seen home cluster start t')
          ∙ ap (whitelist home cluster start) order
          ∙ step (sent first ∷ seen is_tx t)
          ∙ ap (allow_all home grants) (
              batch_update-allow home cluster (num 0) contracts
                (whitelist home cluster start (seen is_tx t))
              ∙ ap (allow home (num 0) (addresses_of contracts))
                  (whitelist-seen home cluster start t)),
    )
