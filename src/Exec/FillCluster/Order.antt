-- ===== src/Exec/FillCluster/Order.antt =====
-- The batches that fillCluster.ts sends.
use tapioca.Base.{
  String, ◌==◌, ◌≡◌, ◌≢◌, refl, sym, ap, ◌∙◌, some, true, List, [], ◌∷◌, ◌++◌, All, filter, find,
  arith, inl, inr, Bool-cases,
}
use mathlib.Core.Path.{subst}
use tapioca.Hre.Types.{str, num, TContract, Call, ChainInfo, sent, prompted, Trace}
use tapioca.Hre.World.{World}
use tapioca.Hre.Task.{ok, ask, ◌>>=◌}
use tapioca.Hre.Seen.{
  IsSilent, seen, seen-eq_of_silent, is_tx, silent_rules, get_chain-IsSilent, ask_for_tag-IsSilent,
  require-IsSilent, ask-IsSilent, >>=-IsSilent, pure-IsSilent,
}
use tapioca.Hre.Returns.{on_ok, after_send, send-ok, pure-ok, ask-ok, require-ok}
use tapioca.Hre.Sends.{reverse_onto}
use tapioca.Hre.Answers.{ask_for_tag-ok, get_chain-ok}
use tapioca.Deploy.Found.{entry_of, global_or_local-ok}
use tapioca.Deploy.Silent.{global_or_local-IsSilent}
use tapioca.Exec.FillCluster.{
  wanted, projects, load_contracts_from_project, load_from_projects, load_all_contracts,
  batch_update, fill_chain, fill_chains, fill_cluster,
}

load_contracts_from_project-IsSilent :
    (tag chain p : String) → IsSilent is_tx (load_contracts_from_project tag chain p)
unfolding load_contracts_from_project
load_contracts_from_project-IsSilent tag chain p = search silent_rules

load_from_projects-IsSilent :
    (tag chain : String) (ps : List String) → IsSilent is_tx (load_from_projects tag chain ps)
unfolding load_from_projects
load_from_projects-IsSilent tag chain [] = pure-IsSilent []
load_from_projects-IsSilent tag chain (p ∷ ps) =
    >>=-IsSilent _ _ (load_contracts_from_project-IsSilent tag chain p)
      λ a. >>=-IsSilent _ _ (load_from_projects-IsSilent tag chain ps) λ b. pure-IsSilent _

load_all_contracts-IsSilent : (tag chain : String) → IsSilent is_tx (load_all_contracts tag chain)
unfolding load_all_contracts
load_all_contracts-IsSilent tag chain = load_from_projects-IsSilent tag chain projects

-- A batch may hold the entry.
abbrev pub Wanted : TContract → Type 0
Wanted a = (wanted a ≡ true) × (a.name ≢ "Cluster")

wanted-no_cluster : (a : TContract) → wanted a ≡ true → Wanted a
unfolding wanted
wanted-no_cluster a h = (h, λ e. cc (rw e at h))

filter-All : (l : List TContract) → All Wanted (filter wanted l)
unfolding filter
filter-All [] = tt
filter-All (a ∷ l) = elim (Bool-cases (wanted a)) [
  | inl e ↦ rw e (wanted-no_cluster a e, filter-All l)
  | inr e ↦ rw e (filter-All l)
]

All-++ : (xs ys : List TContract) → All Wanted xs → All Wanted ys → All Wanted (xs ++ ys)
All-++ [] ys h k = k
All-++ (x ∷ xs) ys h k = (h.0, All-++ xs ys h.1 k)

-- The wanted entries of the projects on a chain, as the database stands at `t`.
abbrev pub listed : World → Trace → String → String → List String → List TContract
listed w t tag chain [] = []
listed w t tag chain (p ∷ ps) =
    filter wanted (w.load_global t tag p chain) ++ listed w t tag chain ps

listed-All :
    (w : World) (t : Trace) (tag chain : String) (ps : List String)
    → All Wanted (listed w t tag chain ps)
listed-All w t tag chain [] = tt
listed-All w t tag chain (p ∷ ps) =
    All-++ _ _ (filter-All (w.load_global t tag p chain)) (listed-All w t tag chain ps)

load_contracts_from_project-ok :
    (tag chain p : String) (w : World) (t : Trace) {l : List TContract} {t' : Trace}
    → load_contracts_from_project tag chain p w t ≡ (ok l, t')
    → (filter wanted (w.load_global t tag p chain) ≡ l) × (t ≡ t')
unfolding load_contracts_from_project
load_contracts_from_project-ok tag chain p w t h = ask-ok _ w t h

load_from_projects-ok :
    (tag chain : String) (ps : List String) (w : World) (t : Trace) {l : List TContract}
    {t' : Trace}
    → load_from_projects tag chain ps w t ≡ (ok l, t')
    → (l ≡ listed w t tag chain ps) × (t' ≡ t)
unfolding load_from_projects
load_from_projects-ok tag chain [] w t h = let p = pure-ok [] w t h in (sym p.0, sym p.1)
load_from_projects-ok tag chain (p ∷ ps) w t h = on_ok _ _ w t h λ a s e k.
    on_ok _ _ w s k λ b s' e' k'.
      let one = load_contracts_from_project-ok tag chain p w t e in
      let more = load_from_projects-ok tag chain ps w s e' in
      let all = pure-ok (a ++ b) w s' k' in
      (
        sym all.0
            ∙ ap (λ x. x ++ b) (sym one.0)
            ∙ ap (λ x. filter wanted (w.load_global t tag p chain) ++ x)
                (more.0 ∙ ap (λ x. listed w x tag chain ps) (sym one.1)),
        sym all.1 ∙ more.1 ∙ sym one.1,
      )

-- All wanted entries of the projects on the chain, at some point of the run, and no other entry.
abbrev pub AreListed : World → String → String → List TContract → Type 0
AreListed w tag chain contracts =
    (s : Trace) × (contracts ≡ listed w s tag chain projects) × All Wanted contracts

load_all-AreListed :
    (tag chain : String) (w : World) (t : Trace) {l : List TContract} {t' : Trace}
    → load_from_projects tag chain projects w t ≡ (ok l, t')
    → AreListed w tag chain l
load_all-AreListed tag chain w t h =
    let same = (load_from_projects-ok tag chain projects w t h).0 in
    (t, same, subst (All Wanted) (sym same) (listed-All w t tag chain projects))

-- The batches of the chains, one for each: for the chain's own LayerZero id, and of the entries
-- that are listed for it.
abbrev pub Batches : World → String → String → List String → List Call → Type 0
Batches w tag cluster [] [] = Unit
Batches w tag cluster (x ∷ xs) (c ∷ cs) =
    ((info : ChainInfo) × (contracts : List TContract) × (find (λ a. a.chain_id == x)
          w.supported_chains
        ≡ some info)
      × AreListed w tag x contracts
      × (c ≡ batch_update cluster (str info.lz_chain_id) contracts))
    × Batches w tag cluster xs cs
Batches w tag cluster _ _ = ⊥

fill_chain-ok :
    (tag cluster chain : String) (w : World) (t : Trace) {u : Unit {0}} {t' : Trace}
    → fill_chain tag cluster w.supported_chains chain w t ≡ (ok u, t')
    → (c : Call) × Batches w tag cluster (chain ∷ []) (c ∷ [])
      × (seen is_tx t' ≡ sent c ∷ seen is_tx t)
unfolding fill_chain load_all_contracts
fill_chain-ok tag cluster chain w t h = on_ok _ _ w t h λ contracts t1 e1 h1.
    on_ok _ _ w t1 h1 λ info t2 e2 h2.
      let c = batch_update cluster (str info.lz_chain_id) contracts in
      let found = require-ok _ _ w t1 e2 in
      (
        c,
        ((info, contracts, found.0, load_all-AreListed tag chain w t e1, refl), tt),
        ap (seen is_tx) (send-ok c w t2 h2).1
            ∙ ap (λ x. sent c ∷ seen is_tx x) (sym found.1)
            ∙ ap (λ x. sent c ∷ x)
                (seen-eq_of_silent _ w t (load_all_contracts-IsSilent tag chain) e1),
      )

fill_chains-ok :
    (tag cluster : String) (chains : List String) (w : World) (t : Trace) {u : Unit {0}}
    {t' : Trace}
    → fill_chains tag cluster w.supported_chains chains w t ≡ (ok u, t')
    → (cs : List Call) × Batches w tag cluster chains cs
      × (seen is_tx t' ≡ reverse_onto cs (seen is_tx t))
unfolding fill_chains
fill_chains-ok tag cluster [] w t h = ([], tt, ap (seen is_tx) (sym (pure-ok tt w t h).1))
fill_chains-ok tag cluster (x ∷ xs) w t h = on_ok _ _ w t h λ _ s e k.
    let (c, batch, one) = fill_chain-ok tag cluster x w t e in
    let (cs, batches, more) = fill_chains-ok tag cluster xs w s k in
    (c ∷ cs, (batch.0, batches), more ∙ ap (reverse_onto cs) one)

supported_chains-ok :
    (w : World) (t : Trace) {l : List ChainInfo} {t' : Trace}
    → ask (λ w _. w.supported_chains) w t ≡ (ok l, t')
    → (l ≡ w.supported_chains) × (t' ≡ t)
unfolding ◌>>=◌
supported_chains-ok w t h = ground arith

-- The tag that is asked for, and the Cluster that the lists have under it for the chain, when nothing has been done but that.
abbrev pub IsCluster : World → Trace → String → String → Type 0
IsCluster w t tag cluster =
    (tag ≡ w.ask_for_tag t)
    × ((info : ChainInfo) × (entry : TContract) × (w.get_chain_by w.chain_id ≡ some info)
        × (entry_of w (prompted "tag" ∷ t) tag "tapioca-periphery" info.chain_id "Cluster"
            ≡ some entry)
        × (cluster ≡ entry.address))

-- A run that returns has sent one batch for the chain that it runs on, under the id 0, and then
-- one for each chain of the list, in its order and under that chain's own LayerZero id. A batch is
-- all the wanted entries of the projects on its chain and nothing else, the Cluster above all. All go to the Cluster that is recorded for the chain under the tag.
pub fill_cluster-order :
    (chains : List String) (w : World) (t : Trace) {t' : Trace}
    → fill_cluster chains w t ≡ (ok tt, t')
    → (tag : String) × (cluster : String) × (contracts : List TContract) × (cs : List Call)
      × IsCluster w t tag cluster
      × AreListed w tag w.chain_id contracts
      × Batches w tag cluster chains cs
      × (seen is_tx t' ≡ reverse_onto (batch_update cluster (num 0) contracts ∷ cs) (seen is_tx t))
unfolding fill_cluster load_all_contracts
fill_cluster-order chains w t {t'} h = on_ok _ _ w t h λ chain_info t1 e1 h1.
    on_ok _ _ w t1 h1 λ tag t2 e2 h2. on_ok _ _ w t2 h2 λ found t3 e3 h3.
      on_ok _ _ w t3 h3 λ cluster t4 e4 h4. on_ok _ _ w t4 h4 λ here t5 e5 h5.
        on_ok _ _ w t5 h5 λ contracts t6 e6 h6.
          let c = batch_update cluster.address (num 0) contracts in
          on_ok _ _ w _ (after_send _ _ w t6 h6) λ supported t7 e7 h7.
            let same = supported_chains-ok w _ e7 in
            let (cs, batches, more) = fill_chains-ok tag cluster.address chains w t7 (
              subst (λ l. fill_chains tag cluster.address l chains w t7 ≡ (ok tt, t')) same.0 h7) in
            let chain = get_chain-ok w t e1 in
            let tagged = ask_for_tag-ok w t1 e2 in
            let quiet =
              seen-eq_of_silent _ w t5 (load_all_contracts-IsSilent tag here) e6
              ∙ seen-eq_of_silent _ w t4 (ask-IsSilent _) e5
              ∙ seen-eq_of_silent _ w t3 (require-IsSilent _ _) e4
              ∙ seen-eq_of_silent _ w t2 (global_or_local-IsSilent _ _ _ _) e3
              ∙ seen-eq_of_silent _ w t1 (ask_for_tag-IsSilent refl) e2
              ∙ seen-eq_of_silent _ w t get_chain-IsSilent e1 in
            (
              tag,
              cluster.address,
              contracts,
              cs,
              (
                tagged.0 ∙ ap w.ask_for_tag (sym chain.1),
                (
                  chain_info,
                  cluster,
                  chain.0,
                  ap (λ x. entry_of w x tag "tapioca-periphery" chain_info.chain_id "Cluster")
                        (ap (λ x. prompted "tag" ∷ x) chain.1 ∙ tagged.1)
                      ∙ (global_or_local-ok _ _ _ _ w t2 e3).0
                      ∙ (require-ok _ found w t3 e4).0,
                  refl,
                ),
              ),
              subst (λ x. AreListed w tag x contracts) (sym (ask-ok (λ v _. v.chain_id) w t4 e5).0)
                  (load_all-AreListed tag here w t5 e6),
              batches,
              more
                  ∙ ap (λ x. reverse_onto cs (seen is_tx x)) same.1
                  ∙ ap (λ x. reverse_onto cs (sent c ∷ x)) quiet,
            )
