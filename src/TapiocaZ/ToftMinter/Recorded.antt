-- ===== src/TapiocaZ/ToftMinter/Recorded.antt =====
-- The minters that are deployed and those that are recorded in the database.
use tapioca.Base.{
  String, Bool, true, false, Option, Option-cases, none, some, inl, inr, ◌≡◌, ap, List, [], ◌∷◌,
}
use tapioca.Hre.Types.{
  Val, str, Error, TContract, ChainInfo, Event, deployed_on, saved_locally, source_verified, Trace,
}
use tapioca.Hre.World.{World}
use tapioca.Hre.Task.{Task, ask_for_tag, emit_if, ◌>>=◌}
use tapioca.Hre.Events.{Keeps, keeps_rules, pure-Keeps, >>=-Keeps, if-Keeps, ask-Keeps}
use tapioca.TapiocaZ.ToftMinter.{
  choose, deploy_on, save_locally, verify_source, set_project, ask_for_chains, minter_entry,
  deploy_minter, mint_one, mint_all, mint_on_chain, mint_on_chains, deploy_toft_minter,
}

abbrev args_of : Option (List Val) → List Val
args_of none = []
args_of (some args) = args

-- The deployments with another network's signer, by their address and arguments, and the entries saved, by the same.
abbrev pub minters_deployed : Trace → List (String × List Val)
minters_deployed [] = []
minters_deployed (deployed_on _ _ args a ∷ t) = (a, args) ∷ minters_deployed t
minters_deployed (_ ∷ t) = minters_deployed t

abbrev pub minters_recorded : Trace → List (String × List Val)
minters_recorded [] = []
minters_recorded (saved_locally _ e ∷ t) = (e.address, args_of e.meta.args) ∷ minters_recorded t
minters_recorded (_ ∷ t) = minters_recorded t

abbrev pub AreRecorded : Trace → Type 0
AreRecorded t = minters_deployed t ≡ minters_recorded t

emitted :
    (b : Bool) (e : Error) (ev : Event) (w : World) (t : Trace)
    → AreRecorded (ev ∷ t)
    → AreRecorded t
    → AreRecorded (emit_if b e ev w t).1
unfolding emit_if
emitted true e ev w t p h = p
emitted false e ev w t p h = h

verify_source-Keeps :
    (address : String) (args : List Val) → Keeps AreRecorded (verify_source address args)
unfolding verify_source
verify_source-Keeps address args = record {
  at = λ w t h. emitted (w.verifies_source t address args) _ (source_verified address args) w t h h;
}

set_project-Keeps : (project : String) → Keeps AreRecorded (set_project project)
unfolding set_project
set_project-Keeps project = record { at = λ w t h. h }

choose-Keeps : (name : String) (choices : List String) → Keeps AreRecorded (choose name choices)
unfolding choose
choose-Keeps name choices = record { at = λ w t h. h }

ask_for_tag-Keeps : Keeps AreRecorded ask_for_tag
unfolding ask_for_tag
ask_for_tag-Keeps = record { at = λ w t h. h }

-- A deployment and the entry for it, which cannot come apart.
deployed-Keeps :
    (network chain_id : String) (oft : TContract) (k : String → Task (Unit {0}))
    → ((a : String) → Keeps AreRecorded (k a))
    → Keeps AreRecorded (
        deploy_on network "TOFTMinter" (str oft.address ∷ []) >>= λ a.
        save_locally chain_id (minter_entry oft a) >>= λ _. k a)
unfolding deploy_on save_locally ◌>>=◌
deployed-Keeps network chain_id oft k hk = record {
  at = λ w t h. elim (Option-cases (w.deploys_on t network "TOFTMinter" (str oft.address ∷ []))) [
    | inl e ↦ rw (deploy_on, e) h
    | inr (a, e) ↦ rw (deploy_on, e) ((hk a).at w _ (ap (λ l. (a, str oft.address ∷ []) ∷ l) h))
  ];
}

mint_one-Keeps :
    (tag : String) (overwrite : Bool) (chain : ChainInfo) (oft : TContract)
    → Keeps AreRecorded (mint_one tag overwrite chain oft)
unfolding mint_one deploy_minter
mint_one-Keeps tag overwrite chain oft = >>=-Keeps _ _ (ask-Keeps _) λ prev.
    if-Keeps _ _ _ (pure-Keeps tt) (
      deployed-Keeps _ _ oft _ λ a.
        >>=-Keeps _ _ (ask-Keeps _)
          λ here. if-Keeps _ _ _ (verify_source-Keeps a _) (pure-Keeps tt))

mint_all-Keeps :
    (tag : String) (overwrite : Bool) (chain : ChainInfo) (ofts : List TContract)
    → Keeps AreRecorded (mint_all tag overwrite chain ofts)
unfolding mint_all
mint_all-Keeps tag overwrite chain [] = pure-Keeps tt
mint_all-Keeps tag overwrite chain (oft ∷ ofts) =
    >>=-Keeps _ _ (mint_one-Keeps tag overwrite chain oft)
      λ _. mint_all-Keeps tag overwrite chain ofts

mint_on_chains-Keeps :
    (tag : String) (overwrite : Bool) (chains : List ChainInfo)
    → Keeps AreRecorded (mint_on_chains tag overwrite chains)
unfolding mint_on_chains mint_on_chain
mint_on_chains-Keeps tag overwrite [] = pure-Keeps tt
mint_on_chains-Keeps tag overwrite (c ∷ cs) =
    >>=-Keeps _ _ (search (keeps_rules, mint_all-Keeps) depth 8)
      λ _. mint_on_chains-Keeps tag overwrite cs

ask_for_chains-Keeps : Keeps AreRecorded ask_for_chains
unfolding ask_for_chains
ask_for_chains-Keeps = search (keeps_rules, choose-Keeps)

-- However the deployment of the minters ends, what it has deployed on the chosen chains is what it has recorded in the
-- database, address by address, each with the TOFT that it was deployed for, if that was so before it.
pub deploy_toft_minter-AreRecorded :
    (overwrite : Bool) (w : World) (t : Trace)
    → AreRecorded t
    → AreRecorded (deploy_toft_minter overwrite w t).1
unfolding deploy_toft_minter
deploy_toft_minter-AreRecorded overwrite w t h =
    let keeps : Keeps AreRecorded (deploy_toft_minter overwrite) =
      search
        (
          keeps_rules, set_project-Keeps, ask_for_tag-Keeps, ask_for_chains-Keeps,
          mint_on_chains-Keeps,
        )
        depth 8 in
    keeps.at w t h
