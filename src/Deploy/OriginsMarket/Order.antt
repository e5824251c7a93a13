-- ===== src/Deploy/OriginsMarket/Order.antt =====
-- What deployOriginsMarket.ts does on the chain, and in which order.
use tapioca.Base.{String, ◌≡◌, refl, ap, ◌∙◌, true, some, [], ◌∷◌}
use tapioca.Hre.Types.{str, bool, TContract, sent, deployed, Trace}
use tapioca.Hre.World.{World}
use tapioca.Hre.Task.{ok}
use tapioca.Hre.Seen.{
  IsSilent, seen, seen-eq_of_silent, is_tx, is_act, require-IsSilent, ask-IsSilent,
  get_contract_at-IsSilent, save-IsSilent,
}
use tapioca.Hre.Returns.{on_ok, after_send, ask-ok, require-ok, send-ok, deploy-ok}
use tapioca.Hre.Answers.{get_contract_at-ok}
use tapioca.Utils.{find_named}
use tapioca.Setups.{tx}
use tapioca.Deploy.Silent.{lookup_rules, load_vm-IsSilent}
use tapioca.Deploy.StratsSilent.{load_strats-IsSilent}
use tapioca.Deploy.OriginsMarket.{
  OriginsArgs, OriginsPlan, load_origins_contracts, origins_prepare, origins_args, origins_deploy,
  deploy_origins_market,
}

load_origins_contracts-IsSilent : (tag : String) → IsSilent is_tx (load_origins_contracts tag)
unfolding load_origins_contracts
load_origins_contracts-IsSilent tag = search lookup_rules depth 10

origins_prepare-IsSilent : (args : OriginsArgs) → IsSilent is_tx (origins_prepare args)
unfolding origins_prepare
origins_prepare-IsSilent args =
    search (lookup_rules, load_origins_contracts-IsSilent, load_strats-IsSilent) depth 20

-- The transactions of a deployment, the newest first.
abbrev pub origins_events : OriginsPlan → String → String → Trace → Trace
origins_events p origins usdo t =
    sent (tx p.contracts.penrose "addOriginsMarket" (str origins ∷ []))
    ∷ sent (tx usdo "setBurnerStatus" (str origins ∷ bool true ∷ []))
    ∷ sent (tx usdo "setMinterStatus" (str origins ∷ bool true ∷ []))
    ∷ deployed "Origins" (origins_args p) origins
    ∷ t

-- The USDO of the local list, when nothing has changed on the chain since the deployment of the market.
abbrev pub IsOriginsUsdo : World → OriginsPlan → String → Trace → String → Type 0
IsOriginsUsdo w p origins s usdo =
    (r : Trace) × (entry : TContract) × (seen is_act r
      ≡ deployed "Origins" (origins_args p) origins ∷ seen is_act s)
    × (find_named "USDO" (w.load_local r p.tag p.chain_info.chain_id) ≡ some entry)
    × (w.contract_at "USDO" (str entry.address) ≡ some usdo)

origins_deploy-ok :
    (p : OriginsPlan) (w : World) (t : Trace) {t' : Trace}
    → origins_deploy p w t ≡ (ok tt, t')
    → (origins : String) × (usdo : String) × IsOriginsUsdo w p origins t usdo
      × (seen is_act t' ≡ origins_events p origins usdo (seen is_act t))
unfolding origins_deploy
origins_deploy-ok p w t h = on_ok _ _ w t h λ origins t1 e1 h1. on_ok _ _ w t1 h1 λ vm t2 e2 h2.
    on_ok _ _ w t2 h2 λ _ t3 e3 h3. on_ok _ _ w t3 h3 λ found t4 e4 h4.
      on_ok _ _ w t4 h4 λ usdo_deployment t5 e5 h5. on_ok _ _ w t5 h5 λ usdo t6 e6 h6.
        let last = send-ok _ w _ (after_send _ _ w _ (after_send _ _ w t6 h6)) in
        let deployed_here =
          seen-eq_of_silent _ w t2 (save-IsSilent _ refl) e3
          ∙ seen-eq_of_silent _ w t1 (load_vm-IsSilent _) e2
          ∙ ap (seen is_act) (deploy-ok _ _ w t e1).1 in
        let quiet =
          seen-eq_of_silent _ w t5 (get_contract_at-IsSilent _ _) e6
          ∙ seen-eq_of_silent _ w t4 (require-IsSilent _ _) e5
          ∙ seen-eq_of_silent _ w t3 (ask-IsSilent _) e4
          ∙ deployed_here in
        (
          origins,
          usdo,
          (
            t3,
            usdo_deployment,
            deployed_here,
            (ask-ok (λ v x. find_named "USDO" (v.load_local x p.tag p.chain_info.chain_id)) w t3
                  e4).0
                ∙ (require-ok _ found w t4 e5).0,
            (get_contract_at-ok "USDO" (str usdo_deployment.address) w t5 e6).0,
          ),
          ap (seen is_act) last.1
              ∙ ap
                  (λ s.
                    sent (tx p.contracts.penrose "addOriginsMarket" (str origins ∷ []))
                    ∷ sent (tx usdo "setBurnerStatus" (str origins ∷ bool true ∷ []))
                    ∷ sent (tx usdo "setMinterStatus" (str origins ∷ bool true ∷ []))
                    ∷ s)
                  quiet,
        )

-- A deployment that returns has first prepared a plan, sending no transaction and deploying nothing but through a deployer. What it has changed on the chain after that is that it
-- has deployed an Origins market with the arguments of the plan, given it the rights to mint and to burn the USDO of the local list, and registered it in Penrose, in this order and nothing else.
pub deploy_origins_market-order :
    (args : OriginsArgs) (w : World) (t : Trace) {t' : Trace}
    → deploy_origins_market args w t ≡ (ok tt, t')
    → (p : OriginsPlan) × (s : Trace) × (origins : String) × (usdo : String) × (origins_prepare args
          w t
        ≡ (ok p, s))
      × (seen is_tx s ≡ seen is_tx t)
      × IsOriginsUsdo w p origins s usdo
      × (seen is_act t' ≡ origins_events p origins usdo (seen is_act s))
unfolding deploy_origins_market
deploy_origins_market-order args w t h = on_ok _ _ w t h λ p s e k.
    let (origins, usdo, is_usdo, shape) = origins_deploy-ok p w s k in
    (
      p,
      s,
      origins,
      usdo,
      e,
      seen-eq_of_silent _ w t (origins_prepare-IsSilent args) e,
      is_usdo,
      shape,
    )
