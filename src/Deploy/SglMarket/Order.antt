-- ===== src/Deploy/SglMarket/Order.antt =====
-- What deploySGLMarket.ts does on the chain, and in which order.
use tapioca.Base.{String, ◌≡◌, ◌≢◌, ap, ◌∙◌, none, some, [], ◌∷◌}
use tapioca.Hre.Types.{str, TContract, sent, deployed, Trace, Error}
use tapioca.Hre.World.{World}
use tapioca.Hre.Task.{ok, ◌>>◌, Task}
use tapioca.Hre.Throws.{Throws, >>=-Throws, Throws->>=, trace_of_Throws}
use tapioca.Hre.Seen.{IsSilent, seen, seen-eq_of_silent, is_tx, is_act}
use tapioca.Hre.Returns.{>>=-ok, send-ok, deploy-ok, abi_encode-ok}
use tapioca.Setups.{tx}
use tapioca.Deploy.Silent.{lookup_rules, get_local-Throws}
use tapioca.Deploy.StratsSilent.{load_strats-IsSilent}
use tapioca.Deploy.SglMarket.{
  SglArgs, SglPlan, executor_filter, load_contracts, sgl_prepare, sgl_deploy, sgl_record,
  deploy_sgl_market, sgl_types, sgl_init_args, add_singularity,
}

load_contracts-IsSilent : (tag : String) → IsSilent is_tx (load_contracts tag)
unfolding load_contracts
load_contracts-IsSilent tag = search lookup_rules depth 20

pub sgl_prepare-IsSilent : (args : SglArgs) → IsSilent is_tx (sgl_prepare args)
unfolding sgl_prepare
sgl_prepare-IsSilent args =
    search (lookup_rules, load_contracts-IsSilent, load_strats-IsSilent) depth 20

pub sgl_record-IsSilent : (p : SglPlan) → IsSilent is_act (sgl_record p)
unfolding sgl_record
sgl_record-IsSilent p = search lookup_rules depth 10

-- A deployment that returns has sent these events, the newest first.
abbrev pub sgl_events : SglPlan → String → String → Trace → Trace
sgl_events p sgl init_data t =
    sent (add_singularity p sgl)
    ∷ sent (tx sgl "init" (str init_data ∷ []))
    ∷ deployed "Singularity" [] sgl
    ∷ t

sgl_deploy-ok :
    (p : SglPlan) (w : World) (t : Trace) {t' : Trace}
    → sgl_deploy p w t ≡ (ok tt, t')
    → (sgl : String) × (init_data : String) × (w.abi_encode sgl_types (sgl_init_args p)
        ≡ some init_data)
      × (t' ≡ sgl_events p sgl init_data t)
unfolding sgl_deploy
sgl_deploy-ok p w t h =
    let (sgl, t1, e1, h1) = >>=-ok _ _ w t h in
    let (init_data, t2, e2, h2) = >>=-ok _ _ w t1 h1 in
    let (_, t3, e3, h3) = >>=-ok _ _ w t2 h2 in
    let encoded = abi_encode-ok _ _ w t1 e2 in
    (
      sgl,
      init_data,
      encoded.0,
      cc ((deploy-ok _ _ w t e1).1, encoded.1, (send-ok _ w t2 e3).1, (send-ok _ w t3 h3).1),
    )

-- A deployment that returns has first prepared a plan, sending no transaction and deploying nothing but through a deployer. What it has changed on the chain
-- after that is that it has deployed a Singularity, initialised it with the encoded plan and registered it in Penrose under MediumRiskMC, in this order and nothing else.
pub deploy_sgl_market-order :
    (args : SglArgs) (w : World) (t : Trace) {t' : Trace}
    → deploy_sgl_market args w t ≡ (ok tt, t')
    → (p : SglPlan) × (s : Trace) × (sgl : String) × (init_data : String) × (sgl_prepare args w t
        ≡ (ok p, s))
      × (seen is_tx s ≡ seen is_tx t)
      × (w.abi_encode sgl_types (sgl_init_args p) ≡ some init_data)
      × (seen is_act t' ≡ sgl_events p sgl init_data (seen is_act s))
unfolding deploy_sgl_market
deploy_sgl_market-order args w t {t'} h =
    let (p, s, e, h1) = >>=-ok (sgl_prepare args) (λ p. sgl_deploy p >> sgl_record p) w t h in
    let (_, s1, e1, h2) = >>=-ok (sgl_deploy p) (λ _. sgl_record p) w s h1 in
    let (sgl, init_data, k, shape) = sgl_deploy-ok p w s e1 in
    (
      p,
      s,
      sgl,
      init_data,
      e,
      seen-eq_of_silent (sgl_prepare args) w t (sgl_prepare-IsSilent args) e,
      k,
      seen-eq_of_silent (sgl_record p) w s1 (sgl_record-IsSilent p) h2 ∙ ap (seen is_act) shape,
    )

-- Without the leverage executor that the arguments name, no run of the preparation returns.
sgl_prepare-Throws :
    (args : SglArgs) (w : World)
    → ((t : Trace) (tag : String) → w.get_local t w.chain_id (executor_filter args) tag ≡ none)
    → Throws w (sgl_prepare args)
unfolding sgl_prepare
sgl_prepare-Throws args w h =
    search
      (
        >>=-Throws,
        λ (tag : String) (e : Error) (k : TContract → Task SglPlan).
            get_local-Throws {w = w} (executor_filter args) tag e k (λ t. h t tag),
      )
      depth 25

-- Without that executor the task throws, and has sent no transaction and deployed nothing but through a deployer.
pub deploy_sgl_market-missing_executor :
    (args : SglArgs) (w : World) (t : Trace)
    → ((s : Trace) (tag : String) → w.get_local s w.chain_id (executor_filter args) tag ≡ none)
    → ((u : Unit {0}) → (deploy_sgl_market args w t).0 ≢ ok u)
      × (seen is_tx (deploy_sgl_market args w t).1 ≡ seen is_tx t)
unfolding deploy_sgl_market
deploy_sgl_market-missing_executor args w t h =
    let throws = sgl_prepare-Throws args w h in
    let rest : SglPlan → Task (Unit {0}) = λ p. sgl_deploy p >> sgl_record p in
    (
      (Throws->>= (sgl_prepare args) rest throws).at t,
      ap (seen is_tx) (trace_of_Throws (sgl_prepare args) rest t throws)
          ∙ (sgl_prepare-IsSilent args).at w t,
    )
