-- ===== src/Deploy/SglMarket/Progress.antt =====
-- How far deploySGLMarket.ts gets on the chain, in whichever way it ends.
use mathlib.Core.Path.{subst}
use tapioca.Base.{
  ℕ, zero, suc, ◌≤◌, String, ◌≡◌, ◌⊎◌, refl, sym, ap, ◌∙◌, some, [], ◌∷◌, inl, inr, arith,
}
use tapioca.Hre.Types.{str, sent, deployed, Trace}
use tapioca.Hre.World.{World}
use tapioca.Hre.Task.{Result, ok, err, Task, ◌>>=◌, ◌>>◌}
use tapioca.Hre.Seen.{seen, seen->>=, seen-eq_of_silent, is_tx, is_act}
use tapioca.Hre.Returns.{
  >>=-of_ok, >>=-err, deploy-cases, abi_encode-cases, abi_encode-ok, send-cases,
}
use tapioca.Setups.{tx}
use tapioca.Deploy.SglMarket.{
  SglArgs, SglPlan, sgl_prepare, sgl_deploy, sgl_record, deploy_sgl_market, sgl_types,
  sgl_init_args, add_singularity,
}
use tapioca.Deploy.SglMarket.Order.{sgl_events, sgl_prepare-IsSilent, sgl_record-IsSilent}

-- All but the newest `k` events.
abbrev pub before : ℕ → Trace → Trace
before zero t = t
before (suc k) [] = []
before (suc k) (e ∷ t) = before k t

-- The events up to some point of the deployment, of which there are three; the data of the initialisation, where it was sent, are the encoded plan.
pub record Progress (w : World) (p : SglPlan) (t x : Trace) : Type 0 where
  pub sgl : String
  pub init_data : String
  pub left : ℕ
  pub at_most : left ≤ 3
  pub encoded :
      (left ≡ 3) ⊎ (left ≡ 2) ⊎ (w.abi_encode sgl_types (sgl_init_args p) ≡ some init_data)
  pub so_far : x ≡ before left (sgl_events p sgl init_data t)

-- Ends after the transactions so far, of which `left` are missing.
ends :
    (p : SglPlan) (w : World) (t : Trace) (sgl init_data : String) (left : ℕ)
    (r : Result (Unit {0}) × Trace) (e : Result (Unit {0})) (s : Trace)
    → left ≤ 3
    → (left ≡ 3) ⊎ (left ≡ 2) ⊎ (w.abi_encode sgl_types (sgl_init_args p) ≡ some init_data)
    → r ≡ (e, s)
    → seen is_act s ≡ before left (sgl_events p sgl init_data (seen is_act t))
    → Progress w p (seen is_act t) (seen is_act r.1)
ends p w t sgl init_data left r e s at_most encoded h shape = record {
  sgl = sgl;
  init_data = init_data;
  left = left;
  at_most = at_most;
  encoded = encoded;
  so_far = ap (λ (x : Result (Unit {0}) × Trace). seen is_act x.1) h ∙ shape;
}

sgl_deploy-Progress :
    (p : SglPlan) (w : World) (t : Trace)
    → Progress w p (seen is_act t) (seen is_act (sgl_deploy p w t).1)
unfolding sgl_deploy
sgl_deploy-Progress p w t = elim (deploy-cases "Singularity" [] w t) [
  | inr e ↦ ends p w t "" "" 3 _ _ t (omega arith) (inl refl) (>>=-err _ _ w t e) refl
  | inl (sgl, e) ↦
      let t1 = deployed "Singularity" [] sgl ∷ t in
      let d = >>=-of_ok _ _ w t sgl t1 e in
      elim (abi_encode-cases sgl_types (sgl_init_args p) w t1) [
        | inr e ↦
            ends p w t sgl "" 2 _ _ t1 (omega arith) (inr (inl refl)) (d ∙ >>=-err _ _ w t1 e) refl
        | inl (init_data, e) ↦
            let enc = (abi_encode-ok sgl_types (sgl_init_args p) w t1 e).0 in
            let init = tx sgl "init" (str init_data ∷ []) in
            let t2 = sent init ∷ t1 in
            let d = d ∙ >>=-of_ok _ _ w t1 init_data t1 e in
            elim (send-cases init w t1) [
              | inr e ↦
                  ends p w t sgl init_data 2 _ _ t1 (omega arith) (inr (inr enc))
                    (d ∙ >>=-err _ _ w t1 e) refl
              | inl e ↦
                  let d = d ∙ >>=-of_ok _ _ w t1 tt t2 e in
                  elim (send-cases (add_singularity p sgl) w t2) [
                    | inr e ↦
                        ends p w t sgl init_data 1 _ _ t2 (omega arith) (inr (inr enc)) (d ∙ e) refl
                    | inl e ↦
                        ends p w t sgl init_data 0 _ _ _ (omega arith) (inr (inr enc)) (d ∙ e) refl
                  ]
            ]
      ]
]

-- However a run ends, either it has sent no transaction and deployed nothing but through a deployer, or it has prepared a plan in this way, and what it has changed on the chain after that is a first part of the deployment, the
-- initialisation with the encoded plan, and the registration of this plan, in this order: never the registration of a market that is not initialised, and nothing beside these three.
pub deploy_sgl_market-Progress :
    (args : SglArgs) (w : World) (t : Trace)
    → (seen is_tx (deploy_sgl_market args w t).1 ≡ seen is_tx t)
      ⊎ ((p : SglPlan) × (s : Trace) × (sgl_prepare args w t ≡ (ok p, s))
          × (seen is_tx s ≡ seen is_tx t)
          × Progress w p (seen is_act s) (seen is_act (deploy_sgl_market args w t).1))
unfolding deploy_sgl_market
deploy_sgl_market-Progress args w t = go (sgl_prepare args w t).0 (sgl_prepare args w t).1 refl
  where
    rest : SglPlan → Task (Unit {0})
    rest p = sgl_deploy p >> sgl_record p

    go :
        (r : Result SglPlan) (s : Trace)
        → sgl_prepare args w t ≡ (r, s)
        → (seen is_tx ((sgl_prepare args >>= rest) w t).1 ≡ seen is_tx t)
          ⊎ ((p : SglPlan) × (s : Trace) × (sgl_prepare args w t ≡ (ok p, s))
              × (seen is_tx s ≡ seen is_tx t)
              × Progress w p (seen is_act s) (seen is_act ((sgl_prepare args >>= rest) w t).1))
    go (err x) s e = inl (
        ap (λ (r : Result (Unit {0}) × Trace). seen is_tx r.1)
          (>>=-err (sgl_prepare args) rest w t e)
        ∙ seen-eq_of_silent (sgl_prepare args) w t (sgl_prepare-IsSilent args) e)
    go (ok p) s e = inr (
      p,
      s,
      e,
      seen-eq_of_silent (sgl_prepare args) w t (sgl_prepare-IsSilent args) e,
      subst (Progress w p (seen is_act s))
          (sym (
            ap (λ (r : Result (Unit {0}) × Trace). seen is_act r.1)
              (>>=-of_ok (sgl_prepare args) rest w t p s e)
            ∙ seen->>= (sgl_deploy p) (λ _. sgl_record p) w s (λ _. sgl_record-IsSilent p)))
          (sgl_deploy-Progress p w s),
    )
