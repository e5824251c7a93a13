-- ===== src/Deploy/BigBangMarket/Order.antt =====
-- What deployBigBangMarket.ts does on the chain, and in which order.
use mathlib.Core.Path.{subst}
use tapioca.Base.{
  arith, ℕ, first, refl, String, ◌==◌, ◌≡◌, sym, ap, ◌∙◌, Bool, true, false, Option, none, some, [],
  ◌∷◌, if◌then◌else◌, inl, inr, Bool-cases,
}
use tapioca.Hre.Types.{Val, str, bool, TContract, Call, Vm, sent, deployed, Trace}
use tapioca.Hre.World.{World}
use tapioca.Hre.Task.{◌>>=◌, ok, send, pure, list, first_address, view_length}
use tapioca.Hre.Answers.{view-ok, get_contract_at-ok}
use tapioca.Hre.Seen.{
  seen, seen-eq_of_silent, is_tx, is_act, require-IsSilent, ask-IsSilent, get_contract_at-IsSilent,
}
use tapioca.Hre.Returns.{
  on_ok, after_send, ask-ok, ask_or-ok, require-ok, send-ok, deploy-ok, pure-ok, abi_encode-ok,
  encode_function_data-ok,
}
use tapioca.Setups.{tx}
use tapioca.Utils.{address_of, find_named}
use tapioca.Deploy.Lookup.{address_field, minus_one}
use tapioca.Deploy.Silent.{address_field-IsSilent}
use tapioca.Deploy.BigBangOracles.{BigBangArgs, BigBangBasis, Oracles, bb_basis, bb_oracles}
use tapioca.Deploy.BigBangMarket.Silent.{
  bb_basis-IsSilent, bb_oracles-IsSilent, bb_plan-IsSilent, oracle_address-IsSilent,
  bb_record-IsSilent,
}
use tapioca.Deploy.BigBangMarket.{
  BigBangPlan, bb_plan, bb_types, bb_init_args, bb_deploy, bb_record, bb_settings, oracle_address,
  execute_market_fn, deploy_big_bang_market,
}

-- The initialisation and the registration, the newest first.
abbrev pub register_events : BigBangPlan → String → String → Trace → Trace
register_events p bb init_data t =
    sent (tx p.basis.penrose "addBigBang" (str p.basis.medium_risk_mc.address ∷ str bb ∷ []))
    ∷ sent (tx bb "init" (str init_data ∷ []))
    ∷ t

address_field-ok :
    (o : Option TContract) (w : World) (t : Trace) {a : String} {t' : Trace}
    → address_field o w t ≡ (ok a, t')
    → address_of o ≡ str a
unfolding address_field ◌>>=◌
address_field-ok none w t h = ground arith
address_field-ok (some c) w t h = ground arith

-- The oracle, or else the first contract that the deployer lists.
abbrev pub oracle_of : World → Trace → Vm → Option TContract → Option String
oracle_of w t vm (some o) = some o.address
oracle_of w t vm none = elim (first (w.vm_list t vm)) [ none ↦ none | some c ↦ some c.address ]

oracle_address-ok :
    (vm : Vm) (o : Option TContract) (w : World) (t : Trace) {a : String} {t' : Trace}
    → oracle_address vm o w t ≡ (ok a, t')
    → oracle_of w t vm o ≡ some a
unfolding oracle_address first_address list
oracle_address-ok vm (some o) w t h = ap some (pure-ok o.address w t h).0
oracle_address-ok vm none w t h = on_ok _ _ w t h λ l t1 e1 h1. on_ok _ _ w t1 h1 λ c t2 e2 h2.
    ap (λ x. elim (first x) [ none ↦ none | some d ↦ some d.address ])
      (ask-ok (λ v s. v.vm_list s vm) w t e1).0
    ∙ ap (λ x. elim x [ none ↦ none | some d ↦ some d.address ]) (require-ok _ (first l) w t1 e2).0
    ∙ ap some (pure-ok c.address w t2 h2).0

bb_deploy-ok :
    (p : BigBangPlan) (w : World) (t : Trace) {t' : Trace}
    → bb_deploy p w t ≡ (ok tt, t')
    → (bb : String) × (oracle : String) × (executor : String) × (init_data : String) × (address_of
          p.leverage_executor
        ≡ str executor)
      × (oracle_of w (deployed "BigBang" [] bb ∷ t) p.oracles.vm p.oracles.oracle ≡ some oracle)
      × (w.abi_encode bb_types (bb_init_args p oracle executor) ≡ some init_data)
      × (seen is_act t' ≡ register_events p bb init_data (deployed "BigBang" [] bb ∷ seen is_act t))
unfolding bb_deploy
bb_deploy-ok p w t {t'} h = on_ok _ _ w t h λ bb t1 e1 h1. on_ok _ _ w t1 h1 λ oracle t2 e2 h2.
    on_ok _ _ w t2 h2 λ executor t3 e3 h3. on_ok _ _ w t3 h3 λ init_data t4 e4 h4.
      let encoded = abi_encode-ok _ _ w t3 e4 in
      let last = (send-ok _ w _ (after_send _ _ w t4 h4)).1 in
      (
        bb,
        oracle,
        executor,
        init_data,
        address_field-ok p.leverage_executor w t2 e3,
        ap (λ x. oracle_of w x p.oracles.vm p.oracles.oracle) (sym (deploy-ok _ _ w t e1).1)
            ∙ oracle_address-ok p.oracles.vm p.oracles.oracle w t1 e2,
        encoded.0,
        ap (seen is_act) last
            ∙ ap (register_events p bb init_data) (
                ap (seen is_act) (sym encoded.1)
                ∙ seen-eq_of_silent _ w t2 (address_field-IsSilent _) e3
                ∙ seen-eq_of_silent _ w t1 (oracle_address-IsSilent _ _) e2
                ∙ ap (seen is_act) (deploy-ok _ _ w t e1).1),
      )

-- The clone that Penrose lists last for the master contract, when this has changed on the chain.
abbrev pub IsMarket : World → BigBangPlan → Trace → String → Type 0
IsMarket w p changed market =
    (r : Trace) × (n : ℕ) × (clone : Val) × (seen is_act r ≡ changed)
    × (w.view_length r (tx p.basis.penrose "bigBangMarkets" []) ≡ some n)
    × (w.view r
          (tx p.basis.penrose "clonesOf" (str p.basis.medium_risk_mc.address ∷ minus_one n ∷ []))
        ≡ some clone)
    × (w.contract_at "BigBang" clone ≡ some market)

bb_record-ok :
    (p : BigBangPlan) (w : World) (t : Trace) {market : String} {t' : Trace}
    → bb_record p w t ≡ (ok market, t')
    → IsMarket w p (seen is_act t) market
unfolding bb_record view_length
bb_record-ok p w t h = on_ok _ _ w t h λ n t1 e1 h1. on_ok _ _ w t1 h1 λ clone t2 e2 h2.
    on_ok _ _ w t2 h2 λ market t3 e3 h3. on_ok _ _ w t3 h3 λ _ t4 e4 h4.
      let counted =
        ask_or-ok _ (λ v x. v.view_length x (tx p.basis.penrose "bigBangMarkets" [])) w t e1 in
      (
        t,
        n,
        clone,
        refl,
        counted.0,
        ap
              (λ x. w.view x (
                tx p.basis.penrose "clonesOf"
                  (str p.basis.medium_risk_mc.address ∷ minus_one n ∷ [])))
              counted.1
            ∙ (view-ok _ w t1 e2).0,
        (get_contract_at-ok "BigBang" clone w t2 e3).0 ∙ ap some (pure-ok market w t4 h4).0,
      )

-- The market's rights on USDO and, for the main market alone, its place in Penrose.
abbrev pub right_events : BigBangPlan → String → String → Trace → Trace
right_events p market usdo t =
    let rights =
      sent (tx usdo "setBurnerStatus" (str market ∷ bool true ∷ []))
      ∷ sent (tx usdo "setMinterStatus" (str market ∷ bool true ∷ []))
      ∷ t in
    if p.debt_rate_against_eth == "0"
    then sent (tx p.basis.penrose "setBigBangEthMarket" (str market ∷ [])) ∷ rights
    else rights

-- They follow the asset oracle.
abbrev pub setting_events : BigBangPlan → String → String → String → Trace → Trace
setting_events p market usdo call_data t =
    right_events p market usdo (sent (execute_market_fn p.basis.penrose market call_data) ∷ t)

seen-setting :
    (p : BigBangPlan) (market usdo : String) (t : Trace)
    → seen is_act (right_events p market usdo t) ≡ right_events p market usdo (seen is_act t)
seen-setting p market usdo t = elim (Bool-cases (p.debt_rate_against_eth == "0")) [
  | inl e ↦ rw e
  | inr e ↦ rw e
]

-- The USDO of the local list, when this has changed on the chain.
abbrev pub IsUsdo : World → BigBangPlan → Trace → String → Type 0
IsUsdo w p changed usdo =
    (r : Trace) × (entry : TContract) × (seen is_act r ≡ changed)
    × (find_named "USDO" (w.load_local r p.basis.tag p.basis.chain_info.chain_id) ≡ some entry)
    × (w.contract_at "USDO" (str entry.address) ≡ some usdo)

-- The last step.
main_market-ok :
    (c : Call) (b : Bool) (w : World) (t : Trace) {t' : Trace}
    → (if b then send c else pure tt) w t ≡ (ok tt, t')
    → t' ≡ (if b then sent c ∷ t else t)
main_market-ok c true w t h = (send-ok c w t h).1
main_market-ok c false w t h = sym (pure-ok tt w t h).1

bb_settings-ok :
    (p : BigBangPlan) (market : String) (w : World) (t : Trace) {t' : Trace}
    → bb_settings p market w t ≡ (ok tt, t')
    → (usdo : String) × (call_data : String) × (w.encode_function_data "setAssetOracle"
          (address_of p.oracles.asset_oracle ∷ str "0x" ∷ [])
        ≡ some call_data)
      × IsUsdo w p (sent (execute_market_fn p.basis.penrose market call_data) ∷ seen is_act t) usdo
      × (seen is_act t' ≡ setting_events p market usdo call_data (seen is_act t))
unfolding bb_settings
bb_settings-ok p market w t {t'} h = on_ok _ _ w t h λ call_data t1 e1 h1.
    let encoded = encode_function_data-ok _ _ w t e1 in
    let asset_set = sent (execute_market_fn p.basis.penrose market call_data) in
    on_ok _ _ w _ (after_send _ _ w t1 h1) λ found t3 e3 h3.
      on_ok _ _ w t3 h3 λ usdo_deployment t4 e4 h4. on_ok _ _ w t4 h4 λ usdo t5 e5 h5.
        let last = main_market-ok _ _ w _ (after_send _ _ w _ (after_send _ _ w t5 h5)) in
        (
          usdo,
          call_data,
          encoded.0,
          (
            asset_set ∷ t1,
            usdo_deployment,
            ap (λ s. asset_set ∷ seen is_act s) (sym encoded.1),
            (ask-ok
                  (λ v x.
                    find_named "USDO" (v.load_local x p.basis.tag p.basis.chain_info.chain_id))
                  w (asset_set ∷ t1) e3).0
                ∙ (require-ok _ found w t3 e4).0,
            (get_contract_at-ok "USDO" (str usdo_deployment.address) w t4 e5).0,
          ),
          ap (seen is_act) last
              ∙ seen-setting p market usdo t5
              ∙ ap (right_events p market usdo) (
                  seen-eq_of_silent _ w t4 (get_contract_at-IsSilent _ _) e5
                  ∙ seen-eq_of_silent _ w t3 (require-IsSilent _ _) e4
                  ∙ seen-eq_of_silent _ w _ (ask-IsSilent _) e3
                  ∙ ap
                      (λ s.
                        sent (execute_market_fn p.basis.penrose market call_data) ∷ seen is_act s)
                      (sym encoded.1)),
        )

-- What the lookups, the oracles and the answers at the start of the task give, up to `s`.
abbrev pub IsPlan : BigBangArgs → World → Trace → BigBangPlan → Trace → Type 0
IsPlan args w t p s =
    (b : BigBangBasis) × (os : Oracles) × (t1 : Trace) × (t2 : Trace) × (bb_basis args w t
      ≡ (ok b, t1))
    × (bb_oracles args b w t1 ≡ (ok os, t2))
    × (bb_plan args b os w t2 ≡ (ok p, s))

-- A market deployment that returns has first made a plan, sending no transaction and deploying nothing but through a deployer. What it has changed on the chain after that is, in this
-- order and nothing else: the BigBang's deployment, its initialisation with the encoded plan, the plan's oracle or the first contract that its deployer lists, and the plan's leverage
-- executor, the market's registration in Penrose, the asset oracle of the clone that Penrose lists last, that clone's rights to mint and to burn the USDO of the local list,
-- and, exactly when the debt rate was answered with '0', its place as the main market.
pub deploy_big_bang_market-order :
    (args : BigBangArgs) (w : World) (t : Trace) {t' : Trace}
    → deploy_big_bang_market args w t ≡ (ok tt, t')
    → (p : BigBangPlan) × (s : Trace) × (bb : String) × (oracle : String) × (executor : String)
      × (init_data : String) × (market : String) × (usdo : String) × (call_data : String) × IsPlan
          args w t p s
      × (seen is_tx s ≡ seen is_tx t)
      × (address_of p.leverage_executor ≡ str executor)
      × (oracle_of w (deployed "BigBang" [] bb ∷ s) p.oracles.vm p.oracles.oracle ≡ some oracle)
      × (w.abi_encode bb_types (bb_init_args p oracle executor) ≡ some init_data)
      × IsMarket w p
          (register_events p bb init_data (deployed "BigBang" [] bb ∷ seen is_act s))
          market
      × (w.encode_function_data "setAssetOracle" (address_of p.oracles.asset_oracle ∷ str "0x" ∷ [])
          ≡ some call_data)
      × IsUsdo w p
          (sent (execute_market_fn p.basis.penrose market call_data)
            ∷ register_events p bb init_data (deployed "BigBang" [] bb ∷ seen is_act s))
          usdo
      × (seen is_act t'
          ≡ setting_events p market usdo call_data
              (register_events p bb init_data (deployed "BigBang" [] bb ∷ seen is_act s)))
unfolding deploy_big_bang_market
deploy_big_bang_market-order args w t h = on_ok _ _ w t h λ b t1 e1 h1.
    on_ok _ _ w t1 h1 λ os t2 e2 h2. on_ok _ _ w t2 h2 λ p s e3 h3. on_ok _ _ w s h3 λ u t4 e4 h4.
      on_ok _ _ w t4 h4 λ market t5 e5 h5.
        let (bb, oracle, executor, init_data, named, is_oracle, encoded, shape) =
          bb_deploy-ok p w s e4 in
        let (usdo, call_data, encoded', is_usdo, shape') = bb_settings-ok p market w t5 h5 in
        let recorded = seen-eq_of_silent _ w t4 (bb_record-IsSilent p) e5 ∙ shape in
        (
          p,
          s,
          bb,
          oracle,
          executor,
          init_data,
          market,
          usdo,
          call_data,
          (b, os, t1, t2, e1, e2, e3),
          seen-eq_of_silent _ w t2 (bb_plan-IsSilent args b os) e3
              ∙ seen-eq_of_silent _ w t1 (bb_oracles-IsSilent args b) e2
              ∙ seen-eq_of_silent _ w t (bb_basis-IsSilent args) e1,
          named,
          is_oracle,
          encoded,
          subst (λ x. IsMarket w p x market) shape (bb_record-ok p w t4 e5),
          encoded',
          subst
              (λ x. IsUsdo w p (sent (execute_market_fn p.basis.penrose market call_data) ∷ x) usdo)
              recorded is_usdo,
          shape' ∙ ap (setting_events p market usdo call_data) recorded,
        )
