-- ===== src/TapiocaZ/DeployBalancer/Order.antt =====
-- What the deployment of the Balancer comes to.
use tapioca.Base.{
  String, Bool, true, false, not, ◌&&◌, is_some, ◌≡◌, ◌⊎◌, inl, inr, refl, sym, ap, ◌∙◌, Option,
  none, some, [], ◌++◌, if◌then◌else◌, ◌∷◌,
}
use tapioca.Hre.Types.{Vm, vm_executed, vm_saved, vm_verified, prompted, TContract, Trace}
use tapioca.Hre.World.{World}
use tapioca.Hre.Task.{ok, Task, pure, get_contract_factory, add}
use tapioca.Hre.Answers.{at_start, ask_for_tag-ok}
use tapioca.Hre.Seen.{
  IsSilent, silent_rules, seen, is_effect, seen-eq_of_silent, ask-IsSilent, new_vm-IsSilent,
  require-IsSilent, ask_for_tag-IsSilent,
}
use tapioca.Hre.Returns.{
  on_ok, ask-ok, require-ok, pure-ok, execute-ok, save-ok, verify-ok, new_vm-ok,
}
use tapioca.TapiocaZ.Config.{StargateRouter, stargate_routers}
use tapioca.TapiocaZ.DeployBalancer.{balancer_build, deploy_new_balancer, deploy_balancer}

-- One deployer, with a Balancer on the routers of the chain alone in its queue, was executed, saved and verified.
abbrev pub Deploys : World → Trace → Trace → Type 0
Deploys w t t' =
    (stargate : StargateRouter) × (vm : Vm) × (stargate_routers w.network_chain_id ≡ some stargate)
    × (vm.queue ≡ balancer_build stargate w.signer ∷ [])
    × (seen is_effect t' ≡ vm_verified vm ∷ vm_saved vm ∷ vm_executed vm ∷ seen is_effect t)

-- Is the Balancer recorded on the chain of the network, under the tag that is asked for, when nothing has been done but that?
abbrev pub has_balancer : World → Trace → Bool
has_balancer w t =
    is_some (w.get_local (prompted "tag" ∷ t) w.network_chain_id "Balancer" (w.ask_for_tag t))

factory-IsSilent : (name : String) → IsSilent is_effect (get_contract_factory name)
unfolding get_contract_factory
factory-IsSilent name = search silent_rules

new-ok :
    (tag : String) (w : World) (t s : Trace) {t' : Trace}
    → seen is_effect s ≡ seen is_effect t
    → deploy_new_balancer tag w.signer w.network_chain_id w s ≡ (ok tt, t')
    → Deploys w t t'
unfolding deploy_new_balancer
new-ok tag w t s q h = on_ok _ _ w s h λ stargate t1 e1 h1. on_ok _ _ w t1 h1 λ _ t2 e2 h2.
    on_ok _ _ w t2 h2 λ vm t3 e3 h3. on_ok _ _ w t3 h3 λ _ t4 e4 h4. on_ok _ _ w t4 h4 λ _ t5 e5 h5.
      let whole : Vm = add vm (balancer_build stargate w.signer) in
      (
        stargate,
        whole,
        (require-ok _ (stargate_routers w.network_chain_id) w s e1).0,
        ap (λ l. l ++ balancer_build stargate w.signer ∷ []) (new_vm-ok tag w t2 e3).0,
        ap (seen is_effect) (
              verify-ok whole w t5 h5
              ∙ ap (λ x. vm_verified whole ∷ x) (save-ok whole w t4 e5)
              ∙ ap (λ x. vm_verified whole ∷ vm_saved whole ∷ x) ((execute-ok whole w t3 e4).1))
            ∙ ap (λ x. vm_verified whole ∷ vm_saved whole ∷ vm_executed whole ∷ x)
                (seen-eq_of_silent _ w t2 (new_vm-IsSilent _) e3
                  ∙ seen-eq_of_silent _ w t1 (factory-IsSilent "Balancer") e2
                  ∙ seen-eq_of_silent _ w s (require-IsSilent _ _) e1
                  ∙ q),
      )

branches :
    (prev : Option TContract) (overwrite : Bool) (m : Task (Unit {0})) (w : World) (t : Trace)
    {t' : Trace}
    → (if is_some prev && not overwrite then pure tt else m) w t ≡ (ok tt, t')
    → (((is_some prev && not overwrite) ≡ true) × (t ≡ t'))
      ⊎ (((is_some prev && not overwrite) ≡ false) × (m w t ≡ (ok tt, t')))
branches none overwrite m w t h = inr (refl, h)
branches (some c) true m w t h = inr (refl, h)
branches (some c) false m w t h = inl (refl, (pure-ok tt w t h).1)

-- A deployment of the Balancer that returns has done nothing, exactly where the Balancer was recorded and was not to be overwritten; elsewhere it has
-- executed, saved and verified one deployer, whose queue is a Balancer on the routers that the table has for the chain.
pub deploy_balancer-outcome :
    (overwrite : Bool) (w : World) (t : Trace) {t' : Trace}
    → deploy_balancer overwrite w t ≡ (ok tt, t')
    → (((has_balancer w t && not overwrite) ≡ true) × (seen is_effect t' ≡ seen is_effect t))
      ⊎ (((has_balancer w t && not overwrite) ≡ false) × Deploys w t t')
unfolding deploy_balancer
deploy_balancer-outcome overwrite w t h = on_ok _ _ w t h λ tag t1 e1 h1.
    on_ok _ _ w t1 h1 λ signer t2 e2 h2. on_ok _ _ w t2 h2 λ chain_id t3 e3 h3.
      on_ok _ _ w t3 h3 λ prev t4 e4 h4.
        let quiet : seen is_effect t4 ≡ seen is_effect t =
          seen-eq_of_silent _ w t3 (ask-IsSilent _) e4
          ∙ seen-eq_of_silent _ w t2 (ask-IsSilent _) e3
          ∙ seen-eq_of_silent _ w t1 (ask-IsSilent _) e2
          ∙ seen-eq_of_silent _ w t (ask_for_tag-IsSilent refl) e1 in
        let tagged = ask_for_tag-ok w t e1 in
        let chain = ask-ok (λ v _. v.network_chain_id) w t2 e3 in
        let prev_is = ask-ok (λ v x. v.get_local x chain_id "Balancer" tag) w t3 e4 in
        let q3 : prompted "tag" ∷ t ≡ t3 =
          tagged.1 ∙ (ask-ok (λ v _. v.signer) w t1 e2).1 ∙ chain.1 in
        let there : has_balancer w t ≡ is_some prev =
          at_start (λ x g. is_some (w.get_local x w.network_chain_id "Balancer" g)) q3 tagged.0
            (ap (λ c. is_some (w.get_local t3 c "Balancer" tag)) chain.0 ∙ ap is_some prev_is.0) in
        elim (branches prev overwrite _ w t4 h4) [
          | inl (kept, same) ↦
              inl
                (ap (λ b. b && not overwrite) there ∙ kept, ap (seen is_effect) (sym same) ∙ quiet)
          | inr (due, new) ↦ inr (
            ap (λ b. b && not overwrite) there ∙ due,
            new-ok tag w t t4 quiet (
                rw
                  (
                    sym (ask-ok (λ v _. v.signer) w t1 e2).0,
                    sym (ask-ok (λ v _. v.network_chain_id) w t2 e3).0,
                  )
                  at new),
          )
        ]
