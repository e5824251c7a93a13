-- ===== src/TapiocaZ/DeployToft/Connected.antt =====
-- What a deployment on the connected chains comes to.
use tapioca.Base.{
  String, ◌==◌, Bool-cases, inl, inr, false, ◌≡◌, refl, sym, ap, ◌∙◌, Option, none, some, List, [],
  ◌∷◌,
}
use tapioca.Hre.Types.{Vm, vm_executed, vm_saved, vm_verified, Trace}
use tapioca.Hre.World.{World}
use tapioca.Hre.Task.{ok}
use tapioca.Hre.Seen.{
  seen, is_effect, seen-eq_of_silent, ask-IsSilent, new_vm-IsSilent, require-IsSilent,
}
use tapioca.Hre.Returns.{
  on_ok, ask-ok, require-ok, pure-ok, execute-ok, save-ok, verify-ok, new_vm-ok,
}
use tapioca.TapiocaZ.Config.{ChainTofts, chain_tofts}
use tapioca.TapiocaZ.DeployToft.{ToftInputs, deploy_connected, deploy_toft}
use tapioca.TapiocaZ.DeployToft.Missing.{toft_inputs-IsSilent}

abbrev connected_of : Option ChainTofts → List (String × List String)
connected_of none = []
connected_of (some tofts) = tofts.connected_chains

no_connected_chains : (w : World) (chain : String) → connected_of (chain_tofts w chain) ≡ []
no_connected_chains w chain = elim (Bool-cases (chain == w.arbitrum_sepolia)) [
  | inl q ↦ rw q refl
  | inr q ↦ rw q refl
]

connected-ok :
    (s : ToftInputs) (chains : List (String × List String)) (w : World) (t : Trace) {u : Unit {0}}
    {t' : Trace}
    → chains ≡ []
    → deploy_connected s chains w t ≡ (ok u, t')
    → t' ≡ t
unfolding deploy_connected
connected-ok s chains w t e h = sym (pure-ok tt w t (rw e at h)).1

-- A deployment on the connected chains that returns has executed, saved and verified one deployer with an empty queue, and has done nothing else.
pub deploy_toft_connected-nothing :
    (tag : Option String) (w : World) (t : Trace) {t' : Trace}
    → deploy_toft tag false w t ≡ (ok tt, t')
    → (vm : Vm) × (vm.queue ≡ [])
      × (seen is_effect t' ≡ vm_verified vm ∷ vm_saved vm ∷ vm_executed vm ∷ seen is_effect t)
unfolding deploy_toft
deploy_toft_connected-nothing tag w t h = on_ok _ _ w t h λ vm t1 e1 h1.
    on_ok _ _ w t1 h1 λ s t2 e2 h2. on_ok _ _ w t2 h2 λ found t3 e3 h3.
      on_ok _ _ w t3 h3 λ tofts t4 e4 h4. on_ok _ _ w t4 h4 λ _ t5 e5 h5.
        on_ok _ _ w t5 h5 λ _ t6 e6 h6. on_ok _ _ w t6 h6 λ _ t7 e7 h7.
          let none_left : tofts.connected_chains ≡ [] =
            ap connected_of (
              sym (
                (ask-ok (λ v _. chain_tofts v s.chain_info.chain_id) w t2 e3).0
                ∙ (require-ok _ found w t3 e4).0))
            ∙ no_connected_chains w s.chain_info.chain_id in
          (
            vm,
            (new_vm-ok _ w t e1).0,
            ap (seen is_effect) (
                  verify-ok vm w t7 h7
                  ∙ ap (λ x. vm_verified vm ∷ x) (save-ok vm w t6 e7)
                  ∙ ap (λ x. vm_verified vm ∷ vm_saved vm ∷ x) ((execute-ok vm w t5 e6).1)
                  ∙ ap (λ x. vm_verified vm ∷ vm_saved vm ∷ vm_executed vm ∷ x)
                      (connected-ok s tofts.connected_chains w t4 none_left e5))
                ∙ ap (λ x. vm_verified vm ∷ vm_saved vm ∷ vm_executed vm ∷ x)
                    (seen-eq_of_silent _ w t3 (require-IsSilent _ _) e4
                      ∙ seen-eq_of_silent _ w t2 (ask-IsSilent _) e3
                      ∙ seen-eq_of_silent _ w t1 (toft_inputs-IsSilent _) e2
                      ∙ seen-eq_of_silent _ w t (new_vm-IsSilent _) e1),
          )
