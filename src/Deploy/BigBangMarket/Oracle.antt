-- ===== src/Deploy/BigBangMarket/Oracle.antt =====
-- Which oracle deployBigBangMarket.ts ends up with when it queues a mock.
use Prim.Native.String.{◌++◌}
use mathlib.Core.Path.{subst}
use tapioca.Base.{
  String, ◌≡◌, refl, sym, ap, ◌∙◌, Bool, true, false, Option, none, some, ◌∷◌, or_else,
  if◌then◌else◌,
}
use tapioca.Hre.Types.{TContract, Event, prompted, vm_executed, Vm, Trace}
use tapioca.Hre.World.{World}
use tapioca.Hre.Task.{Task, ok}
use tapioca.Hre.Returns.{on_ok, pure-ok, ask-ok, execute-ok}
use tapioca.Hre.Seen.{
  IsSilent, seen, is_act, is_effect, seen-eq_of_silent, save-IsSilent, try_verify-IsSilent,
}
use tapioca.Deploy.Silent.{lookup_rules, load_vm-IsSilent, find_oracle-IsSilent, name_or-IsSilent}
use tapioca.Utils.{find_named, find_prefixed}
use tapioca.Deploy.BigBangOracles.{
  BigBangArgs, BigBangBasis, Oracles, queue_oracle, queue_asset_oracle, save_oracles, bb_oracles,
}

-- The name that the asset's oracle is looked up by.
abbrev pub asset_filter : BigBangArgs → String
asset_filter args = elim args.asset_oracle_name [ none ↦ "AssetOracleMock" | some n ↦ n ]

-- The asset's oracle of that name, in the local list or else in that of tapioca-periphery.
abbrev pub asset_oracle_of : BigBangArgs → BigBangBasis → World → Trace → Option TContract
asset_oracle_of args b w t =
    or_else (find_named (asset_filter args) (w.load_local t b.tag b.chain_info.chain_id)) (
      find_named (asset_filter args)
        (w.load_global t b.tag "tapioca-periphery" b.chain_info.chain_id))

-- The local entry of the mock of the token's oracle.
abbrev pub mock_of : BigBangBasis → World → Trace → Option TContract
mock_of b w t =
    find_prefixed ("OracleMock-" ++ b.token.name) (w.load_local t b.tag b.chain_info.chain_id)

queued-should_save :
    (b : BigBangBasis) (os : Oracles) (o : Option TContract) (w : World) (t : Trace) {os' : Oracles}
    {t' : Trace}
    → o ≡ none
    → queue_asset_oracle b os o w t ≡ (ok os', t')
    → os'.should_save ≡ true
unfolding queue_asset_oracle
queued-should_save b os (some o) w t e h = cc
queued-should_save b os none w t e h = on_ok _ _ w t h λ _ t1 e1 h1.
    on_ok _ _ w t1 h1
      λ rate t2 e2 h2. sym (ap (λ (x : Oracles). x.should_save) (pure-ok _ w t2 h2).0)

save_oracles-mock :
    (b : BigBangBasis) (os : Oracles) (w : World) (t : Trace) {os' : Oracles} {t' : Trace}
    → save_oracles b os w t ≡ (ok os', t')
    → (s : Trace) × (seen is_act s ≡ vm_executed os.vm ∷ seen is_act t)
      × (os'.oracle ≡ mock_of b w s)
unfolding save_oracles
save_oracles-mock b os w t h = on_ok _ _ w t h λ _ t1 e1 h1. on_ok _ _ w t1 h1 λ _ t2 e2 h2.
    on_ok _ _ w t2 h2 λ _ t3 e3 h3. on_ok _ _ w t3 h3 λ oracle t4 e4 h4.
      on_ok _ _ w t4 h4 λ asset_oracle t5 e5 h5. (
        t3,
        seen-eq_of_silent _ w t2 (try_verify-IsSilent os.vm refl) e3
            ∙ seen-eq_of_silent _ w t1 (save-IsSilent os.vm refl) e2
            ∙ ap (seen is_act) (execute-ok os.vm w t e1).1,
        sym (ap (λ (x : Oracles). x.oracle) (pure-ok _ w t5 h5).0)
            ∙ sym (ask-ok (λ w t. mock_of b w t) w t3 e4).0,
      )

saved :
    (b : BigBangBasis) (os : Oracles) (k : Task Oracles) (w : World) (t : Trace) {os' : Oracles}
    {t' : Trace}
    → os.should_save ≡ true
    → (if os.should_save then save_oracles b os else k) w t ≡ (ok os', t')
    → save_oracles b os w t ≡ (ok os', t')
saved b os k w t {os'} {t'} e h =
    subst (λ c. (if c then save_oracles b os else k) w t ≡ (ok os', t')) e h

-- Only the terminal is used until the deployer runs.
module _ {f : Event → Bool} (q : (n : String) → f (prompted n) ≡ false) where
  queue_oracle-IsQuiet :
      (b : BigBangBasis) (vm : Vm) (o : Option TContract) → IsSilent f (queue_oracle b vm o)
  unfolding queue_oracle
  queue_oracle-IsQuiet b vm none = search (lookup_rules, q) depth 10
  queue_oracle-IsQuiet b vm (some o) = search lookup_rules

  queue_asset_oracle-IsQuiet :
      (b : BigBangBasis) (os : Oracles) (o : Option TContract)
      → IsSilent f (queue_asset_oracle b os o)
  unfolding queue_asset_oracle
  queue_asset_oracle-IsQuiet b os none = search lookup_rules depth 10
  queue_asset_oracle-IsQuiet b os (some o) = search lookup_rules

-- Where the lists have no asset oracle as long as nothing has been done outside the terminal, a run that returns has made its deployer execute its queue, and the oracle of the market is the
-- local entry whose name starts with the mock's, as the list stands after that, or none, whatever oracle the arguments name and whether or not it was found.
pub bb_oracles-named_lost :
    (args : BigBangArgs) (b : BigBangBasis) (w : World) (t : Trace) {os : Oracles} {t' : Trace}
    → ((s : Trace) → seen is_effect s ≡ seen is_effect t → asset_oracle_of args b w s ≡ none)
    → bb_oracles args b w t ≡ (ok os, t')
    → (s : Trace) × (vm : Vm) × (seen is_act s ≡ vm_executed vm ∷ seen is_act t)
      × (os.oracle ≡ mock_of b w s)
unfolding bb_oracles
bb_oracles-named_lost args b w t missing h = on_ok _ _ w t h λ name t1 e1 h1.
    on_ok _ _ w t1 h1 λ found t2 e2 h2. on_ok _ _ w t2 h2 λ vm t3 e3 h3.
      on_ok _ _ w t3 h3 λ first_os t4 e4 h4. on_ok _ _ w t4 h4 λ asset_oracle t5 e5 h5.
        on_ok _ _ w t5 h5 λ os t6 e6 h6.
          let quiet : (f : Event → Bool) (q : (n : String) → f (prompted n) ≡ false)
              → seen f t4 ≡ seen f t =
            λ f q.
              seen-eq_of_silent _ w t3 (queue_oracle-IsQuiet q b vm found) e4
              ∙ seen-eq_of_silent _ w t2 (load_vm-IsSilent b.tag) e3
              ∙ seen-eq_of_silent _ w t1 (find_oracle-IsSilent _ _ _) e2
              ∙ seen-eq_of_silent _ w t (name_or-IsSilent _ _ _) e1 in
          let not_found =
            sym (ask-ok (λ w t. asset_oracle_of args b w t) w t4 e5).0
            ∙ missing t4 (quiet is_effect (λ n. refl)) in
          let (s, ran, mock) =
            save_oracles-mock b os w t6 (
              saved b os _ w t6 (queued-should_save b first_os asset_oracle w t5 not_found e6)
                h6) in
          (
            s,
            os.vm,
            ran
                ∙ ap (λ x. vm_executed os.vm ∷ x)
                    (seen-eq_of_silent _ w t5
                        (queue_asset_oracle-IsQuiet {f = is_act} (λ n. refl) b first_os
                          asset_oracle)
                        e6
                      ∙ ap (seen is_act)
                          (sym (ask-ok (λ w t. asset_oracle_of args b w t) w t4 e5).1)
                      ∙ quiet is_act (λ n. refl)),
            mock,
          )
