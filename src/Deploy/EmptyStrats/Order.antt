-- ===== src/Deploy/EmptyStrats/Order.antt =====
-- What 02-deployEmptyStrats.ts hands to the deployer.
use Prim.Native.String.{◌++◌ as ◌+++◌}
use tapioca.Base.{
  ℕ, String, is_empty, ◌≡◌, refl, sym, ap, ◌∙◌, none, some, true, not, List, [], ◌∷◌, ◌++◌, map,
  All, arith, inl, inr, Option-cases,
}
use tapioca.Hre.Types.{
  str, TContract, Build, Vm, no_meta, Trace, vm_verified, vm_saved, vm_executed,
}
use tapioca.Hre.World.{World}
use tapioca.Hre.Task.{Result, ok, err, add, new_vm, execute, save, verify, emit_if, ◌>>=◌, ◌>>◌}
use tapioca.Hre.Returns.{guard-ok, confirm-ok, on_ok, pure-ok}
use tapioca.Hre.Seen.{
  IsSilent, seen, seen-eq_of_silent, is_effect, silent_rules, get_chain-IsSilent,
  ask_for_tag-IsSilent, require-IsSilent, confirm-IsSilent,
}
use tapioca.Utils.{load_vm}
use tapioca.Deploy.Silent.{load_vm-IsSilent, global_or_local-IsSilent}
use tapioca.Builds.{build_empty_strat}
use tapioca.Deploy.EmptyStrats.{
  StratType, toft, usdo, tap, token, token_address, specific, Selection, strat_type, selection,
  strat_tokens, add_strats, deploy_empty_strats,
}

-- The build of one token's strategy.
abbrev pub strat_build : String → TContract → Build
strat_build yield_box entry = record {
  factory = "ERC20WithoutStrategy";
  deployment_name = "ERC20WithoutStrategy-" +++ entry.name;
  args = str yield_box ∷ str entry.address ∷ [];
  depends_on = [];
  meta = record no_meta { strat_for = some entry.name };
  run_static_simulation = none;
}

build_empty_strat-ok :
    (yield_box : String) (entry : TContract) (w : World) (t : Trace) {b : Build} {t' : Trace}
    → build_empty_strat yield_box entry w t ≡ (ok b, t')
    → (b ≡ strat_build yield_box entry) × (not (is_empty entry.address) ≡ true) × (t' ≡ t)
unfolding build_empty_strat
build_empty_strat-ok yield_box entry w t h = on_ok _ _ w t h λ _ t1 e1 h1.
    on_ok _ _ w t1 h1 λ _ t2 e2 h2.
      let (token_set, same1) = guard-ok _ _ w t e1 in
      let (_, same2) = guard-ok _ _ w t1 e2 in
      let p = pure-ok _ w t2 h2 in (sym p.0, token_set, sym p.1 ∙ same2 ∙ same1)

++-nil : (l : List Build) → l ++ [] ≡ l
++-nil [] = refl
++-nil (b ∷ l) = ap (λ r. b ∷ r) (++-nil l)

++-snoc : (l : List Build) (b : Build) (r : List Build) → (l ++ b ∷ []) ++ r ≡ l ++ b ∷ r
++-snoc [] b r = refl
++-snoc (x ∷ l) b r = ap (λ q. x ∷ q) (++-snoc l b r)

add_strats-ok :
    (yield_box : String) (cs : List TContract) (vm : Vm) (w : World) (t : Trace) {vm' : Vm}
    {t' : Trace}
    → add_strats yield_box cs vm w t ≡ (ok vm', t')
    → (vm'.queue ≡ vm.queue ++ map (strat_build yield_box) cs)
      × All (λ (c : TContract). not (is_empty c.address) ≡ true) cs
      × (t' ≡ t)
unfolding add_strats
add_strats-ok yield_box [] vm w t h =
    let p = pure-ok vm w t h in (ap (λ v. v.queue) (sym p.0) ∙ sym (++-nil vm.queue), tt, sym p.1)
add_strats-ok yield_box (c ∷ cs) vm w t h = on_ok _ _ w t h λ b s e k.
    let (built, set, same) = build_empty_strat-ok yield_box c w t e in
    let (queue, sets, same') = add_strats-ok yield_box cs (add vm b) w s k in
    (
      queue ∙ ++-snoc vm.queue b _ ∙ ap (λ x. vm.queue ++ x ∷ map (strat_build yield_box) cs) built,
      (set, sets),
      same' ∙ same,
    )

-- The deployer's events, in the order of the task, the newest first.
abbrev pub strat_events : Vm → Trace → Trace
strat_events vm t = vm_verified vm ∷ vm_saved vm ∷ vm_executed vm ∷ t

abbrev queue_of : Result Vm → List Build
queue_of (ok vm) = vm.queue
queue_of (err e) = []

load_vm-queue :
    (tag : String) (w : World) (t : Trace) {vm : Vm} {t' : Trace}
    → load_vm tag w t ≡ (ok vm, t')
    → vm.queue ≡ []
unfolding load_vm new_vm ◌>>=◌
load_vm-queue tag w t h = ap (λ (p : Result Vm × Trace). queue_of p.0) (sym h)

strat_tokens-IsSilent : (tag : String) (s : Selection) → IsSilent is_effect (strat_tokens tag s)
unfolding strat_tokens
strat_tokens-IsSilent tag s = elim (Option-cases s.individual) [
  | inl e ↦ rw e (search silent_rules)
  | inr (a, e) ↦ rw e (search silent_rules)
]

selection-IsSilent : (k : StratType) → IsSilent is_effect (selection k)
unfolding selection
selection-IsSilent toft = search silent_rules
selection-IsSilent usdo = search silent_rules
selection-IsSilent tap = search silent_rules
selection-IsSilent token = search silent_rules
selection-IsSilent token_address = search silent_rules
selection-IsSilent specific = search silent_rules

deployer-ok :
    (vm : Vm) (w : World) (t : Trace) {t' : Trace}
    → (execute vm >> (save vm >> verify vm)) w t ≡ (ok tt, t')
    → t' ≡ strat_events vm t
unfolding execute save verify emit_if ◌>>=◌
deployer-ok vm w t h = ground arith

-- The tokens that the task's type selects.
abbrev pub AreSelected : World → ℕ → List TContract → Type 0
AreSelected w type tokens =
    (tag : String) × (sel : Selection) × (s : Trace) × (s1 : Trace) × (s2 : Trace) × (s3 : Trace)
    × (selection (strat_type type) w s ≡ (ok sel, s1))
    × (strat_tokens tag sel w s2 ≡ (ok tokens, s3))

-- A run that returns was confirmed, and the deployer has executed, saved and verified a queue of
-- one strategy for each token that the type selects, in order, each token having an address.
pub deploy_empty_strats-order :
    (type : ℕ) (w : World) (t : Trace) {t' : Trace}
    → deploy_empty_strats type w t ≡ (ok tt, t')
    → (s : Trace) × (yield_box : String) × (tokens : List TContract) × (vm : Vm) × AreSelected w
        type tokens
      × (w.confirm s "isOk" ≡ true)
      × (vm.queue ≡ map (strat_build yield_box) tokens)
      × All (λ (c : TContract). not (is_empty c.address) ≡ true) tokens
      × (seen is_effect t' ≡ strat_events vm (seen is_effect t))
unfolding deploy_empty_strats
deploy_empty_strats-order type w t h = on_ok _ _ w t h λ chain_info t1 e1 h1.
    on_ok _ _ w t1 h1 λ tag t2 e2 h2. on_ok _ _ w t2 h2 λ yb t3 e3 h3.
      on_ok _ _ w t3 h3 λ yield_box t4 e4 h4. on_ok _ _ w t4 h4 λ sel t5 e5 h5.
        on_ok _ _ w t5 h5 λ vm t6 e6 h6. on_ok _ _ w t6 h6 λ tokens t7 e7 h7.
          on_ok _ _ w t7 h7 λ is_ok t8 e8 h8. on_ok _ _ w t8 h8 λ _ t9 e9 h9.
            on_ok _ _ w t9 h9 λ vm' t10 e10 h10.
              let (queue, sets, same) = add_strats-ok yield_box.address tokens vm w t9 e10 in
              let confirmed = guard-ok is_ok _ w t8 e9 in
              let quiet =
                ap (seen is_effect) (same ∙ confirmed.1)
                ∙ seen-eq_of_silent _ w t7 (confirm-IsSilent _ refl) e8
                ∙ seen-eq_of_silent _ w t6 (strat_tokens-IsSilent _ _) e7
                ∙ seen-eq_of_silent _ w t5 (load_vm-IsSilent _) e6
                ∙ seen-eq_of_silent _ w t4 (selection-IsSilent _) e5
                ∙ seen-eq_of_silent _ w t3 (require-IsSilent _ _) e4
                ∙ seen-eq_of_silent _ w t2 (global_or_local-IsSilent _ _ _ _) e3
                ∙ seen-eq_of_silent _ w t1 (ask_for_tag-IsSilent refl) e2
                ∙ seen-eq_of_silent _ w t get_chain-IsSilent e1 in
              (
                t7,
                yield_box.address,
                tokens,
                vm',
                (tag, sel, t4, t5, t6, t7, e5, e7),
                confirm-ok _ w t7 e8 ∙ confirmed.0,
                queue
                    ∙ ap (λ q. q ++ map (strat_build yield_box.address) tokens)
                        (load_vm-queue tag w t5 e6),
                sets,
                ap (seen is_effect) (deployer-ok vm' w t10 h10) ∙ ap (strat_events vm') quiet,
              )
