-- ===== src/Deploy/Stack/Run.antt =====
-- The end of a stack's deployment: the queue, the setup, and the multicall with its fallback.
use tapioca.Base.{String, ◌≡◌, refl, sym, ◌∙◌, ap, Bool, true, List, [], ◌∷◌, arith, if◌then◌else◌}
use tapioca.Hre.Types.{TContract, vm_executed, Trace, Vm}
use tapioca.Hre.World.{World}
use tapioca.Hre.Task.{Task, ok, try_verify, confirm, save, list, pure, ◌>>=◌}
use tapioca.Hre.Seen.{
  IsSilent, seen, seen-eq_of_silent, is_act, silent_rules, ask_or-IsSilent, list-IsSilent,
  confirm-IsSilent, save-IsSilent,
}
use tapioca.Hre.Returns.{on_ok, pure-ok, execute-ok}
use tapioca.Setups.{build_usdo_flashloan_setup, MultiCall}
use tapioca.Deploy.Stack.{run_calls, run_stack}
use tapioca.Deploy.Stack.Full.{full_setup}
use tapioca.Deploy.Stack.Setup.{
  penrose_events, master_events, flashloan_events, full_setup-ok, flashloan_setup-ok,
}

empty_calls :
    (multicall : String) (calls : List MultiCall) (w : World) (t : Trace) {t' : Trace}
    → calls ≡ []
    → run_calls multicall calls w t ≡ (ok tt, t')
    → t' ≡ t
unfolding run_calls
empty_calls multicall [] w t e h = sym (pure-ok tt w t h).1
empty_calls multicall (c ∷ cs) w t e h = cc

list-ok :
    (vm : Vm) (w : World) (t : Trace) {deps : List TContract} {t' : Trace}
    → list vm w t ≡ (ok deps, t')
    → deps ≡ w.vm_list t vm
unfolding list ◌>>=◌
list-ok vm w t h = ground arith

maybe_verify-IsSilent :
    (b : Bool) (vm : Vm) → IsSilent is_act (if b then try_verify vm else pure tt)
maybe_verify-IsSilent b vm = search silent_rules

-- The run of a deployer with a setup that sends `events` and leaves no call.
run_stack-ok :
    (setup : List TContract → Task (List MultiCall)) (events : List TContract → Trace → Trace)
    (vm : Vm) (w : World) (t : Trace) {t' : Trace}
    → ((deps : List TContract) (s : Trace) (calls : List MultiCall) (s' : Trace)
        → setup deps w s ≡ (ok calls, s')
        → (calls ≡ []) × (s' ≡ events deps s))
    → ((deps : List TContract) (s : Trace)
        → seen is_act (events deps s) ≡ events deps (seen is_act s))
    → run_stack vm setup w t ≡ (ok tt, t')
    → (deps : List TContract) × (s : Trace) × (deps ≡ w.vm_list s vm)
      × (seen is_act s ≡ vm_executed vm ∷ seen is_act t)
      × (w.executes t vm ≡ true)
      × (seen is_act t' ≡ events deps (vm_executed vm ∷ seen is_act t))
unfolding run_stack
run_stack-ok setup events vm w t of_setup seen_events h = on_ok _ _ w t h λ _ t1 e1 h1.
    on_ok _ _ w t1 h1 λ _ t2 e2 h2. on_ok _ _ w t2 h2 λ b t3 e3 h3. on_ok _ _ w t3 h3 λ _ t4 e4 h4.
      on_ok _ _ w t4 h4 λ deps t5 e5 h5. on_ok _ _ w t5 h5 λ multicall t6 e6 h6.
        on_ok _ _ w t6 h6 λ calls t7 e7 h7.
          let executed = execute-ok vm w t e1 in
          let sends = of_setup deps t6 calls t7 e7 in
          let quiet =
            seen-eq_of_silent _ w t5 (ask_or-IsSilent _ _) e6
            ∙ seen-eq_of_silent (list vm) w t4 (list-IsSilent vm) e5
            ∙ seen-eq_of_silent _ w t3 (maybe_verify-IsSilent b vm) e4
            ∙ seen-eq_of_silent (confirm "wantToVerify") w t2 (confirm-IsSilent _ refl) e3
            ∙ seen-eq_of_silent (save vm) w t1 (save-IsSilent vm refl) e2
            ∙ ap (seen is_act) executed.1 in
          (
            deps,
            t4,
            list-ok vm w t4 e5,
            seen-eq_of_silent _ w t3 (maybe_verify-IsSilent b vm) e4
                ∙ seen-eq_of_silent (confirm "wantToVerify") w t2 (confirm-IsSilent _ refl) e3
                ∙ seen-eq_of_silent (save vm) w t1 (save-IsSilent vm refl) e2
                ∙ ap (seen is_act) executed.1,
            executed.0,
            ap (seen is_act) (empty_calls multicall calls w t7 sends.0 h7 ∙ sends.1)
                ∙ seen_events deps t6
                ∙ ap (events deps) quiet,
          )

-- The transactions of the full stack's setup, the newest first.
abbrev pub full_events : World → List TContract → Trace → Trace
full_events w deps t = flashloan_events w deps (master_events w deps (penrose_events w deps t))

-- A full stack whose run returns: the deployer has executed its queue, and the six transactions
-- of the setup, on the contracts that it lists, are all that follows on the chain.
pub run_stack-order :
    (vm : Vm) (w : World) (t : Trace) {t' : Trace}
    → run_stack vm full_setup w t ≡ (ok tt, t')
    → (deps : List TContract) × (s : Trace) × (deps ≡ w.vm_list s vm)
      × (seen is_act s ≡ vm_executed vm ∷ seen is_act t)
      × (w.executes t vm ≡ true)
      × (seen is_act t' ≡ full_events w deps (vm_executed vm ∷ seen is_act t))
run_stack-order vm w t h =
    run_stack-ok full_setup (full_events w) vm w t (λ deps s calls s' k. full_setup-ok deps w s k)
      (λ deps s. refl) h

-- The same of the stack of a linked chain, whose setup is the three transactions of the flash
-- loan helper.
pub run_linked_stack-order :
    (vm : Vm) (w : World) (t : Trace) {t' : Trace}
    → run_stack vm build_usdo_flashloan_setup w t ≡ (ok tt, t')
    → (deps : List TContract) × (s : Trace) × (deps ≡ w.vm_list s vm)
      × (seen is_act s ≡ vm_executed vm ∷ seen is_act t)
      × (w.executes t vm ≡ true)
      × (seen is_act t' ≡ flashloan_events w deps (vm_executed vm ∷ seen is_act t))
run_linked_stack-order vm w t h =
    run_stack-ok build_usdo_flashloan_setup (flashloan_events w) vm w t
      (λ deps s calls s' k. flashloan_setup-ok deps w s k) (λ deps s. refl) h
