-- ===== src/TapiocaZ/DeployToft/Dropped.antt =====
-- No TOFT is handed to a deployer that is executed.
use mathlib.Core.Path.{subst}
use tapioca.Base.{
  String, ◌==◌, Bool, true, false, ◌||◌, ◌≡◌, refl, sym, ap, ◌∙◌, ◌++◌, Option, none, some, List,
  [], ◌∷◌, All,
}
use tapioca.Hre.Types.{Val, ChainInfo, Build, Vm, Event, vm_executed, Trace}
use tapioca.Hre.World.{World}
use tapioca.Hre.Task.{ok}
use tapioca.Hre.Returns.{on_ok, pure-ok, new_vm-ok}
use tapioca.Hre.Events.{
  Adds, keeps_rules, >>=-Keeps_of, >>=-Keeps, ask-Keeps, new_vm-Keeps, execute-Adds, save-Adds,
  verify-Adds, pure-Keeps, require-Keeps, if-Keeps,
}
use tapioca.TapiocaZ.Builds.{
  build, build_toft, build_mtoft, build_toft_sender_module, build_toft_receiver_module,
  build_toft_market_receiver_module, build_toft_options_receiver_module,
  build_toft_generic_receiver_module,
}
use tapioca.TapiocaZ.Config.{use_network}
use tapioca.TapiocaZ.DeployToft.{
  InitStruct, ToftInputs, token_names, build_init_struct, module_address, add_modules,
  module_struct, create_toft_modules, deploy_one, deploy_token, deploy_tokens, deploy_connected,
  toft_inputs, deploy_toft,
}

-- Is it a TOFT or an mTOFT that the build deploys?
abbrev pub is_toft : Build → Bool
is_toft b = b.factory == "TOFT" || b.factory == "mTOFT"

-- An executed deployer has no TOFT in its queue.
abbrev pub HasNoToft : Event → Type 0
HasNoToft (vm_executed vm) = All (λ b. is_toft b ≡ false) vm.queue
HasNoToft _ = Unit

use_network-Adds : (P : Event → Type 0) (info : Option ChainInfo) → Adds P (use_network info)
unfolding use_network
use_network-Adds P info = search keeps_rules

token_names-Adds :
    (P : Event → Type 0) (m : Bool) (token : String) (host : Option String)
    → Adds P (token_names m token host)
unfolding token_names
token_names-Adds P true token host = search keeps_rules
token_names-Adds P false token none = search keeps_rules
token_names-Adds P false token (some h) = search (keeps_rules, use_network-Adds) depth 12

build_init_struct-Adds :
    (P : Event → Type 0) (s : ToftInputs) (m : Bool) (token : String) (host : Option String)
    → Adds P (build_init_struct s m token host)
unfolding build_init_struct
build_init_struct-Adds P s m token host = search (keeps_rules, token_names-Adds)

module_address-Adds :
    (P : Event → Type 0) (tag chain_id name : String) → Adds P (module_address tag chain_id name)
unfolding module_address
module_address-Adds P tag chain_id name = search keeps_rules

build-Adds :
    (P : Event → Type 0) (factory name : String) (args : List Val)
    → Adds P (build factory name args)
unfolding build
build-Adds P factory name args = search keeps_rules

build-ok :
    (factory name : String) (args : List Val) (w : World) (t : Trace) {b : Build} {s : Trace}
    → build factory name args w t ≡ (ok b, s)
    → b.factory ≡ factory
unfolding build
build-ok factory name args w t h =
    on_ok _ _ w t h λ _ t1 e1 h1. ap (λ b. b.factory) (sym (pure-ok _ w t1 h1).0)

not_toft :
    (b : Build) {factory : String}
    → b.factory ≡ factory
    → (factory == "TOFT" || factory == "mTOFT") ≡ false
    → is_toft b ≡ false
not_toft b e h = ap (λ f. f == "TOFT" || f == "mTOFT") e ∙ h

-- The queue of the modules has no TOFT.
add_modules-ok :
    (vm : Vm) (s : InitStruct) (r : String) (w : World) (t : Trace) {vm' : Vm} {t' : Trace}
    → vm.queue ≡ []
    → add_modules vm s r w t ≡ (ok vm', t')
    → All (λ b. is_toft b ≡ false) vm'.queue
unfolding add_modules build_toft_sender_module build_toft_receiver_module
    build_toft_market_receiver_module build_toft_options_receiver_module
    build_toft_generic_receiver_module
add_modules-ok vm s r w t {vm' = vm'} q h = on_ok _ _ w t h λ a t1 e1 h1.
    on_ok _ _ w t1 h1 λ b t2 e2 h2. on_ok _ _ w t2 h2 λ c t3 e3 h3. on_ok _ _ w t3 h3 λ d t4 e4 h4.
      on_ok _ _ w t4 h4 λ e t5 e5 h5.
        let queue : vm'.queue ≡ a ∷ b ∷ c ∷ d ∷ e ∷ [] =
          ap (λ v. v.queue) (sym (pure-ok _ w t5 h5).0)
          ∙ ap (λ l. ((((l ++ a ∷ []) ++ b ∷ []) ++ c ∷ []) ++ d ∷ []) ++ e ∷ []) q in
        subst (All (λ x. is_toft x ≡ false)) (sym queue) (
          not_toft a (build-ok _ _ _ w t e1) refl,
          (
            not_toft b (build-ok _ _ _ w t1 e2) refl,
            (
              not_toft c (build-ok _ _ _ w t2 e3) refl,
              (
                not_toft d (build-ok _ _ _ w t3 e4) refl,
                (not_toft e (build-ok _ _ _ w t4 e5) refl, tt),
              ),
            ),
          ),
        )

add_modules-Adds :
    (P : Event → Type 0) (vm : Vm) (s : InitStruct) (r : String) → Adds P (add_modules vm s r)
unfolding add_modules build_toft_sender_module build_toft_receiver_module
    build_toft_market_receiver_module build_toft_options_receiver_module
    build_toft_generic_receiver_module
add_modules-Adds P vm s r = search (keeps_rules, build-Adds) depth 12

module_struct-Adds :
    (P : Event → Type 0) (tag chain_id : String) (s : InitStruct) (r : String)
    → Adds P (module_struct tag chain_id s r)
unfolding module_struct
module_struct-Adds P tag chain_id s r = search (keeps_rules, module_address-Adds) depth 12

create_toft_modules-Adds :
    (tag chain_id : String) (s : InitStruct) → Adds HasNoToft (create_toft_modules tag chain_id s)
unfolding create_toft_modules
create_toft_modules-Adds tag chain_id s = >>=-Keeps_of _ _ (new_vm-Keeps tag) λ w t t' vm e.
    >>=-Keeps _ _ (ask-Keeps _) λ r.
      >>=-Keeps_of _ _ (add_modules-Adds _ vm s r) λ w1 t1 t1' vm' e'.
        >>=-Keeps _ _ (execute-Adds vm' (add_modules-ok vm s r w1 t1 (new_vm-ok tag w t e).0 e'))
          λ _.
            >>=-Keeps _ _ (save-Adds vm' tt)
              λ _. >>=-Keeps _ _ (verify-Adds vm' tt) λ _. module_struct-Adds _ tag chain_id s r

deploy_one-Adds :
    (tag : String) (s : InitStruct) (chain_id : String) (m : Bool)
    → Adds HasNoToft (deploy_one tag s chain_id m)
unfolding deploy_one build_toft build_mtoft
deploy_one-Adds tag s chain_id m =
    search (keeps_rules, create_toft_modules-Adds, build-Adds) depth 9

deploy_tokens-Adds :
    (s : ToftInputs) (host : Option String) (tokens : List String)
    → Adds HasNoToft (deploy_tokens s host tokens)
unfolding deploy_tokens deploy_token
deploy_tokens-Adds s host [] = pure-Keeps tt
deploy_tokens-Adds s host (token ∷ tokens) =
    >>=-Keeps _ _ (search (keeps_rules, build_init_struct-Adds, deploy_one-Adds) depth 8)
      λ _. deploy_tokens-Adds s host tokens

deploy_connected-Adds :
    (s : ToftInputs) (chains : List (String × List String))
    → Adds HasNoToft (deploy_connected s chains)
unfolding deploy_connected
deploy_connected-Adds s [] = pure-Keeps tt
deploy_connected-Adds s ((chain, tokens) ∷ rest) =
    >>=-Keeps _ _ (deploy_tokens-Adds s (some chain) tokens) λ _. deploy_connected-Adds s rest

toft_inputs-Adds : (tag : String) → Adds HasNoToft (toft_inputs tag)
unfolding toft_inputs
toft_inputs-Adds tag = search keeps_rules depth 12

-- However a TOFT deployment ends, on the host or on the connected chains, no deployer that it has executed
-- had a TOFT or an mTOFT in its queue, if none before it had.
pub deploy_toft-NoToft :
    (tag : Option String) (on_host : Bool) (w : World) (t : Trace)
    → All HasNoToft t
    → All HasNoToft (deploy_toft tag on_host w t).1
unfolding deploy_toft
deploy_toft-NoToft tag on_host w t h =
    let quiet : Adds HasNoToft (deploy_toft tag on_host) =
      >>=-Keeps_of _ _ (new_vm-Keeps _) λ w0 t0 t0' vm e. >>=-Keeps _ _ (toft_inputs-Adds _) λ s.
        >>=-Keeps _ _ (ask-Keeps _) λ found. >>=-Keeps _ _ (require-Keeps _ found) λ tofts.
          >>=-Keeps _ _
            (if-Keeps on_host _ _ (deploy_tokens-Adds s none tofts.host_tokens)
              (deploy_connected-Adds s tofts.connected_chains))
            λ _.
              >>=-Keeps _ _
                (execute-Adds vm
                  (subst (All (λ b. is_toft b ≡ false)) (sym (new_vm-ok _ w0 t0 e).0) tt))
                λ _. >>=-Keeps _ _ (save-Adds vm tt) λ _. verify-Adds vm tt in
    quiet.at w t h
