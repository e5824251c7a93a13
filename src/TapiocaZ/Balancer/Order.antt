-- ===== src/TapiocaZ/Balancer/Order.antt =====
-- The call of each task on the Balancer.
use tapioca.Base.{
  String, ◌==◌, ◌≡◌, refl, sym, ap, ◌∙◌, Option, none, some, List, [], ◌∷◌, map, if◌then◌else◌,
}
use tapioca.Hre.Types.{Call, Val, str, bool, prompted, sent, Trace}
use tapioca.Hre.World.{World}
use tapioca.Hre.Task.{ok, throw, input, confirm, send, ◌>>=◌}
use tapioca.Hre.Answers.{at_start, ask_for_tag-ok, get_local_contract-ok, get_contract_at-ok}
use tapioca.Hre.Seen.{seen, is_tx}
use tapioca.Hre.Returns.{on_ok, send-ok}
use tapioca.Setups.{tx}
use tapioca.TapiocaZ.Balancer.{
  BalancerTask, toggle_swap, emergency_save, init_connected, add_rebalance, retry_revert,
  instant_redeem_local, redeem_local, redeem_remote, on_balancer, balancer_body, balancer_task,
  toggle_swap_eth, emergency_save_tokens, init_connected_oft, add_rebalance_amount,
  retry_revert_on_balancer, instant_redeem_local_on_balancer, redeem_local_on_balancer,
  redeem_remote_on_balancer,
}

-- The input prompts of a task, in their order.
abbrev pub prompts : BalancerTask → List String
prompts toggle_swap = []
prompts emergency_save = "token" ∷ "amount" ∷ []
prompts init_connected = "srcOft" ∷ "dstOft" ∷ "dstChainId" ∷ "ercData" ∷ []
prompts add_rebalance = "srcOft" ∷ "dstChainId" ∷ "amount" ∷ []
prompts retry_revert = "srcChainId" ∷ "srcAddress" ∷ "nonce" ∷ []
prompts _ = []

-- What the user gives for each prompt, who sees it after those before it.
abbrev pub given : World → List String → Trace → List (String × String)
given w [] s = []
given w (n ∷ ns) s = (n, w.input s n) ∷ given w ns (prompted n ∷ s)

abbrev pub answer_to : List (String × String) → String → String
answer_to [] n = ""
answer_to ((m, a) ∷ rest) n = if m == n then a else answer_to rest n

-- A parameter of a function of the Balancer.
pub data Parameter : Type 0 where
  named : String → Parameter
  status : Parameter

-- The function of Balancer.sol that a task calls, with its parameters in order, if there is one.
abbrev pub function_of : BalancerTask → Option (String × List Parameter)
function_of toggle_swap = some ("setSwapEth", status ∷ [])
function_of emergency_save = some ("emergencySaveTokens", named "token" ∷ named "amount" ∷ [])
function_of init_connected = some (
  "initConnectedOFT",
  named "srcOft" ∷ named "dstChainId" ∷ named "dstOft" ∷ named "ercData" ∷ [],
)
function_of add_rebalance =
    some ("addRebalanceAmount", named "srcOft" ∷ named "dstChainId" ∷ named "amount" ∷ [])
function_of retry_revert =
    some ("retryRevert", named "srcChainId" ∷ named "srcAddress" ∷ named "nonce" ∷ [])
function_of _ = none

-- A parameter is the answer to the prompt of its name.
abbrev pub argument : World → Trace → List (String × String) → Parameter → Val
argument w s answers (named n) = str (answer_to answers n)
argument w s answers status = bool (w.confirm s "status")

abbrev pub balancer_call : World → Trace → String → BalancerTask → String × List Parameter → Call
balancer_call w s balancer k (fn, ps) =
    tx balancer fn (map (argument w s (given w (prompts k) s)) ps)

sent-at :
    (c : Call) (w : World) (s : Trace) {t' : Trace}
    → send c w s ≡ (ok tt, t')
    → seen is_tx t' ≡ sent c ∷ seen is_tx s
sent-at c w s h = ap (seen is_tx) (send-ok c w s h).1

body-ok :
    (k : BalancerTask) (balancer : String) (w : World) (s : Trace) {t' : Trace}
    → balancer_body k balancer w s ≡ (ok tt, t')
    → (f : String × List Parameter) × (function_of k ≡ some f)
      × (seen is_tx t' ≡ sent (balancer_call w s balancer k f) ∷ seen is_tx s)
unfolding balancer_body toggle_swap_eth emergency_save_tokens init_connected_oft
    add_rebalance_amount retry_revert_on_balancer instant_redeem_local_on_balancer
    redeem_local_on_balancer redeem_remote_on_balancer input confirm throw ◌>>=◌
body-ok toggle_swap b w s h = (_, refl, sent-at _ w _ h)
body-ok emergency_save b w s h = (_, refl, sent-at _ w _ h)
body-ok init_connected b w s h = (_, refl, sent-at _ w _ h)
body-ok add_rebalance b w s h = (_, refl, sent-at _ w _ h)
body-ok retry_revert b w s h = (_, refl, sent-at _ w _ h)
body-ok instant_redeem_local b w s h = cc (ap (λ r. r.0) h)
body-ok redeem_local b w s h = cc (ap (λ r. r.0) h)
body-ok redeem_remote b w s h = cc (ap (λ r. r.0) h)

-- A task on the Balancer that returns is one of the five whose function the Balancer has, and has made one transaction: on the Balancer of the local list, that function, with each of
-- its parameters the answer to the prompt of its name.
pub balancer_task-order :
    (k : BalancerTask) (w : World) (t : Trace) {t' : Trace}
    → balancer_task k w t ≡ (ok tt, t')
    → (balancer : String) × (dep : String) × (f : String × List Parameter) × (w.local_contract
          (prompted "tag" ∷ t)
          "Balancer"
          (w.ask_for_tag t)
        ≡ some dep)
      × (w.contract_at "Balancer" (str dep) ≡ some balancer)
      × (function_of k ≡ some f)
      × (seen is_tx t' ≡ sent (balancer_call w (prompted "tag" ∷ t) balancer k f) ∷ seen is_tx t)
unfolding balancer_task on_balancer
balancer_task-order k w t h = on_ok _ _ w t h λ tag t1 e1 h1. on_ok _ _ w t1 h1 λ dep t2 e2 h2.
    on_ok _ _ w t2 h2 λ balancer t3 e3 h3.
      let tagged = ask_for_tag-ok w t e1 in
      let local = get_local_contract-ok "Balancer" tag w t1 e2 in
      let there = get_contract_at-ok "Balancer" (str dep) w t2 e3 in
      let (f, has, order) = body-ok k balancer w t3 h3 in
      (
        balancer,
        dep,
        f,
        at_start (λ x g. w.local_contract x "Balancer" g) tagged.1 tagged.0 local.0,
        there.0,
        has,
        order
            ∙ ap (λ x. sent (balancer_call w x balancer k f) ∷ seen is_tx x)
                (sym (tagged.1 ∙ local.1 ∙ there.1)),
      )
