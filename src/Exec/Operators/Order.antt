-- ===== src/Exec/Operators/Order.antt =====
-- The transaction of each of these tasks.
use tapioca.Base.{String, ◌≡◌, refl, sym, ap, ◌∙◌, Bool, some, List, ◌∷◌, arith}
use tapioca.Hre.Types.{Event, Val, str, sent, prompted, Trace}
use tapioca.Hre.World.{World}
use tapioca.Hre.Task.{ok, try_catch, ◌>>=◌}
use tapioca.Hre.Seen.{
  IsSilent, seen, seen-eq_of_silent, is_tx, silent_rules, ask_for_tag-IsSilent,
  get_local_contract-IsSilent, get_contract_at-IsSilent,
}
use tapioca.Hre.Returns.{on_ok, send-ok, encode_function_data-ok}
use tapioca.Hre.Answers.{at_start, ask_for_tag-ok, get_local_contract-ok, get_contract_at-ok}
use tapioca.Utils.{deployments, get_deployment, get_singularity_contract}
use tapioca.Deploy.BigBangMarket.{execute_market_fn}
use tapioca.Exec.MarketConfig.{execute_on_market}
use tapioca.Exec.Operators.{market_task}

-- A market task that returns has made one transaction: the encoded call, on the contract that is found at the address for the artifact, through the
-- Penrose of the local list.
pub market_task-order :
    (artifact address fn : String) (args : List Val) (w : World) (t : Trace) {t' : Trace}
    → market_task artifact address fn args w t ≡ (ok tt, t')
    → (penrose : String) × (market : String) × (call_data : String) × (w.local_contract
          (prompted "tag" ∷ t)
          "Penrose"
          (w.ask_for_tag t)
        ≡ some penrose)
      × (w.contract_at artifact (str address) ≡ some market)
      × (w.encode_function_data fn args ≡ some call_data)
      × (seen is_tx t' ≡ sent (execute_market_fn penrose market call_data) ∷ seen is_tx t)
unfolding market_task execute_on_market
market_task-order artifact address fn args w t h = on_ok _ _ w t h λ tag t1 e1 h1.
    on_ok _ _ w t1 h1 λ penrose t2 e2 h2. on_ok _ _ w t2 h2 λ market t3 e3 h3.
      on_ok _ _ w t3 h3 λ call_data t4 e4 h4.
        let tagged = ask_for_tag-ok w t e1 in
        let encoded = encode_function_data-ok fn args w t3 e4 in
        (
          penrose,
          market,
          call_data,
          at_start (λ x g. w.local_contract x "Penrose" g) tagged.1 tagged.0
              (get_local_contract-ok "Penrose" tag w t1 e2).0,
          (get_contract_at-ok artifact (str address) w t2 e3).0,
          encoded.0,
          ap (seen is_tx) (send-ok _ w t4 h4).1
              ∙ ap (λ x. sent (execute_market_fn penrose market call_data) ∷ x)
                  (ap (seen is_tx) (sym encoded.1)
                    ∙ seen-eq_of_silent _ w t2 (get_contract_at-IsSilent _ _) e3
                    ∙ seen-eq_of_silent _ w t1 (get_local_contract-IsSilent _ _) e2
                    ∙ seen-eq_of_silent _ w t (ask_for_tag-IsSilent refl) e1),
        )

module _ {f : Event → Bool} where
  deployments-IsSilent : IsSilent f deployments
  unfolding deployments try_catch ◌>>=◌
  deployments-IsSilent = record { at = λ w t. ground arith }

  pub get_deployment-IsSilent : (name : String) → IsSilent f (get_deployment name)
  unfolding get_deployment
  get_deployment-IsSilent name = search (silent_rules, deployments-IsSilent)

  pub get_singularity_contract-IsSilent :
      (singularity : String) → IsSilent f (get_singularity_contract singularity)
  unfolding get_singularity_contract
  get_singularity_contract-IsSilent singularity = search silent_rules
