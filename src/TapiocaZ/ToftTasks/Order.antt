-- ===== src/TapiocaZ/ToftTasks/Order.antt =====
-- The call of each task on a TOFT.
use tapioca.Base.{String, Bool, ◌≡◌, sym, ap, ◌∙◌, some, [], ◌∷◌, if◌then◌else◌, true, false}
use tapioca.Hre.Types.{str, prompted, sent, Trace}
use tapioca.Hre.World.{World}
use tapioca.Hre.Task.{ok, input, get_contract_at, ◌>>=◌}
use tapioca.Hre.Seen.{seen, is_tx}
use tapioca.Hre.Returns.{on_ok, send-ok, ask_or-ok}
use tapioca.Setups.{tx}
use tapioca.TapiocaZ.ToftTasks.{toft_at, rescue_eth_from_oft}

-- The artifact that the flag `oft` selects.
abbrev pub artifact_of : Bool → String
artifact_of oft = if oft then "TOFT" else "mTOFT"

toft_at-ok :
    (oft : Bool) (address : String) (w : World) (t : Trace) {a : String} {t' : Trace}
    → toft_at oft address w t ≡ (ok a, t')
    → (w.contract_at (artifact_of oft) (str address) ≡ some a) × (t ≡ t')
unfolding toft_at get_contract_at
toft_at-ok true address w t h = ask_or-ok _ (λ v _. v.contract_at "TOFT" (str address)) w t h
toft_at-ok false address w t h = ask_or-ok _ (λ v _. v.contract_at "mTOFT" (str address)) w t h

-- The rescue of ETH that returns has made one transaction, on the TOFT or the mTOFT at the address, as the flag says: it sends the second
-- answer, the amount, to the first.
pub rescue_eth_from_oft-order :
    (address : String) (oft : Bool) (w : World) (t : Trace) {t' : Trace}
    → rescue_eth_from_oft address oft w t ≡ (ok tt, t')
    → (toft : String) × (w.contract_at (artifact_of oft) (str address) ≡ some toft)
      × (seen is_tx t'
          ≡ sent (
              tx toft "rescueEth"
                (str (w.input (prompted "to" ∷ t) "amount") ∷ str (w.input t "to") ∷ []))
            ∷ seen is_tx t)
unfolding rescue_eth_from_oft input ◌>>=◌
rescue_eth_from_oft-order address oft w t h = on_ok (toft_at oft address) _ w t h λ toft t1 e1 h1.
    let (found, same) = toft_at-ok oft address w t e1 in
    (
      toft,
      found,
      ap (seen is_tx) (send-ok _ w _ h1).1
          ∙ ap
              (λ x.
                sent (
                  tx toft "rescueEth"
                    (str (w.input (prompted "to" ∷ x) "amount") ∷ str (w.input x "to") ∷ []))
                ∷ seen is_tx x)
              (sym same),
    )
