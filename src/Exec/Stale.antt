-- ===== src/Exec/Stale.antt =====
-- The operators' tasks whose call does not fit the contract: 01-market-updatePause.ts,
-- 04-market-setMarketConfig.ts, setBorrowCap.ts and the three of the liquidation queue, in Tapioca-bar/tasks/exec.
use tapioca.Base.{String, List, ◌∷◌, []}
use tapioca.Hre.Types.{Val, rejected}
use tapioca.Hre.World.{World}
use tapioca.Hre.Task.{Task, throw, ◌>>=◌}
use tapioca.Hre.Seen.{IsSilent, is_effect, throw-IsSilent, silent_rules}
use tapioca.Hre.Fails.{Fails, of_silent, Fails->>=, >>=-Fails}
use tapioca.Exec.MarketConfig.{encode_misfit, inputs, market_address}
use tapioca.Exec.Operators.Order.{get_deployment-IsSilent, get_singularity_contract-IsSilent}

inputs-IsSilent : (names : List String) → IsSilent is_effect (inputs names)
unfolding inputs
inputs-IsSilent [] = search silent_rules
inputs-IsSilent (n ∷ ns) = let rest = inputs-IsSilent ns in search silent_rules

market_address-IsSilent :
    (singularity big_bang : String) → IsSilent is_effect (market_address singularity big_bang)
unfolding market_address
market_address-IsSilent singularity big_bang = search silent_rules

-- No arguments are encoded, so the call that stands behind is not made.
encode_misfit-Fails :
    (w : World) (fn : String) (args : List Val) (k : String → Task (Unit {0}))
    → Fails is_effect w (encode_misfit fn args >>= k)
unfolding encode_misfit throw
encode_misfit-Fails w fn args k =
    Fails->>= _ k (of_silent _ (throw-IsSilent (rejected fn)) (record { at = λ t a h. cc h }))

ruleset fail_rules = (
  >>=-Fails, encode_misfit-Fails, inputs-IsSilent, market_address-IsSilent, get_deployment-IsSilent,
  get_singularity_contract-IsSilent, silent_rules,
)
