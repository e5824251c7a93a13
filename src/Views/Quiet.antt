-- ===== src/Views/Quiet.antt =====
-- The transactions of the views in Tapioca-bar/tasks/view.
use tapioca.Base.{String, List, [], ◌∷◌, ◌≡◌}
use tapioca.Hre.Types.{Val, Call, Trace}
use tapioca.Hre.World.{World}
use tapioca.Hre.Task.{Task}
use tapioca.Hre.Seen.{IsSilent, seen, is_tx, silent_rules, >>=-IsSilent, pure-IsSilent}
use tapioca.Utils.{get_big_bang_contract}
use tapioca.Exec.Operators.Order.{get_deployment-IsSilent, get_singularity_contract-IsSilent}
use tapioca.Views.{
  view_addresses, market_names, get_big_bang_markets, get_singularity_markets, details_of,
  get_participant_singularity_info, get_participant_big_bang_info, get_singularity_totals,
  get_big_bang_totals,
}

get_big_bang_contract-IsSilent : (bb : String) → IsSilent is_tx (get_big_bang_contract bb)
unfolding get_big_bang_contract
get_big_bang_contract-IsSilent bb = search silent_rules

addresses-IsSilent : (c : Call) → IsSilent is_tx (view_addresses c)
unfolding view_addresses
addresses-IsSilent c = search silent_rules

market_names-IsSilent :
    (artifact : String) (l : List String) → IsSilent is_tx (market_names artifact l)
unfolding market_names
market_names-IsSilent artifact [] = pure-IsSilent []
market_names-IsSilent artifact (a ∷ rest) = >>=-IsSilent _ _ (search silent_rules) λ market.
    >>=-IsSilent _ _ (search silent_rules) λ name.
      >>=-IsSilent _ _ (market_names-IsSilent artifact rest)
        λ others. pure-IsSilent ((name, a) ∷ others)

details_of-IsSilent :
    (market : String) (arg : Val) (helper user : String)
    → IsSilent is_tx (details_of market arg helper user)
unfolding details_of
details_of-IsSilent market arg helper user = search (silent_rules, get_deployment-IsSilent) depth 16

-- The task makes no transaction and deploys nothing, however it ends.
abbrev pub IsQuiet {ℓ} : {A : Type ℓ} → Task A → Type 0
IsQuiet m = (w : World) (t : Trace) → seen is_tx (m w t).1 ≡ seen is_tx t

-- However a view of the markets, of a participant or of a market's totals ends, it has made no transaction.
pub views-IsQuiet :
    (market user : String)
    → IsQuiet get_big_bang_markets
      × IsQuiet get_singularity_markets
      × IsQuiet (get_participant_singularity_info market user)
      × IsQuiet (get_participant_big_bang_info market user)
      × IsQuiet (get_singularity_totals market)
      × IsQuiet (get_big_bang_totals market)
unfolding get_big_bang_markets get_singularity_markets get_participant_singularity_info
    get_participant_big_bang_info get_singularity_totals get_big_bang_totals
views-IsQuiet market user =
    let big_bang_markets : IsSilent is_tx get_big_bang_markets =
      search (silent_rules, get_deployment-IsSilent, addresses-IsSilent, market_names-IsSilent)
        depth 12 in
    let singularity_markets : IsSilent is_tx get_singularity_markets =
      search (silent_rules, get_deployment-IsSilent, addresses-IsSilent, market_names-IsSilent)
        depth 12 in
    let singularity_info : IsSilent is_tx (get_participant_singularity_info market user) =
      search (silent_rules, get_singularity_contract-IsSilent, details_of-IsSilent) depth 8 in
    let big_bang_info : IsSilent is_tx (get_participant_big_bang_info market user) =
      search (silent_rules, get_big_bang_contract-IsSilent, details_of-IsSilent) depth 8 in
    let singularity_totals : IsSilent is_tx (get_singularity_totals market) =
      search (silent_rules, get_singularity_contract-IsSilent, get_deployment-IsSilent) depth 16 in
    let big_bang_totals : IsSilent is_tx (get_big_bang_totals market) =
      search (silent_rules, get_big_bang_contract-IsSilent) depth 8 in
    (
      big_bang_markets.at, singularity_markets.at, singularity_info.at, big_bang_info.at,
      singularity_totals.at, big_bang_totals.at,
    )
