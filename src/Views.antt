-- ===== src/Views.antt =====
-- Tapioca-bar/tasks/view: what the views read and print. A view returns what its task prints.
pub mod Quiet
use tapioca.Base.{String, ◌==◌, Bool, true, false, Option, none, some, List, [], ◌∷◌, if◌then◌else◌}
use tapioca.Hre.Types.{Val, undefined, str, bool, struct, object, TContract, Call, thrown, rejected}
use tapioca.Hre.Task.{Task, pure, throw, ask_or, try_catch, get_contract_at, view, view_text, ◌>>=◌}
use tapioca.Setups.{tx}
use tapioca.Utils.{get_deployment, get_singularity_contract, get_big_bang_contract}

-- `getDeployments`: the project's file, or the SDK's record.
unfoldable pub get_deployments : Bool → Task (List TContract)
get_deployments local =
    if local
    then ask_or (rejected "readFileSync") (λ w t. w.read_deployments t)
    else ask_or (rejected "getDeployment") (λ w t. w.sdk_deployments t)

-- The list, or nothing where it cannot be read.
unfoldable pub print_deployments : Bool → Task (List TContract)
print_deployments local = try_catch (get_deployments local) (pure [])

-- `await contract.fn()` that answers an array of addresses
unfoldable pub view_addresses : Call → Task (List String)
view_addresses c = ask_or (rejected c.fn) (λ w t. w.view_addresses t c)

-- The loop over the addresses: each market's name and address.
unfoldable pub market_names : String → List String → Task (List (String × String))
market_names artifact [] = pure []
market_names artifact (a ∷ rest) = do
  market ← get_contract_at artifact (str a)
  name ← view_text (tx market "name" [])
  others ← market_names artifact rest
  pure ((name, a) ∷ others)

unfoldable pub get_big_bang_markets : Task (List (String × String))
get_big_bang_markets = do
  penrose ← get_deployment "Penrose"
  addresses ← view_addresses (tx penrose "bigBangMarkets" [])
  market_names "BigBang" addresses

unfoldable pub get_singularity_markets : Task (List (String × String))
get_singularity_markets = do
  penrose ← get_deployment "Penrose"
  addresses ← view_addresses (tx penrose "singularityMarkets" [])
  market_names "Singularity" addresses

-- What is printed of a participant.
pub record Details : Type 0 where
  pub borrow_amount : Val
  pub borrow_share : Val
  pub collateral_amount : Val
  pub collateral_share : Val
  pub exchange_rate : Val
  pub amount_to_solvency : Val
  pub collateral_shares_used : Val
  pub collateral_amount_used : Val

-- What the two views of a participant have in common: the market, what they name it by to the helper, and the helper's name.
unfoldable pub details_of : String → Val → String → String → Task Details
details_of market market_arg helper_name user = do
  helper ← get_deployment helper_name
  yield_box ← get_deployment "YieldBox"
  asset_id ← view (tx market "assetId" [])
  collateral_id ← view (tx market "collateralId" [])
  borrow_amount ← view (tx market "userBorrowPart" (str user ∷ []))
  borrow_share ← view (tx yield_box "toShare" (asset_id ∷ borrow_amount ∷ bool false ∷ []))
  collateral_share ← view (tx market "userCollateralShare" (str user ∷ []))
  collateral_amount ←
      view (tx yield_box "toAmount" (collateral_id ∷ collateral_share ∷ bool false ∷ []))
  exchange_rate ← view (tx market "exchangeRate" [])
  amount_to_solvency ←
      view (tx market "computeAssetAmountToSolvency" (str user ∷ exchange_rate ∷ []))
  shares_used ←
      view (tx helper "getCollateralSharesForBorrowPart" (market_arg ∷ borrow_amount ∷ []))
  amount_used ← view (tx yield_box "toAmount" (collateral_id ∷ shares_used ∷ bool false ∷ []))
  pure (record {
    borrow_amount = borrow_amount;
    borrow_share = borrow_share;
    collateral_amount = collateral_amount;
    collateral_share = collateral_share;
    exchange_rate = exchange_rate;
    amount_to_solvency = amount_to_solvency;
    collateral_shares_used = shares_used;
    collateral_amount_used = amount_used;
  })

unfoldable pub get_participant_singularity_info : String → String → Task Details
get_participant_singularity_info singularity user = do
  market ← get_singularity_contract singularity
  details_of market (str singularity) "MarketsHelper" user

-- The helper is given the contract object.
unfoldable pub get_participant_big_bang_info : String → String → Task Details
get_participant_big_bang_info big_bang user = do
  market ← get_big_bang_contract big_bang
  details_of market (object market) "MarketHelper" user

-- What is printed of a market; the collateral amount is a promise, which is named by its call.
pub record Totals : Type 0 where
  pub borrow_cap : Val
  pub total_borrowed_amount : Val
  pub total_borrowed_shares : Val
  pub total_asset_amount : Val
  pub total_asset_shares : Val
  pub total_collateral_share : Val
  pub total_collateral_amount : Call

-- A field of a struct that a view answers.
abbrev pub field_of : String → List (String × String) → Val
field_of name [] = undefined
field_of name ((n, v) ∷ rest) = if n == name then str v else field_of name rest

abbrev pub field : String → Val → Val
field name (struct fields) = field_of name fields
field name _ = undefined

unfoldable pub get_singularity_totals : String → Task Totals
get_singularity_totals singularity = do
  market ← get_singularity_contract singularity
  yield_box ← get_deployment "YieldBox"
  collateral_id ← view (tx market "collateralId" [])
  borrow_cap ← view (tx market "totalBorrowCap" [])
  total_borrowed ← view (tx market "totalBorrow" [])
  total_asset ← view (tx market "totalAsset" [])
  total_collateral_share ← view (tx market "totalCollateralShare" [])
  pure (record {
    borrow_cap = borrow_cap;
    total_borrowed_amount = field "base" total_borrowed;
    total_borrowed_shares = field "elastic" total_borrowed;
    total_asset_amount = field "base" total_asset;
    total_asset_shares = field "elastic" total_asset;
    total_collateral_share = total_collateral_share;
    total_collateral_amount =
        tx yield_box "toAmount" (collateral_id ∷ total_collateral_share ∷ bool false ∷ []);
  })

-- `getDeployment` is not imported by the file, so the name is not bound, and what stands behind it is not reached.
unfoldable pub get_big_bang_totals : String → Task Totals
get_big_bang_totals big_bang = do
  market ← get_big_bang_contract big_bang
  throw (thrown "getDeployment is not defined")
