-- ===== src/Deploy/Lookup.antt =====
-- How the deployment tasks look an entry up: in one list of the database, then in another.
use Prim.Native.String.{◌++◌}
use tapioca.Base.{
  ℕ, zero, suc, String, Option, none, some, [], ◌∷◌, ◌==◌, first, or_else, Bool, false,
}
use tapioca.Hre.Types.{Val, num, negsuc, TContract, ChainInfo, AssetMeta, type_error}
use tapioca.Hre.Task.{Task, pure, ask, require, view, ◌>>=◌}
use tapioca.Setups.{tx}
use tapioca.Utils.{find_named, find_prefixed}

-- `find` in the global list of the project, and if that has no such entry in the local list.
unfoldable pub global_or_local : String → String → String → String → Task (Option TContract)
unfolding find_named
global_or_local tag project chain name = ask λ w t.
    or_else (find_named name (w.load_global t tag project chain))
      (find_named name (w.load_local t tag chain))

-- An oracle: a local entry whose name starts with the filter, or an entry of tapioca-periphery
-- whose name is the filter.
unfoldable pub find_oracle : String → String → String → Task (Option TContract)
unfolding find_named find_prefixed
find_oracle tag chain filter_name = ask λ w t.
    or_else (find_prefixed filter_name (w.load_local t tag chain))
      (find_named filter_name (w.load_global t tag "tapioca-periphery" chain))

-- A token's strategy: the local deployment of that name, or the one of tapioca-strategies.
unfoldable pub find_token_strategy : String → String → String → Task (Option TContract)
unfolding find_named
find_token_strategy tag chain filter_name = ask λ w t.
    or_else (w.get_local t w.chain_id filter_name tag)
      (find_named filter_name (w.load_global t tag "tapioca-strategies" chain))

unfoldable pub get_local : String → String → Task (Option TContract)
get_local name tag = ask (λ w t. w.get_local t w.chain_id name tag)

-- `token.name`, which throws where `find` has found no token.
unfoldable pub name_of : Option TContract → Task String
name_of none = require (type_error "name") none
name_of (some c) = pure c.name

unfoldable pub address_field : Option TContract → Task String
address_field none = require (type_error "address") none
address_field (some c) = pure c.address

-- `name ?? prefix + token.name`
unfoldable pub name_or : Option String → String → Option TContract → Task String
name_or (some name) prefix token = pure name
name_or none prefix token = do token_name ← name_of token; pure (prefix ++ token_name)

abbrev pub is_testnet : ChainInfo → Bool
is_testnet c = elim (first c.tags) [ none ↦ false | some tag ↦ tag == "testnet" ]

-- `yieldBox.ids(1, address, strategyAddress, 0)`
unfoldable pub yield_box_id : String → AssetMeta → Task Val
yield_box_id yield_box asset =
    view (tx yield_box "ids" (num 1 ∷ asset.address ∷ asset.strategy_address ∷ num 0 ∷ []))

-- `n - 1` on a JavaScript number
abbrev pub minus_one : ℕ → Val
minus_one zero = negsuc 0
minus_one (suc n) = num n
