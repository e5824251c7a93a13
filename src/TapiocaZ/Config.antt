-- ===== src/TapiocaZ/Config.antt =====
-- TapiocaZ/tasks/deploy/DEPLOY_CONFIG.ts, TapiocaZ/tasks/constants.ts, and the look-up of a network in
-- TapiocaZ/scripts/utils.ts.
use tapioca.Base.{String, ◌==◌, Bool, Option, none, some, List, [], ◌∷◌, any, ◌||◌, if◌then◌else◌}
use tapioca.Hre.Types.{Val, undefined, str, ChainInfo, thrown}
use tapioca.Hre.World.{World}
use tapioca.Hre.Task.{Task, pure, ask, require, guard, ◌>>=◌, ◌>>◌}

-- `STARGATE_ROUTER[chain]`
abbrev pub stargate_router : World → String → Val
stargate_router w chain =
    if chain == w.arbitrum_sepolia
    then str "0x2a4C2F5ffB0E0F2dcB3f9EBbd442B8F77ECDB9Cc"
    else (if chain == w.sepolia
        then str "0x2836045A50744FB50D3d04a9C8D18aD7B5012102"
        else undefined)

-- An entry of `CHAIN_TOFTS`: the tokens of each chain's field that the code reads. `CONNECTED_CHAINS`, a field that no entry has,
-- is read as `undefined`, over which `for ... in` makes no round.
pub record ChainTofts : Type 0 where
  pub host_tokens : List String
  pub connected_tokens : List (String × List String)
  pub connected_chains : List (String × List String)

-- The only entry.
abbrev pub arbitrum_sepolia_tofts : World → ChainTofts
arbitrum_sepolia_tofts w = record {
  host_tokens = "0x0" ∷ "0x1" ∷ "0x2" ∷ [];
  connected_tokens = (w.sepolia, "0x1" ∷ "0x2" ∷ []) ∷ [];
  connected_chains = [];
}

-- `CHAIN_TOFTS[chain]`
abbrev pub chain_tofts : World → String → Option ChainTofts
chain_tofts w chain = if chain == w.arbitrum_sepolia then some (arbitrum_sepolia_tofts w) else none

-- An entry of `STARGATE_ROUTERS`.
pub record StargateRouter : Type 0 where
  pub stargate_chain_id : String
  pub router : String
  pub router_eth : String

abbrev pub stargate_entry : String → String → String → StargateRouter
stargate_entry stargate_chain_id router_eth router = record {
  stargate_chain_id = stargate_chain_id;
  router = router;
  router_eth = router_eth;
}

abbrev goerli_router : String
goerli_router = "0x7612aE2a34E5A363E137De748801FB4c86499152"

-- `STARGATE_ROUTERS`, by the values of the file's own `EChainID`.
abbrev pub stargate_table : List (String × StargateRouter)
stargate_table =
    (
      "1",
      stargate_entry "101" "0x150f94b44927f078737562f0fcf3c95c01cc2376"
          "0x8731d54E9D02c286767d56ac03e8037C07e01e98",
    )
    ∷ (
      "42161",
      stargate_entry "110" "0xbf22f0f184bCcbeA268dF387a49fF5238dD23E40"
          "0x53Bf833A5d6c4ddA888F69c22C88C9f356a41614",
    )
    ∷ (
      "56",
      stargate_entry "102" "0x4a364f8c717cAAD9A442737Eb7b8A55cc6cf18D8"
          "0x4a364f8c717cAAD9A442737Eb7b8A55cc6cf18D8",
    )
    ∷ (
      "43114",
      stargate_entry "106" "0x45A01E4e04F14f7A4a6702c74187c5F6222033cd"
          "0x45A01E4e04F14f7A4a6702c74187c5F6222033cd",
    )
    ∷ (
      "137",
      stargate_entry "109" "0x45A01E4e04F14f7A4a6702c74187c5F6222033cd"
          "0x45A01E4e04F14f7A4a6702c74187c5F6222033cd",
    )
    ∷ (
      "10",
      stargate_entry "111" "0xB49c4e680174E331CB0A7fF3Ab58afC9738d5F8b"
          "0xB0D502E938ed5f4df2E681fE6E419ff29631d62b",
    )
    ∷ (
      "250",
      stargate_entry "112" "0xAf5191B0De278C7286d6C7CC6ab6BB8A73bA2Cd6"
          "0xAf5191B0De278C7286d6C7CC6ab6BB8A73bA2Cd6",
    )
    ∷ (
      "5",
      stargate_entry "10121" "0xdb19Ad528F4649692B92586828346beF9e4a3532"
          "0x7612aE2a34E5A363E137De748801FB4c86499152",
    )
    ∷ ("421613", stargate_entry "10143" goerli_router "0xb850873f4c993Ac2405A1AdD71F6ca5D4d4d6b4f")
    ∷ ("43113", stargate_entry "10106" goerli_router "0xb850873f4c993Ac2405A1AdD71F6ca5D4d4d6b4f")
    ∷ ("80001", stargate_entry "10109" goerli_router "0xb850873f4c993Ac2405A1AdD71F6ca5D4d4d6b4f")
    ∷ []

abbrev pub lookup : String → List (String × StargateRouter) → Option StargateRouter
lookup chain [] = none
lookup chain ((c, r) ∷ rest) = if chain == c then some r else lookup chain rest

-- `STARGATE_ROUTERS[chain]`
unfoldable pub stargate_routers : String → Option StargateRouter
stargate_routers chain = lookup chain stargate_table

-- `config.networks` holds `hardhat` and, by their names, the supported chains.
abbrev pub has_network : World → String → Bool
has_network w name = name == "hardhat" || any (λ c. c.name == name) w.supported_chains

abbrev name_text : Option ChainInfo → String
name_text none = "undefined"
name_text (some c) = c.name

-- `useNetwork(hre, info?.name)`: a wallet on the network, which the model names by the network.
unfoldable pub use_network : Option ChainInfo → Task String
use_network info = do
  private_key ← ask (λ w _. w.private_key)
  key ← require (thrown "[-] PRIVATE_KEY not set") private_key
  known ← ask (λ w _. has_network w (name_text info))
  guard known (thrown "[-] Hardhat network config not found")
  pure (name_text info)
