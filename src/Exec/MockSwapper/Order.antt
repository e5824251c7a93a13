-- ===== src/Exec/MockSwapper/Order.antt =====
-- The transactions that fill the MockSwapper.
use tapioca.Base.{ℕ, String, ◌==◌, true, false, ◌≡◌, ◌⊎◌, [], ◌∷◌}
use tapioca.Hre.Types.{str, num, ChainInfo, sent, Trace}
use tapioca.Hre.World.{World}
use tapioca.Setups.{tx}
use tapioca.Exec.MockSwapper.Deposits.{Deposited, SentOver}

-- The tokens were minted and wrapped.
abbrev pub wrapped : String → String → String → ℕ → Trace → Trace
wrapped toft erc20 signer amount before =
    sent (tx toft "wrap" (str signer ∷ str signer ∷ num amount ∷ []))
    ∷ sent (tx erc20 "approve" (str toft ∷ num amount ∷ []))
    ∷ sent (tx erc20 "mintTo" (str signer ∷ num amount ∷ []))
    ∷ before

-- What follows, on the main chain and elsewhere.
abbrev pub Continues :
    World → String → ChainInfo → String → String → String → ℕ → Trace → Trace → Type 0
Continues w tag info toft asset_id signer amount before after =
    (((info.name == "arbitrum_goerli") ≡ true)
      × Deposited w tag info toft asset_id signer amount before after)
    ⊎ (((info.name == "arbitrum_goerli") ≡ false)
        × ((after ≡ before) ⊎ SentOver w tag info toft asset_id signer amount before after))
