-- ===== src/Exec/CrossChain/Order.antt =====
-- The transactions of the two tasks.
use tapioca.Base.{
  inl, inr, ℕ, String, ◌≡◌, ap, some, List, [], ◌∷◌, if◌then◌else◌, ◌⊎◌, true, false, Option-cases,
}
use tapioca.Hre.Types.{Val, str, num, bool, Call, Trace}
use tapioca.Hre.World.{World}
use tapioca.Hre.Task.{ok, require, pure, ◌>>=◌}
use tapioca.Hre.Answers.{view-ok}
use tapioca.Hre.Seen.{IsSilent, silent_rules, is_tx}
use tapioca.Hre.Returns.{ask_or-ok}
use tapioca.Setups.{tx}
use tapioca.Exec.CrossChain.{
  bytes32_of, solidity_pack, estimate_send_fee, send_from_call, is_zero, after_0x,
}

pub bytes32_of-IsSilent : (a : String) → IsSilent is_tx (bytes32_of a)
unfolding bytes32_of
bytes32_of-IsSilent a = search silent_rules

pub solidity_pack-IsSilent :
    (types : List String) (values : List Val) → IsSilent is_tx (solidity_pack types values)
unfolding solidity_pack
solidity_pack-IsSilent types values = search silent_rules

pub fee-IsSilent :
    (contract : String) (lz : Val) (to : String) (amount : Val) (params : String)
    → IsSilent is_tx (estimate_send_fee contract lz to amount params)
unfolding estimate_send_fee
fee-IsSilent contract lz to amount params = search silent_rules

pub bytes32_of-ok :
    (a : String) (w : World) (t : Trace) {to : String} {t' : Trace}
    → bytes32_of a w t ≡ (ok to, t')
    → ((r : Trace) → bytes32_of a w r ≡ (ok to, r)) × (t ≡ t')
unfolding bytes32_of require pure ◌>>=◌
bytes32_of-ok a w t h = elim (Option-cases (after_0x a)) [
  | inl e ↦ cc (ap (λ x. x.0) (rw e at h))
  | inr (d, e) ↦
      (λ r. rw e (ap (λ x. (x, r)) (ap (λ x. x.0) (rw e at h))), ap (λ x. x.1) (rw e at h))
]

pub solidity_pack-ok :
    (types : List String) (values : List Val) (w : World) (t : Trace) {a : String} {t' : Trace}
    → solidity_pack types values w t ≡ (ok a, t')
    → t ≡ t'
unfolding solidity_pack
solidity_pack-ok types values w t h = (ask_or-ok _ (λ v _. v.solidity_pack types values) w t h).1

pub fee-ok :
    (contract : String) (lz : Val) (to : String) (amount : Val) (params : String) (w : World)
    (t : Trace) {fee : Val} {t' : Trace}
    → estimate_send_fee contract lz to amount params w t ≡ (ok fee, t')
    → (w.view t
          (tx contract "estimateSendFee" (lz ∷ str to ∷ amount ∷ bool false ∷ str params ∷ []))
        ≡ some fee)
      × (t ≡ t')
unfolding estimate_send_fee
fee-ok contract lz to amount params w t h = view-ok _ w t h

-- The mint of a wallet with this balance.
abbrev pub minted : String → Val → ℕ → List Call
minted usd0 balance amount =
    if is_zero balance then tx usd0 "freeMint" (num amount ∷ []) ∷ [] else []

-- What a mint is of.
abbrev pub MintAmount : World → Val → ℕ → Type 0
MintAmount w balance amount =
    ((is_zero balance ≡ true) × (w.parse_ether "2000" ≡ some amount)) ⊎ (is_zero balance ≡ false)

-- The transaction of an airdrop of gas, to the padded address of its sender and with the fee that is estimated at this point.
abbrev pub Airdrop : World → Trace → String → String → Val → Call → Type 0
Airdrop w r usd0 lz_chain_id fee c =
    (to : String) × (params : String) × (bytes32_of w.deployer w r ≡ (ok to, r))
    × (w.view r (
          tx usd0 "estimateSendFee"
            (str lz_chain_id ∷ str to ∷ str "10000000000" ∷ bool false ∷ str params ∷ []))
        ≡ some fee)
    × (c ≡ send_from_call usd0 w.deployer (str lz_chain_id) to (str "10000000000") params fee)
