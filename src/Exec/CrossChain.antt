-- ===== src/Exec/CrossChain.antt =====
-- Tapioca-bar/tasks/exec/sendFrom.ts and Tapioca-bar/tasks/airdropGas.ts: USDO and gas over LayerZero.
pub mod Order
pub mod Padding
use Prim.Native.Nat.{◌-◌}
use Prim.Native.String.{◌++◌ as ◌+++◌, len, slice}
use text.Mathlib.Text.{find?}
use tapioca.Base.{
  ℕ, zero, suc, ◌+◌, String, ◌==◌, is_empty, Bool, true, false, Option, none, some, List, [], ◌∷◌,
  find, first, if◌then◌else◌,
}
use tapioca.Hre.Types.{
  Val, str, num, bool, struct, value, TContract, ChainInfo, Call, thrown, type_error, rejected,
}
use tapioca.Hre.Task.{
  Task, pure, ask, ask_or, require, guard, ask_for_tag, get_contract_at, get_local_contract, view,
  send, send_all, ◌>>=◌, ◌>>◌,
}
use tapioca.Builds.{address_zero}
use tapioca.Setups.{tx}
use tapioca.Utils.{find_named}

-- The text up to the first `0x`.
abbrev until_0x : String → String
until_0x s = elim (find? s "0x") [ none ↦ s | some i ↦ slice s 0 i ]

-- `s.split('0x')[1]`: what stands between the first `0x` and the second or the end.
unfoldable pub after_0x : String → Option String
after_0x s = elim (find? s "0x") [
  | none ↦ none
  | some i ↦ some (until_0x (slice s (i + 2) (len s)))
]

abbrev pub zeros : ℕ → String
zeros zero = ""
zeros (suc n) = "0" +++ zeros n

-- `s.padStart(n, '0')`
unfoldable pub pad_start : ℕ → String → String
pad_start n s = zeros (n - len s) +++ s

-- `'0x'.concat(address.split('0x')[1].padStart(64, '0'))`
unfoldable pub bytes32_of : String → Task String
bytes32_of address = do
  digits ← require (type_error "padStart") (after_0x address)
  pure ("0x" +++ pad_start 64 digits)

unfoldable pub solidity_pack : List String → List Val → Task String
solidity_pack types values = ask_or (rejected "solidityPack") (λ w _. w.solidity_pack types values)

-- `(await contract.estimateSendFee(lzChainId, to, amount, false, adapterParams)).nativeFee`
unfoldable pub estimate_send_fee : String → Val → String → Val → String → Task Val
estimate_send_fee contract lz_chain_id to amount adapter_params = view (
    tx contract "estimateSendFee"
      (lz_chain_id ∷ str to ∷ amount ∷ bool false ∷ str adapter_params ∷ []))

-- `contract.sendFrom(from, lzChainId, to, amount, { ... }, { value: fee })`
abbrev pub send_from_call : String → String → Val → String → Val → String → Val → Call
send_from_call contract sender lz_chain_id to amount adapter_params fee = tx contract "sendFrom" (
    str sender
    ∷ lz_chain_id
    ∷ str to
    ∷ amount
    ∷ struct (
        ("adapterParams", adapter_params)
        ∷ ("refundAddress", sender)
        ∷ ("zroPaymentAddress", address_zero)
        ∷ [])
    ∷ value fee
    ∷ [])

-- The arguments of sendFrom; `contractName` is only printed.
pub record SendArgs : Type 0 where
  pub src : String
  pub dst : String
  pub amount : String

unfoldable pub send_from : SendArgs → Task (Unit {0})
unfolding find_named
send_from args = do
  src_config ← ask (λ w _. w.get_chain_by_name args.src)
  dst_config ← ask (λ w _. w.get_chain_by_name args.dst)
  src_chain ← require (thrown "Chain not found") src_config
  dst_chain ← require (thrown "Chain not found") dst_config
  tag ← ask_for_tag
  found ← ask (λ w t. find_named "USDO" (w.load_global t tag "tapioca-bar" src_chain.chain_id))
  usdo ← require (type_error "address") found
  contract ← get_contract_at "USDO" (str usdo.address)
  amount ← ask_or (rejected "parseUnits") (λ w _. w.parse_units args.amount)
  signer ← ask (λ w _. w.signer)
  to ← bytes32_of signer
  gas_params ← solidity_pack ("uint16" ∷ "uint256" ∷ []) (num 1 ∷ num 200000 ∷ [])
  fee ← estimate_send_fee contract (str dst_chain.lz_chain_id) to (num amount) gas_params
  min_gas ← ask (λ w _. w.min_gas_of_send)
  adapter_params ← solidity_pack ("uint16" ∷ "uint256" ∷ []) (num 1 ∷ min_gas ∷ [])
  send (
      send_from_call contract signer (str dst_chain.lz_chain_id) to (num amount) adapter_params fee)

-- The arguments of airdropGas; `dstAddress` is not read.
pub record AirdropArgs : Type 0 where
  pub amount : String
  pub dst_chain : String
  pub recursive : Option String

-- `if (taskArgs.recursive)`, and how many transactions the loop makes.
abbrev pub times : Option String → (String → ℕ) → ℕ
times none count = 1
times (some n) count = if is_empty n then 1 else count n

abbrev pub repeat : ℕ → Call → List Call
repeat zero c = []
repeat (suc n) c = c ∷ repeat n c

-- `balance.isZero()`
abbrev pub is_zero : Val → Bool
is_zero (num zero) = true
is_zero _ = false

-- A wallet without USDO mints itself some.
unfoldable pub mint_if_none : String → Val → Task (Unit {0})
mint_if_none usd0 balance =
    if is_zero balance
    then (do
      amount ← ask_or (rejected "parseEther") (λ w _. w.parse_ether "2000")
      send (tx usd0 "freeMint" (num amount ∷ [])))
    else pure tt

-- `find` with an asynchronous predicate, whose promise is never falsy, takes the first chain.
unfoldable pub airdrop_gas : AirdropArgs → Task (Unit {0})
unfolding find
airdrop_gas args = do
  supported ← ask (λ w _. w.supported_chains)
  from_chain ← require (thrown "[-] From chain not supported") (first supported)
  to_chain ←
      require (thrown "[-] To chain not supported")
        (find (λ c. c.chain_id == args.dst_chain) supported)
  tag ← ask_for_tag
  usd0 ← get_local_contract "USDO" tag
  signer ← ask (λ w _. w.deployer)
  to ← bytes32_of signer
  amount ← ask_or (rejected "parseEther") (λ w _. w.parse_ether args.amount)
  adapter_params ←
      solidity_pack ("uint16" ∷ "uint" ∷ "uint" ∷ "address" ∷ [])
        (num 2 ∷ num 200000 ∷ num amount ∷ str signer ∷ [])
  fee ← estimate_send_fee usd0 (str to_chain.lz_chain_id) to (str "10000000000") adapter_params
  balance ← view (tx usd0 "balanceOf" (str signer ∷ []))
  mint_if_none usd0 balance
  n ← ask (λ w _. times args.recursive w.count_below)
  send_all (
      repeat n (
        send_from_call usd0 signer (str to_chain.lz_chain_id) to (str "10000000000") adapter_params
          fee))
