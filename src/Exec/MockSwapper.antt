-- ===== src/Exec/MockSwapper.antt =====
-- Tapioca-bar/tasks/exec/fillMockSwapper.ts. A contract object is made from an address and an ABI, without a call.
pub mod Deposits
pub mod Order
use Prim.Native.Nat.{compare}
use text.Mathlib.Text.{is_eq}
use tapioca.Base.{
  ℕ, ◌+◌, String, ◌==◌, Bool, true, false, Option, none, some, List, [], ◌∷◌, filter, first,
  if◌then◌else◌,
}
use tapioca.Hre.Types.{
  Val, undefined, str, num, TContract, ChainInfo, Call, Event, sent_on, thrown, type_error,
  rejected,
}
use tapioca.Hre.Task.{
  Task, pure, throw, ask, ask_or, require, try_catch, confirm, emit_if, ask_for_tag, get_chain,
  view, view_text, send, ◌>>=◌, ◌>>◌,
}
use tapioca.Setups.{tx}
use tapioca.Utils.{find_named}
use tapioca.Exec.CrossChain.{bytes32_of, solidity_pack, estimate_send_fee, send_from_call}

-- A transaction with a signer on the named network.
unfoldable pub send_on : String → Call → Task (Unit {0})
unfolding emit_if
send_on network c w t = emit_if (w.accepts_on t network c) (rejected c.fn) (sent_on network c) w t

abbrev pub number_of : Val → Option ℕ
number_of (num n) = some n
number_of _ = none

-- `n == parseInt(text)`, where `NaN` equals nothing
abbrev pub equals : ℕ → Option ℕ → Bool
equals n none = false
equals n (some m) = is_eq (compare n m)

-- The body of the `try`.
unfoldable pub host_test : String → ChainInfo → Task Bool
host_test toft chain_info = do
  host ← view (tx toft "hostChainID" [])
  n ← require (rejected "toNumber") (number_of host)
  parsed ← ask (λ w _. w.parse_int chain_info.chain_id)
  pure (equals n parsed)

-- The check for the host chain; where the answer cannot be had, it is taken for another chain's.
unfoldable pub is_host : String → ChainInfo → Task Bool
is_host toft chain_info = try_catch (host_test toft chain_info) (pure false)

-- `getLinkedContract`: on an empty list the entry's name is not read.
unfoldable pub linked : Option TContract → List TContract → Task (Option TContract)
unfolding find_named
linked entry [] = pure none
linked none (c ∷ cs) = throw (type_error "name")
linked (some e) (c ∷ cs) = pure (find_named e.name (c ∷ cs))

-- On the main chain.
unfoldable pub deposit_here : String → String → String → String → ChainInfo → ℕ → Task (Unit {0})
unfolding find_named
deposit_here toft asset_id tag signer chain_info amount = do
  found_swapper ← ask (λ w t. find_named "MockSwapper" (w.load_local t tag chain_info.chain_id))
  mock_swapper ← require (thrown "[-] MockSwapper not found") found_swapper
  found_yield_box ← ask (λ w t. find_named "YieldBox" (w.load_local t tag chain_info.chain_id))
  yield_box ← require (thrown "[-] YieldBox not found") found_yield_box
  send (tx toft "approve" (str yield_box.address ∷ num amount ∷ []))
  send (
      tx yield_box.address "depositAsset"
        (str asset_id ∷ str signer ∷ str mock_swapper.address ∷ num amount ∷ num 0 ∷ []))

-- The deposit on the main chain, of what has been sent there.
unfoldable pub deposit_there : Option TContract → String → String → ℕ → Task (Unit {0})
unfolding find_named
deposit_there linked_toft asset_id tag amount = do
  main ← ask (λ w _. w.arbitrum_goerli)
  found ← ask (λ w _. w.get_chain_by main)
  private_key ← ask (λ w _. w.private_key)
  key ← require (thrown "[-] PRIVATE_KEY not set") private_key
  dst_chain_info ← require (type_error "rpc") found
  wallet ← ask (λ w _. w.wallet_address key)
  dst_toft ← require (type_error "address") linked_toft
  dst_yield_box ← ask (λ w t. find_named "YieldBox" (w.load_local t tag dst_chain_info.chain_id))
  found_swapper ← ask (λ w t. find_named "MockSwapper" (w.load_local t tag dst_chain_info.chain_id))
  mock_swapper ← require (thrown "       [-] MockSwapper not found") found_swapper
  yield_box ← require (type_error "address") dst_yield_box
  send_on dst_chain_info.name
      (tx dst_toft.address "approve" (str yield_box.address ∷ num amount ∷ []))
  send_on dst_chain_info.name (
      tx yield_box.address "depositAsset"
        (str asset_id ∷ str wallet ∷ str mock_swapper.address ∷ num amount ∷ num 0 ∷ []))

-- On another chain: the tokens are sent to the main chain, if the user accepts the fee, which is paid twice.
unfoldable pub send_over : String → String → String → String → ChainInfo → ℕ → Task (Unit {0})
unfolding filter
send_over toft asset_id tag signer chain_info amount = do
  entries ← ask (λ w t. w.load_global t tag "tapiocaz" chain_info.chain_id)
  main ← ask (λ w _. w.arbitrum_goerli)
  main_entries ← ask (λ w t. w.load_global t tag "tapiocaz" main)
  target ← linked (first (filter (λ e. e.address == toft) entries)) main_entries
  lz_chain_id ← ask (λ w _. w.lz_of_chain main)
  to ← bytes32_of signer
  gas_params ← solidity_pack ("uint16" ∷ "uint256" ∷ []) (num 1 ∷ num 200000 ∷ [])
  answer ← estimate_send_fee toft lz_chain_id to (num amount) gas_params
  fee ← require (type_error "mul") (number_of answer)
  want_to_continue ← confirm "wantToContinue"
  if want_to_continue
      then (do
        min_gas ← ask (λ w _. w.min_gas_of_send)
        adapter_params ← solidity_pack ("uint16" ∷ "uint256" ∷ []) (num 1 ∷ min_gas ∷ [])
        send (
            send_from_call toft signer lz_chain_id to (num amount) adapter_params (num (fee + fee)))
        deposit_there target asset_id tag amount)
      else pure tt

-- What is done on the host chain of the token.
unfoldable pub fill_on_host : String → String → String → String → ChainInfo → Task (Unit {0})
fill_on_host toft asset_id tag signer chain_info = do
  amount ← ask_or (rejected "parseEther") (λ w _. w.parse_ether "100000000")
  erc20 ← view_text (tx toft "erc20" [])
  send (tx erc20 "mintTo" (str signer ∷ num amount ∷ []))
  send (tx erc20 "approve" (str toft ∷ num amount ∷ []))
  send (tx toft "wrap" (str signer ∷ str signer ∷ num amount ∷ []))
  if chain_info.name == "arbitrum_goerli"
      then deposit_here toft asset_id tag signer chain_info amount
      else send_over toft asset_id tag signer chain_info amount

unfoldable pub fill_mock_swapper : String → String → Task (Unit {0})
fill_mock_swapper toft asset_id = do
  signer ← ask (λ w _. w.signer)
  tag ← ask_for_tag
  chain_info ← get_chain
  host ← is_host toft chain_info
  if host then fill_on_host toft asset_id tag signer chain_info else pure tt
