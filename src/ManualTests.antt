-- ===== src/ManualTests.antt =====
-- The smaller manual test tasks of Tapioca-bar/tasks: test-hasStoredPayload.ts, test-retryPayload.ts,
-- test-sameChainBorrow.ts and test-otherChainBorrow.ts.
use Prim.Native.Nat.{compare}
use text.Mathlib.Text.{is_eq, is_le}
use tapioca.Base.{
  ℕ, zero, String, ◌==◌, Bool, true, false, Option, none, some, List, [], ◌∷◌, find, not,
  if◌then◌else◌, ◌&&◌,
}
use tapioca.Hre.Types.{
  Val, undefined, str, num, bool, strs, struct, value, PayloadStored, thrown, type_error, rejected,
}
use tapioca.Hre.Task.{
  Task, pure, ask, ask_or, require, guard, get_contract_at, view, send, abi_encode,
  encode_function_data, ◌>>=◌, ◌>>◌,
}
use tapioca.Setups.{tx}
use tapioca.Utils.{get_singularity_contract}
use tapioca.Exec.CrossChain.{solidity_pack}
use tapioca.Exec.MockSwapper.{number_of}

-- What JavaScript takes for true.
abbrev pub is_truthy : Val → Bool
is_truthy undefined = false
is_truthy (bool b) = b
is_truthy (num zero) = false
is_truthy (str s) = not (s == "")
is_truthy _ = true

-- The arguments of hasStoredPayload and retryPayload; only the latter reads `block_hash`.
pub record PayloadArgs : Type 0 where
  pub src_chain_id : ℕ
  pub src_address : String
  pub dst_address : String
  pub lz_endpoint : String
  pub block_hash : String

-- `solidityPack(['address', 'address'], [srcAddress, dstAddress])`
unfoldable pub address_pack : PayloadArgs → Task String
address_pack args =
    solidity_pack ("address" ∷ "address" ∷ []) (str args.src_address ∷ str args.dst_address ∷ [])

-- The answer is printed.
unfoldable pub has_stored_payload : PayloadArgs → Task Val
has_stored_payload args = do
  endpoint ← get_contract_at "ILayerZeroEndpoint" (str args.lz_endpoint)
  addr_pack ← address_pack args
  view (tx endpoint "hasStoredPayload" (num args.src_chain_id ∷ str addr_pack ∷ []))

abbrev pub is_right_event : PayloadArgs → String → PayloadStored → Bool
is_right_event args addr_pack e =
    is_eq (compare e.src_chain_id args.src_chain_id) && (e.src_address == addr_pack)

-- `actualEvent?.args[4]`
abbrev pub payload_of : Option PayloadStored → Val
payload_of none = undefined
payload_of (some e) = str e.payload

-- From the check of the number of events on.
unfoldable pub retry_stored : PayloadArgs → String → String → List PayloadStored → Task (Unit {0})
unfolding find
retry_stored args endpoint addr_pack [] = pure tt
retry_stored args endpoint addr_pack (e ∷ es) = send (
    tx endpoint "retryPayload" (
      num args.src_chain_id
      ∷ str addr_pack
      ∷ payload_of (find (is_right_event args addr_pack) (e ∷ es))
      ∷ []))

unfoldable pub retry_payload : PayloadArgs → Task (Unit {0})
retry_payload args = do
  endpoint ← get_contract_at "LZEndpointMock" (str args.lz_endpoint)
  addr_pack ← address_pack args
  has_payload ← view (tx endpoint "hasStoredPayload" (num args.src_chain_id ∷ str addr_pack ∷ []))
  if is_truthy has_payload
      then (do
        events ←
            ask_or (rejected "queryFilter") (λ w t. w.payload_events t endpoint args.block_hash)
        retry_stored args endpoint addr_pack events)
      else pure tt

pub record SameChainBorrowArgs : Type 0 where
  pub market : String
  pub market_helper : String
  pub collateral_amount : Val
  pub borrow_amount : Val

-- `singularity` is the argument that getSingularityContract reads; the task's own arguments have none of that name.
unfoldable pub same_chain_borrow : String → SameChainBorrowArgs → Task (Unit {0})
same_chain_borrow singularity args = do
  market ← get_singularity_contract singularity
  collateral ← view (tx market "collateral" [])
  asset ← view (tx market "asset" [])
  yield_box_address ← view (tx market "yieldBox" [])
  yield_box ← get_contract_at "YieldBox" yield_box_address
  token ←
      get_contract_at "@boringcrypto/boring-solidity/contracts/interfaces/IERC20.sol:IERC20"
        collateral
  helper ← get_contract_at "MarketsHelper" (str args.market_helper)
  send (tx yield_box "setApprovalForAll" (str singularity ∷ bool true ∷ []))
  send (tx token "approve" (str helper ∷ args.collateral_amount ∷ []))
  max ← ask (λ w _. w.max_uint256)
  send (tx market "approve" (str helper ∷ max ∷ []))
  signer ← ask (λ w _. w.signer)
  send (
      tx helper "depositAddCollateralAndBorrowFromMarket" (
        str singularity
        ∷ str signer
        ∷ args.collateral_amount
        ∷ args.borrow_amount
        ∷ bool true
        ∷ bool true
        ∷ struct (
            ("withdraw", "false")
            ∷ ("withdrawLzFeeAmount", "0")
            ∷ ("withdrawOnOtherChain", "false")
            ∷ ("withdrawLzChainId", "0")
            ∷ ("withdrawAdapterParams", "0x")
            ∷ [])
        ∷ struct (("gasLimit", "7920027") ∷ [])
        ∷ []))

pub record OtherChainBorrowArgs : Type 0 where
  pub src_lz_chain_id : String
  pub dest_lz_chain_id : String
  pub extra_gas : String
  pub asset_id : Val
  pub zro_address : String
  pub deposit_gas : Val
  pub singularity_gas : ℕ
  pub airdrop_gas : Val
  pub deposit_amount : Val
  pub oft : String
  pub proxy : String
  pub singularity_destination : String
  pub collateral_share : Val
  pub borrow_amount : Val
  pub withdraw : ℕ

-- `taskArgs.withdraw == 1`
abbrev pub withdraws : OtherChainBorrowArgs → Bool
withdraws args = is_eq (compare args.withdraw 1)

-- The two or three calls that are run on the other chain.
unfoldable pub borrow_actions : OtherChainBorrowArgs → String → Task (List String)
borrow_actions args signer = do
  add_collateral ←
      encode_function_data "addCollateral"
        (str signer ∷ str signer ∷ bool false ∷ args.collateral_share ∷ [])
  borrow ← encode_function_data "borrow" (str signer ∷ str signer ∷ args.borrow_amount ∷ [])
  receiver ← abi_encode ("address" ∷ []) (str signer ∷ [])
  withdraw ← encode_function_data "withdrawTo" (
      str signer
      ∷ str args.src_lz_chain_id
      ∷ str receiver
      ∷ args.borrow_amount
      ∷ str "0x"
      ∷ str signer
      ∷ [])
  if withdraws args
      then pure (add_collateral ∷ borrow ∷ withdraw ∷ [])
      else pure (add_collateral ∷ borrow ∷ [])

-- The parameters of a withdrawal replace the others.
unfoldable pub adapter_params : OtherChainBorrowArgs → String → String → Task String
adapter_params args singularity plain =
    if withdraws args
    then solidity_pack ("uint16" ∷ "uint" ∷ "uint" ∷ "address" ∷ [])
        (num 2 ∷ num 2250000 ∷ args.airdrop_gas ∷ str singularity ∷ [])
    else pure plain

-- The payload whose fee is estimated, in its three parts.
unfoldable pub estimate_fees :
    String → OtherChainBorrowArgs → String → String → String → List String → String → Task ℕ
estimate_fees endpoint args singularity proxy signer actions params = do
  payload ←
      solidity_pack ("address" ∷ "address" ∷ "bytes[]" ∷ [])
        (str proxy ∷ str signer ∷ strs actions ∷ [])
  fee ← view (
      tx endpoint "estimateFees"
        (str args.dest_lz_chain_id ∷ str singularity ∷ str payload ∷ bool false ∷ str params ∷ []))
  require (type_error "gt") (number_of fee)

unfoldable pub other_chain_borrow : OtherChainBorrowArgs → Task (Unit {0})
other_chain_borrow args = do
  oft ← get_contract_at "ITapiocaOFT" (str args.oft)
  singularity ← get_contract_at "Singularity" (str args.singularity_destination)
  proxy ← get_contract_at "MarketsProxy" (str args.proxy)
  send (
      tx oft "sendToYB" (
        args.deposit_amount
        ∷ args.asset_id
        ∷ str args.dest_lz_chain_id
        ∷ str args.extra_gas
        ∷ str args.zro_address
        ∷ bool false
        ∷ value args.deposit_gas
        ∷ []))
  signer ← ask (λ w _. w.signer)
  actions ← borrow_actions args signer
  plain ← solidity_pack ("uint16" ∷ "uint256" ∷ []) (num 1 ∷ num 2250000 ∷ [])
  endpoint_address ← view (tx proxy "lzEndpoint" [])
  endpoint ← get_contract_at "ILayerZeroEndpoint" endpoint_address
  params ← adapter_params args singularity plain
  fee ← estimate_fees endpoint args singularity proxy signer actions params
  guard (is_le (compare fee args.singularity_gas)) (thrown "Script: not enough fees")
  send (
      tx proxy "executeOnChain" (
        str args.dest_lz_chain_id
        ∷ str singularity
        ∷ strs actions
        ∷ str params
        ∷ value (num args.singularity_gas)
        ∷ []))
