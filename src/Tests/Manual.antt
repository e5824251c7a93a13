-- ===== src/Tests/Manual.antt =====
-- Runs of the smaller manual test tasks, and of the views.
use tapioca.Base.{String, ◌≡◌, refl, some, [], ◌∷◌, find, false}
use tapioca.Hre.Types.{str, num, bool, value, sent, Event, thrown}
use tapioca.Hre.World.{World}
use tapioca.Hre.Task.{
  ok, err, ◌>>=◌, emit_if, guard, send, get_contract_at, view, abi_encode, encode_function_data,
}
use tapioca.Setups.{tx}
use tapioca.Utils.{get_big_bang_contract, get_singularity_contract}
use tapioca.Exec.CrossChain.{solidity_pack}
use tapioca.Tests.{world}
use tapioca.ManualTests.{
  PayloadArgs, address_pack, retry_stored, retry_payload, OtherChainBorrowArgs, borrow_actions,
  adapter_params, estimate_fees, other_chain_borrow, same_chain_borrow, SameChainBorrowArgs,
}
use tapioca.Views.{get_big_bang_totals}

abbrev payload_args : PayloadArgs
payload_args = record {
  src_chain_id = 10106;
  src_address = "0x1";
  dst_address = "0x2";
  lz_endpoint = "0x3";
  block_hash = "0x4";
}

-- A block with another sender's event before the one that is looked for.
abbrev stored_world : World
stored_world = record world {
  payload_events = λ _ _ _. some (
      record { src_chain_id = 10106; src_address = "0xOther"; payload = "0x1" }
      ∷ record { src_chain_id = 10106; src_address = "0xPP"; payload = "0x2" }
      ∷ []);
}

retry_payload_second : retry_payload payload_args stored_world [] ≡ (
  ok tt,
  sent (tx "LZEndpointMock" "retryPayload" (num 10106 ∷ str "0xPP" ∷ str "0x2" ∷ [])) ∷ [],
)
unfolding retry_payload retry_stored address_pack solidity_pack get_contract_at view send emit_if
    guard ◌>>=◌ find
retry_payload_second = refl

-- Without a payload that is stored, nothing is sent.
retry_payload_none :
    retry_payload payload_args (record world { view = λ _ _. some (bool false) }) [] ≡ (ok tt, [])
unfolding retry_payload retry_stored address_pack solidity_pack get_contract_at view send emit_if
    guard ◌>>=◌ find
retry_payload_none = refl

abbrev borrow_args : OtherChainBorrowArgs
borrow_args = record {
  src_lz_chain_id = "10106";
  dest_lz_chain_id = "10143";
  extra_gas = "1";
  asset_id = num 1;
  zro_address = "0x0";
  deposit_gas = num 4;
  singularity_gas = 6;
  airdrop_gas = num 2;
  deposit_amount = num 25;
  oft = "0x5";
  proxy = "0x6";
  singularity_destination = "0x7";
  collateral_share = num 9;
  borrow_amount = num 1;
  withdraw = 1;
}

abbrev deposit : Event
deposit = sent (
    tx "ITapiocaOFT" "sendToYB"
      (num 25 ∷ num 1 ∷ str "10143" ∷ str "1" ∷ str "0x0" ∷ bool false ∷ value (num 4) ∷ []))

-- The fees are looked at when the deposit has been sent.
other_chain_borrow_unpaid :
    other_chain_borrow borrow_args world [] ≡ (err (thrown "Script: not enough fees"), deposit ∷ [])
unfolding other_chain_borrow estimate_fees adapter_params borrow_actions solidity_pack
    get_contract_at view send emit_if guard ◌>>=◌ abi_encode encode_function_data
other_chain_borrow_unpaid = refl

same_chain_borrow_no_market :
    (args : SameChainBorrowArgs)
    → same_chain_borrow "" args (record world { is_address = λ _. false }) []
      ≡ (err (thrown "[-] Singularity address not valid"), [])
unfolding same_chain_borrow get_singularity_contract guard ◌>>=◌
same_chain_borrow_no_market args = refl

big_bang_totals_fail :
    (big_bang : String)
    → get_big_bang_totals big_bang world [] ≡ (err (thrown "getDeployment is not defined"), [])
unfolding get_big_bang_totals get_big_bang_contract get_contract_at guard ◌>>=◌
big_bang_totals_fail big_bang = refl
