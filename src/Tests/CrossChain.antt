-- ===== src/Tests/CrossChain.antt =====
-- Runs of the tasks that send over LayerZero.
use tapioca.Base.{String, ◌≡◌, refl, some, [], ◌∷◌, arith}
use tapioca.Hre.Types.{num, TContract, ChainInfo, Trace, no_meta}
use tapioca.Hre.World.{World}
use tapioca.Hre.Task.{ok, view}
use tapioca.Tests.{world, entry, testnet_info}
use Prim.Native.Nat.{◌-◌}
use Prim.Native.String.{◌++◌ as ◌+++◌, len}
use tapioca.Exec.CrossChain.{after_0x, bytes32_of, airdrop_gas, AirdropArgs, zeros}
use tapioca.Exec.CrossChain.Padding.{bytes32_of-length}
use tapioca.Exec.MockSwapper.{fill_mock_swapper}

-- The deployer of a full address.
abbrev signer_0 : String
signer_0 = "0xEAF9f533871B07B151883908B4Fb6eeF4b51A95F"

abbrev funded_world : World
funded_world = record world { deployer = signer_0; signer = signer_0; view = λ _ _. some (num 0) }

abbrev airdrop_args : AirdropArgs
airdrop_args = record { amount = "1"; dst_chain = "5"; recursive = some "2" }

digits_of_signer : after_0x signer_0 ≡ some "EAF9f533871B07B151883908B4Fb6eeF4b51A95F"
unfolding after_0x
digits_of_signer = refl

bytes32_of-length_example :
    (to : String) × (bytes32_of signer_0 world [] ≡ (ok to, []))
    × (len to ≡ 66)
    × (to
        ≡ "0x"
          +++ (zeros (64 - len "EAF9f533871B07B151883908B4Fb6eeF4b51A95F")
              +++ "EAF9f533871B07B151883908B4Fb6eeF4b51A95F"))
bytes32_of-length_example =
    bytes32_of-length signer_0 "EAF9f533871B07B151883908B4Fb6eeF4b51A95F" world [] digits_of_signer
      (omega arith)

abbrev airdrop_trace : Trace
airdrop_trace = (airdrop_gas airdrop_args funded_world []).1

-- A chain that hosts the TOFT and is not the main chain.
abbrev host_info : ChainInfo
host_info = record testnet_info { name = "goerli" }

abbrev toft_entry : TContract
toft_entry = record { name = "TapiocaOFT T"; address = "0x8"; meta = no_meta }

abbrev swapper_world : World
swapper_world = record world {
  signer = signer_0;
  get_chain_by = λ _. some host_info;
  load_global = λ _ _ _ _. toft_entry ∷ [];
  load_local = λ _ _ _. entry "YieldBox" ∷ entry "MockSwapper" ∷ [];
}

abbrev swapper_trace : Trace
swapper_trace = (fill_mock_swapper "0x8" "3" swapper_world []).1
