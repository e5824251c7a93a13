-- ===== src/Exec/PacketTypes.antt =====
-- Tapioca-bar/tasks/configurePacketTypes.ts
pub mod Order
use tapioca.Base.{ℕ, String, true, List, [], ◌∷◌}
use tapioca.Hre.Types.{str, num, bool, Call}
use tapioca.Hre.Task.{Task, pure, get_contract_at, send, ◌>>=◌, ◌>>◌}
use tapioca.Setups.{tx}

abbrev pub packet_types : List ℕ
packet_types = 0 ∷ 1 ∷ 2 ∷ 770 ∷ 771 ∷ 772 ∷ 773 ∷ []

abbrev pub set_min_dst_gas : String → String → ℕ → Call
set_min_dst_gas ctr dst type = tx ctr "setMinDstGas" (str dst ∷ num type ∷ num 200000 ∷ [])

abbrev pub use_adapter_params : String → Call
use_adapter_params ctr = tx ctr "setUseCustomAdapterParams" (bool true ∷ [])

unfoldable pub configure_types : String → String → List ℕ → Task (Unit {0})
configure_types ctr dst [] = pure tt
configure_types ctr dst (p ∷ ps) = do
  send (set_min_dst_gas ctr dst p)
  send (use_adapter_params ctr)
  configure_types ctr dst ps

unfoldable pub configure_packet_types : String → String → String → Task (Unit {0})
configure_packet_types src dst_lz_chain_id contract = do
  ctr ← get_contract_at contract (str src)
  configure_types ctr dst_lz_chain_id packet_types
