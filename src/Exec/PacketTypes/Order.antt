-- ===== src/Exec/PacketTypes/Order.antt =====
-- The transactions of configurePacketTypes.ts.
use tapioca.Base.{ℕ, String, ◌≡◌, refl, ◌⊎◌, some, List, [], ◌∷◌}
use tapioca.Hre.Types.{str, Call, Trace}
use tapioca.Hre.World.{World}
use tapioca.Hre.Task.{ok, send_all, get_contract_at, ◌>>=◌}
use tapioca.Hre.Sends.{reverse_onto, Refusal, send_all-outcome}
use tapioca.Exec.PacketTypes.{
  packet_types, set_min_dst_gas, use_adapter_params, configure_types, configure_packet_types,
}

-- Two calls for each type.
abbrev pub packet_calls : String → String → List ℕ → List Call
packet_calls ctr dst [] = []
packet_calls ctr dst (p ∷ ps) =
    set_min_dst_gas ctr dst p ∷ use_adapter_params ctr ∷ packet_calls ctr dst ps

configure_types-send_all :
    (ctr dst : String) (ps : List ℕ)
    → configure_types ctr dst ps ≡ send_all (packet_calls ctr dst ps)
unfolding configure_types send_all
configure_types-send_all ctr dst [] = refl
configure_types-send_all ctr dst (p ∷ ps) = rw (configure_types-send_all ctr dst ps)

-- On a contract that is found, the task sends the two calls of each of the seven packet types in
-- the order of the list, all fourteen or those before the first that is refused.
pub configure_packet_types-outcome :
    (src dst contract ctr : String) (w : World) (t : Trace)
    → w.contract_at contract (str src) ≡ some ctr
    → let calls = packet_calls ctr dst packet_types in
      let run = configure_packet_types src dst contract w t in
      (run ≡ (ok tt, reverse_onto calls t)) ⊎ Refusal calls w t run
unfolding configure_packet_types get_contract_at ◌>>=◌
configure_packet_types-outcome src dst contract ctr w t h =
    let calls = packet_calls ctr dst packet_types in
    rw (h, configure_types-send_all ctr dst packet_types) (send_all-outcome calls w t)
