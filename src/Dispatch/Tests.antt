-- ===== src/Dispatch/Tests.antt =====
-- The tracker takes packets for messages, on concrete ones.
use rabbitstreamer.Prelude.{ℕ, ◌≡◌, refl, List, replicate, some, ok, arith}
use rabbitstreamer.CoreStruct.{uuid_length}
use rabbitstreamer.Message.Np2TsNeedPeers
use rabbitstreamer.Message.Sp2TsLogout
use rabbitstreamer.Dispatch.{
  NpMessage, need_peers, SpMessage, leave, handle_np_packet, handle_sp_packet,
}
use rabbitstreamer.Dispatch.Peers.{np_pack, handle_np_packet-np_pack}
use rabbitstreamer.Dispatch.SuperPeers.{sp_pack, taken_for, handle_sp_packet-sp_pack}

-- What a new array holds.
abbrev stale : ℕ → ℕ
stale i = 204

abbrev request : NpMessage
request = need_peers (record { uuid = replicate uuid_length 7; current_block = 5 })

request-IsValid :
    Np2TsNeedPeers.IsValid (record { uuid = replicate uuid_length 7; current_block = 5 })
request-IsValid = record { uuid = refl; current_block = omega arith }

handle_np_packet-np_pack_example :
    (payload : List ℕ) × (np_pack stale request ≡ ok payload)
    × ((behind : List ℕ) → handle_np_packet payload behind ≡ ok (some request))
handle_np_packet-np_pack_example = handle_np_packet-np_pack stale request request-IsValid

abbrev goodbye : SpMessage
goodbye = leave (record { sp_uuid = replicate uuid_length 7 })

goodbye-IsValid : Sp2TsLogout.IsValid (record { sp_uuid = replicate uuid_length 7 })
goodbye-IsValid = record { sp_uuid = refl }

handle_sp_packet-sp_pack_example :
    (payload : List ℕ) × (sp_pack stale goodbye ≡ ok payload)
    × ((behind : List ℕ) → handle_sp_packet payload behind ≡ ok (some (taken_for goodbye)))
handle_sp_packet-sp_pack_example = handle_sp_packet-sp_pack stale goodbye goodbye-IsValid
