-- ===== src/SpTracker/Register.antt =====
-- What protocol/tracker/tracker_sp_connector.cpp answers to a super peer that registers.
use rabbitstreamer.Prelude.{
  ◌++◌, length, ℕ, ◌≡◌, ◌==◌, if◌then◌else◌, List, some, ok, take_all, arith,
}
use rabbitstreamer.CoreStruct.{uuid_length}
use rabbitstreamer.StreamManager.{StreamManager, str_rank, get_node}
use rabbitstreamer.StreamManager.Laws.{IsValid, get_node-insert_channel}
use rabbitstreamer.Message.{receive}
use rabbitstreamer.Message.Sp2TsRegister.{Sp2TsRegister}
use rabbitstreamer.Message.Ts2SpWelcome
use rabbitstreamer.Uuid.{uuid_text}
use rabbitstreamer.Uuid.Laws.{IsSmall, generate_uuid_small}
use rabbitstreamer.SpTracker.{Outside, packet, register_node, send_welcome, get_register}

-- Where `rand` returns less than 65536 each time and all arrays are as long as they say, a super
-- peer that registers is answered with a packet of 21 bytes that it receives as the welcome with its
-- new UUID, whatever its memory holds behind the packet.
-- It is then found under that UUID, with its port, address and service, the time of the call, and
-- no resources; all other super peers are what they were, and all arrays are as long as they say.
pub get_register_lem :
    (o : Outside) (m : Sp2TsRegister) (s : StreamManager)
    → IsSmall o.rand
    → IsValid s
    → (s' : StreamManager) × (payload : List ℕ) × (get_register o m s ≡ ok (s', packet payload))
      × ((behind : List ℕ)
          → receive Ts2SpWelcome.message (payload ++ behind)
            ≡ ok (Ts2SpWelcome.tag, record { sp_uuid = uuid_text o.rand }))
      × (length payload ≡ 21)
      × IsValid s'
      × ((other : List ℕ)
          → get_node other s' ≡ (
              if str_rank other == str_rank (uuid_text o.rand)
              then some (register_node o m)
              else get_node other s))
unfolding get_register send_welcome register_node
get_register_lem o m s small v =
    let (made, sized) = generate_uuid_small o.rand small in
    let t =
      Ts2SpWelcome.Ts2SpWelcome-RoundTrips o.memory (record { sp_uuid = uuid_text o.rand })
        (record { sp_uuid = sized }) in
    let (s', inserted, v', self) =
      get_node-insert_channel o.now (uuid_text o.rand) (uuid_text o.rand) (register_node o m) s v
        (omega arith) in
    (
      s',
      t.payload,
      ground (arith, made, inserted, take_all uuid_length (uuid_text o.rand), t.packed),
      t.received,
      unfold Ts2SpWelcome.reserve_pack_size in omega (arith, t.sized),
      v',
      λ other.
          let (s'', inserted', v'', found) =
            get_node-insert_channel o.now (uuid_text o.rand) other (register_node o m) s v
              (omega arith) in
          ground (arith, inserted, inserted', found),
    )
