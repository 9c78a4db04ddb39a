-- ===== src/Message/Ts2NpWelcome.antt =====
-- core/message.cpp and core/message.h, `Ts2NpWelcome`: the tracker hands a peer its UUID and address.
use rabbitstreamer.Prelude.{ℕ, ◌+◌, ◌≡◌, List, ◌++◌, [], length, length-append, arith}
use rabbitstreamer.CoreStruct.{
  uuid_length, P2PAddress, p2p_address, read_object, write_object, P2PAddressFits,
}
use rabbitstreamer.CoreStruct.Layouts.{write_object-Writes, read_object-Reads, p2p_address-Returns}
use rabbitstreamer.Streamer.{
  Writer, Reader, ◌>>◌, ◌>>=◌, finish, return, write_char, write_nbytes, read_nbytes,
}
use rabbitstreamer.Streamer.Bytes.{le, length-le}
use rabbitstreamer.Streamer.Laws.{
  Writes, Reads, then-Writes, finish-Writes, write_char-Writes, write_nbytes-Writes, bind-Reads,
  return-Reads, read_nbytes-Reads,
}
use rabbitstreamer.Message.{Message, header_size}
use rabbitstreamer.Message.Framing.{RoundTrips, RoundTrips-pack}

pub record Ts2NpWelcome : Type 0 where
  pub uuid : List ℕ
  pub peer_ip : P2PAddress

-- `TS2NP_WELCOME`
abbrev pub tag : ℕ
tag = 0x36

unfoldable pub parse : Reader Ts2NpWelcome
parse = do
  uuid ← read_nbytes uuid_length
  peer_ip ← read_object p2p_address
  return (record { uuid = uuid; peer_ip = peer_ip })

unfoldable pub pack_submsg : Ts2NpWelcome → Writer
pack_submsg m = do write_char tag; write_nbytes m.uuid; write_object p2p_address m.peer_ip; finish

unfoldable pub reserve_pack_size : Ts2NpWelcome → ℕ
reserve_pack_size m = header_size + uuid_length + 16

abbrev pub message : Message Ts2NpWelcome
message = record { parse = parse; pack_submsg = pack_submsg; reserve_pack_size = reserve_pack_size }

-- The fields are in the range of their C types, and the arrays are as long as their count says.
pub record IsValid (m : Ts2NpWelcome) : Type 0 where
  pub uuid : length m.uuid ≡ uuid_length
  pub peer_ip : P2PAddressFits m.peer_ip

body : Ts2NpWelcome → List ℕ
body m = m.uuid ++ (p2p_address.to_bytes m.peer_ip ++ [])

pack_submsg-Writes : (m : Ts2NpWelcome) → Writes (pack_submsg m) (le 1 tag ++ body m)
unfolding pack_submsg body
pack_submsg-Writes m = then-Writes (write_char-Writes tag) (
    then-Writes (write_nbytes-Writes m.uuid)
      (then-Writes (write_object-Writes p2p_address m.peer_ip) (finish-Writes)))

parse-Reads : (m : Ts2NpWelcome) → IsValid m → Reads parse (body m) m
unfolding parse body
parse-Reads m v = bind-Reads _ (read_nbytes-Reads uuid_length m.uuid v.uuid) (
    bind-Reads _ (read_object-Reads p2p_address m.peer_ip (p2p_address-Returns m.peer_ip v.peer_ip))
      (return-Reads m))

reserve-body : (m : Ts2NpWelcome) → IsValid m → reserve_pack_size m ≡ header_size + length (body m)
unfolding reserve_pack_size body
reserve-body m v =
    omega (arith, length-append {0}, length-le, (p2p_address-Returns m.peer_ip v.peer_ip).full)

-- A welcome with fields in range comes back, as the same message under its own type, from the
-- packet that `pack` makes of it in any memory; the packet has exactly the reserved size.
pub Ts2NpWelcome-RoundTrips :
    (memory : ℕ → ℕ) (m : Ts2NpWelcome) → IsValid m → RoundTrips message memory tag m
Ts2NpWelcome-RoundTrips memory m v =
    RoundTrips-pack message memory m tag (body m) (pack_submsg-Writes m) (parse-Reads m v)
      (reserve-body m v) (unfold reserve_pack_size in omega arith) (omega arith)
