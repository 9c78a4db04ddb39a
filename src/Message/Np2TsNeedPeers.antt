-- ===== src/Message/Np2TsNeedPeers.antt =====
-- core/message.cpp and core/message.h, `Np2TsNeedPeers`: a peer asks for more peers.
use rabbitstreamer.Prelude.{ℕ, ◌+◌, ◌<◌, ◌^◌, ◌≡◌, List, ◌++◌, [], length, length-append, arith}
use rabbitstreamer.CoreStruct.{uuid_length}
use rabbitstreamer.Streamer.{
  Writer, Reader, ◌>>◌, ◌>>=◌, finish, return, write_char, write_int, write_nbytes, read_int,
  read_nbytes,
}
use rabbitstreamer.Streamer.Bytes.{le, length-le, from_le-le_4}
use rabbitstreamer.Streamer.Laws.{
  Writes, Reads, then-Writes, finish-Writes, write_char-Writes, write_int-Writes,
  write_nbytes-Writes, bind-Reads, return-Reads, get_as_type-Reads, read_nbytes-Reads,
}
use rabbitstreamer.Message.{Message, header_size}
use rabbitstreamer.Message.Framing.{RoundTrips, RoundTrips-pack}

pub record Np2TsNeedPeers : Type 0 where
  pub uuid : List ℕ
  pub current_block : ℕ

-- `NP2TS_NEED_PEERS`
abbrev pub tag : ℕ
tag = 0x33

unfoldable pub parse : Reader Np2TsNeedPeers
parse = do
  uuid ← read_nbytes uuid_length
  current_block ← read_int
  return (record { uuid = uuid; current_block = current_block })

unfoldable pub pack_submsg : Np2TsNeedPeers → Writer
pack_submsg m = do write_char tag; write_nbytes m.uuid; write_int m.current_block; finish

unfoldable pub reserve_pack_size : Np2TsNeedPeers → ℕ
reserve_pack_size m = header_size + uuid_length + 4

abbrev pub message : Message Np2TsNeedPeers
message = record { parse = parse; pack_submsg = pack_submsg; reserve_pack_size = reserve_pack_size }

-- The fields are in the range of their C types, and the arrays are as long as their count says.
pub record IsValid (m : Np2TsNeedPeers) : Type 0 where
  pub uuid : length m.uuid ≡ uuid_length
  pub current_block : m.current_block < 2 ^ 32

body : Np2TsNeedPeers → List ℕ
body m = m.uuid ++ (le 4 m.current_block ++ [])

pack_submsg-Writes : (m : Np2TsNeedPeers) → Writes (pack_submsg m) (le 1 tag ++ body m)
unfolding pack_submsg body
pack_submsg-Writes m = then-Writes (write_char-Writes tag) (
    then-Writes (write_nbytes-Writes m.uuid)
      (then-Writes (write_int-Writes m.current_block) (finish-Writes)))

parse-Reads : (m : Np2TsNeedPeers) → IsValid m → Reads parse (body m) m
unfolding parse body
parse-Reads m v = bind-Reads _ (read_nbytes-Reads uuid_length m.uuid v.uuid) (
    bind-Reads _
      (get_as_type-Reads 4 m.current_block (from_le-le_4 m.current_block v.current_block))
      (return-Reads m))

reserve-body :
    (m : Np2TsNeedPeers) → IsValid m → reserve_pack_size m ≡ header_size + length (body m)
unfolding reserve_pack_size body
reserve-body m v = omega (arith, length-append {0}, length-le)

-- A request with fields in range comes back, as the same message under its own type, from the
-- packet that `pack` makes of it in any memory; the packet has exactly the reserved size.
pub Np2TsNeedPeers-RoundTrips :
    (memory : ℕ → ℕ) (m : Np2TsNeedPeers) → IsValid m → RoundTrips message memory tag m
Np2TsNeedPeers-RoundTrips memory m v =
    RoundTrips-pack message memory m tag (body m) (pack_submsg-Writes m) (parse-Reads m v)
      (reserve-body m v) (unfold reserve_pack_size in omega arith) (omega arith)
