-- ===== src/Message/Ts2NpPeers.antt =====
-- core/message.cpp and core/message.h, `Ts2NpPeers`: the tracker hands a peer super peers and peers.
use rabbitstreamer.Prelude.{
  out_of_bounds, fault, ℕ, ◌+◌, ◌*◌, ◌<◌, ◌^◌, ◌≡◌, List, ◌++◌, [], length, length-append, All,
  arith,
}
use rabbitstreamer.CoreStruct.{
  NetAddress, PeerInfoWithAddr, net_address, peer_info_with_addr, read_object, write_object,
  NetAddressFits, PeerInfoWithAddrFits,
}
use rabbitstreamer.CoreStruct.Layouts.{
  write_object-Writes, read_object-Reads, net_address-Returns, peer_info_with_addr-Returns,
  net_address-length, peer_info_with_addr-length,
}
use rabbitstreamer.Streamer.{
  Writer, Reader, ◌>>◌, ◌>>=◌, finish, return, write_char, read_char, write_each, read_each,
}
use rabbitstreamer.Streamer.Bytes.{le, length-le, from_le-le_1}
use rabbitstreamer.Streamer.Laws.{
  Writes, Reads, then-Writes, finish-Writes, write_char-Writes, write_each-Writes, bytes_of,
  length-bytes_of, bind-Reads, return-Reads, get_as_type-Reads, read_each-Reads,
}
use rabbitstreamer.Message.{pack, Message, header_size}
use rabbitstreamer.Streamer.Faults.{Fails, then-Fails, fault-Fails, write_each-Fails}
use rabbitstreamer.Message.Framing.{pack-Fails, RoundTrips, RoundTrips-pack}

pub record Ts2NpPeers : Type 0 where
  pub sp_list_size : ℕ
  pub sp_addr : List NetAddress
  pub peer_list_size : ℕ
  pub peer_addr : List PeerInfoWithAddr
  pub np_addr : NetAddress

-- `TS2NP_PEERS`
abbrev pub tag : ℕ
tag = 0x37

unfoldable pub parse : Reader Ts2NpPeers
parse = do
  sp_list_size ← read_char
  sp_addr ← read_each (read_object net_address) sp_list_size
  peer_list_size ← read_char
  peer_addr ← read_each (read_object peer_info_with_addr) peer_list_size
  np_addr ← read_object net_address
  return (record {
    sp_list_size = sp_list_size;
    sp_addr = sp_addr;
    peer_list_size = peer_list_size;
    peer_addr = peer_addr;
    np_addr = np_addr;
  })

unfoldable pub pack_submsg : Ts2NpPeers → Writer
pack_submsg m = do
  write_char tag
  write_char m.sp_list_size
  write_each (write_object net_address) m.sp_list_size m.sp_addr
  write_char m.peer_list_size
  write_each (write_object peer_info_with_addr) m.sp_list_size m.peer_addr
  write_object net_address m.np_addr
  finish

unfoldable pub reserve_pack_size : Ts2NpPeers → ℕ
reserve_pack_size m =
    header_size + 1 + m.sp_list_size * 8 + 1 + m.peer_list_size * 20 + net_address.sizeof

abbrev pub message : Message Ts2NpPeers
message = record { parse = parse; pack_submsg = pack_submsg; reserve_pack_size = reserve_pack_size }

-- The fields are in the range of their C types, and the arrays are as long as their count says.
pub record IsValid (m : Ts2NpPeers) : Type 0 where
  pub sp_list_size : m.sp_list_size < 2 ^ 8
  pub sp_addr : All NetAddressFits m.sp_addr
  pub length-sp_addr : length m.sp_addr ≡ m.sp_list_size
  pub peer_list_size : m.peer_list_size < 2 ^ 8
  pub peer_addr : All PeerInfoWithAddrFits m.peer_addr
  pub length-peer_addr : length m.peer_addr ≡ m.peer_list_size
  pub np_addr : NetAddressFits m.np_addr
  pub balanced : m.sp_list_size ≡ m.peer_list_size

body : Ts2NpPeers → List ℕ
body m =
    le 1 m.sp_list_size
    ++ (bytes_of net_address.to_bytes m.sp_addr
        ++ (le 1 m.peer_list_size
            ++ (bytes_of peer_info_with_addr.to_bytes m.peer_addr
                ++ (net_address.to_bytes m.np_addr ++ []))))

pack_submsg-Writes : (m : Ts2NpPeers) → IsValid m → Writes (pack_submsg m) (le 1 tag ++ body m)
unfolding pack_submsg body
pack_submsg-Writes m v = then-Writes (write_char-Writes tag) (
    then-Writes (write_char-Writes m.sp_list_size) (
      then-Writes
        (write_each-Writes (write_object net_address) net_address.to_bytes
          (write_object-Writes net_address) m.sp_list_size m.sp_addr v.length-sp_addr)
        (then-Writes (write_char-Writes m.peer_list_size) (
          then-Writes
            (write_each-Writes (write_object peer_info_with_addr) peer_info_with_addr.to_bytes
              (write_object-Writes peer_info_with_addr) m.sp_list_size m.peer_addr (omega arith))
            (then-Writes (write_object-Writes net_address m.np_addr) (finish-Writes))))))

parse-Reads : (m : Ts2NpPeers) → IsValid m → Reads parse (body m) m
unfolding parse body
parse-Reads m v =
    bind-Reads _ (get_as_type-Reads 1 m.sp_list_size (from_le-le_1 m.sp_list_size v.sp_list_size)) (
      bind-Reads _
        (read_each-Reads (read_object net_address) net_address.to_bytes NetAddressFits
          (λ a h. read_object-Reads net_address a (net_address-Returns a h)) m.sp_list_size
          m.sp_addr v.length-sp_addr v.sp_addr)
        (bind-Reads _
          (get_as_type-Reads 1 m.peer_list_size (from_le-le_1 m.peer_list_size v.peer_list_size))
          (bind-Reads _
            (read_each-Reads (read_object peer_info_with_addr) peer_info_with_addr.to_bytes
              PeerInfoWithAddrFits
              (λ a h. read_object-Reads peer_info_with_addr a (peer_info_with_addr-Returns a h))
              m.peer_list_size m.peer_addr v.length-peer_addr v.peer_addr)
            (bind-Reads _
              (read_object-Reads net_address m.np_addr (net_address-Returns m.np_addr v.np_addr))
              (return-Reads m)))))

reserve-body : (m : Ts2NpPeers) → IsValid m → reserve_pack_size m ≡ header_size + length (body m)
unfolding reserve_pack_size body
reserve-body m v = omega (
  arith,
  length-append {0},
  length-le,
  length-bytes_of net_address.to_bytes net_address.sizeof net_address-length m.sp_addr,
  length-bytes_of peer_info_with_addr.to_bytes peer_info_with_addr.sizeof peer_info_with_addr-length
      m.peer_addr,
  (net_address-Returns m.np_addr v.np_addr).full,
)

-- A list with fields in range comes back, as the same message under its own type, from the
-- packet that `pack` makes of it in any memory; the packet has exactly the reserved size.
pub Ts2NpPeers-RoundTrips :
    (memory : ℕ → ℕ) (m : Ts2NpPeers) → IsValid m → RoundTrips message memory tag m
Ts2NpPeers-RoundTrips memory m v =
    RoundTrips-pack message memory m tag (body m) (pack_submsg-Writes m v) (parse-Reads m v)
      (reserve-body m v) (unfold reserve_pack_size in omega arith) (omega arith)

-- What `reserve_pack_size` leaves for the loop over the peers.
room : Ts2NpPeers → ℕ
room m =
    length (le 1 tag)
    + (length (le 1 m.sp_list_size)
        + (length (bytes_of net_address.to_bytes m.sp_addr)
            + (length (le 1 m.peer_list_size)
                + (length (bytes_of peer_info_with_addr.to_bytes m.peer_addr) + 8))))

pack_submsg-Fails :
    (m : Ts2NpPeers)
    → length m.sp_addr ≡ m.sp_list_size
    → length m.peer_addr ≡ m.peer_list_size
    → m.peer_list_size < m.sp_list_size
    → Fails (pack_submsg m) (room m) out_of_bounds
unfolding pack_submsg room
pack_submsg-Fails m hs hp few = then-Fails (write_char-Writes tag) (
    then-Fails (write_char-Writes m.sp_list_size) (
      then-Fails
        (write_each-Writes (write_object net_address) net_address.to_bytes
          (write_object-Writes net_address) m.sp_list_size m.sp_addr hs)
        (then-Fails (write_char-Writes m.peer_list_size) (
          fault-Fails _ (
            write_each-Fails (write_object peer_info_with_addr) peer_info_with_addr.to_bytes
              (write_object-Writes peer_info_with_addr) m.sp_list_size m.peer_addr 8
              (omega arith))))))

reserve-room :
    (m : Ts2NpPeers)
    → length m.sp_addr ≡ m.sp_list_size
    → length m.peer_addr ≡ m.peer_list_size
    → reserve_pack_size m ≡ 4 + room m
unfolding reserve_pack_size room
reserve-room m hs hp = omega (
  arith,
  length-le,
  length-bytes_of net_address.to_bytes net_address.sizeof net_address-length m.sp_addr,
  length-bytes_of peer_info_with_addr.to_bytes peer_info_with_addr.sizeof peer_info_with_addr-length
      m.peer_addr,
)

-- Where fewer peers than super peers are listed, `pack` reads past the array of the peers, since the
-- loop over it counts to `sp_list_size`: here the arrays are as long as their counts say.
pub Ts2NpPeers-pack_faults :
    (memory : ℕ → ℕ) (m : Ts2NpPeers)
    → length m.sp_addr ≡ m.sp_list_size
    → length m.peer_addr ≡ m.peer_list_size
    → m.peer_list_size < m.sp_list_size
    → pack message memory m ≡ fault out_of_bounds
Ts2NpPeers-pack_faults memory m hs hp few =
    pack-Fails message memory m _ out_of_bounds (pack_submsg-Fails m hs hp few)
      (reserve-room m hs hp)
