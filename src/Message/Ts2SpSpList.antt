-- ===== src/Message/Ts2SpSpList.antt =====
-- core/message.cpp and core/message.h, `Ts2SpSpList`: the tracker hands out the addresses of super peers.
use rabbitstreamer.Prelude.{
  ℕ, ◌+◌, ◌*◌, ◌<◌, ◌^◌, ◌≡◌, List, ◌++◌, [], length, length-append, All, ◌==◌, if◌then◌else◌,
  arith,
}
use rabbitstreamer.CoreStruct.{NetAddress, net_address, read_object, write_object, NetAddressFits}
use rabbitstreamer.CoreStruct.Layouts.{
  write_object-Writes, read_object-Reads, net_address-Returns, net_address-length,
}
use rabbitstreamer.Streamer.{
  Writer, Reader, ◌>>◌, ◌>>=◌, finish, return, write_char, read_char, write_each, read_each,
}
use rabbitstreamer.Streamer.Bytes.{le, length-le, from_le-le_1}
use rabbitstreamer.Streamer.Laws.{
  Writes, Reads, then-Writes, finish-Writes, write_char-Writes, write_each-Writes, bytes_of,
  length-bytes_of, bind-Reads, return-Reads, get_as_type-Reads, read_some-Reads,
}
use rabbitstreamer.Message.{Message, header_size}
use rabbitstreamer.Message.Framing.{RoundTrips, RoundTrips-pack}

pub record Ts2SpSpList : Type 0 where
  pub count : ℕ
  pub addr : List NetAddress

-- `TS2SP_SP_LIST`
abbrev pub tag : ℕ
tag = 0x27

unfoldable pub parse : Reader Ts2SpSpList
parse = do
  count ← read_char
  addr ← if count == 0 then return [] else read_each (read_object net_address) count
  return (record { count = count; addr = addr })

unfoldable pub pack_submsg : Ts2SpSpList → Writer
pack_submsg m = do
  write_char tag
  write_char m.count
  write_each (write_object net_address) m.count m.addr
  finish

unfoldable pub reserve_pack_size : Ts2SpSpList → ℕ
reserve_pack_size m = header_size + 1 + m.count * net_address.sizeof

abbrev pub message : Message Ts2SpSpList
message = record { parse = parse; pack_submsg = pack_submsg; reserve_pack_size = reserve_pack_size }

-- The fields are in the range of their C types, and the arrays are as long as their count says.
pub record IsValid (m : Ts2SpSpList) : Type 0 where
  pub count : m.count < 2 ^ 8
  pub addr : All NetAddressFits m.addr
  pub length-addr : length m.addr ≡ m.count

body : Ts2SpSpList → List ℕ
body m = le 1 m.count ++ (bytes_of net_address.to_bytes m.addr ++ [])

pack_submsg-Writes : (m : Ts2SpSpList) → IsValid m → Writes (pack_submsg m) (le 1 tag ++ body m)
unfolding pack_submsg body
pack_submsg-Writes m v = then-Writes (write_char-Writes tag) (
    then-Writes (write_char-Writes m.count) (
      then-Writes
        (write_each-Writes (write_object net_address) net_address.to_bytes
          (write_object-Writes net_address) m.count m.addr v.length-addr)
        (finish-Writes)))

parse-Reads : (m : Ts2SpSpList) → IsValid m → Reads parse (body m) m
unfolding parse body
parse-Reads m v = bind-Reads _ (get_as_type-Reads 1 m.count (from_le-le_1 m.count v.count)) (
    bind-Reads _
      (read_some-Reads (read_object net_address) net_address.to_bytes NetAddressFits
        (λ a h. read_object-Reads net_address a (net_address-Returns a h)) m.count m.addr
        v.length-addr v.addr)
      (return-Reads m))

reserve-body : (m : Ts2SpSpList) → IsValid m → reserve_pack_size m ≡ header_size + length (body m)
unfolding reserve_pack_size body
reserve-body m v = omega (
  arith,
  length-append {0},
  length-le,
  length-bytes_of net_address.to_bytes net_address.sizeof net_address-length m.addr,
)

-- A list with fields in range comes back, as the same message under its own type, from the
-- packet that `pack` makes of it in any memory; the packet has exactly the reserved size.
pub Ts2SpSpList-RoundTrips :
    (memory : ℕ → ℕ) (m : Ts2SpSpList) → IsValid m → RoundTrips message memory tag m
Ts2SpSpList-RoundTrips memory m v =
    RoundTrips-pack message memory m tag (body m) (pack_submsg-Writes m v) (parse-Reads m v)
      (reserve-body m v) (unfold reserve_pack_size in omega arith) (omega arith)
