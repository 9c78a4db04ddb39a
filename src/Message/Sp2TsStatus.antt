-- ===== src/Message/Sp2TsStatus.antt =====
-- core/message.cpp and core/message.h, `Sp2TsStatus`: a super peer reports its load.
use rabbitstreamer.Prelude.{ℕ, ◌+◌, ◌<◌, ◌^◌, ◌≡◌, List, ◌++◌, [], length, length-append, arith}
use rabbitstreamer.CoreStruct.{uuid_length, float32, read_object, write_object}
use rabbitstreamer.CoreStruct.Layouts.{write_object-Writes, read_object-Reads, float32-Returns}
use rabbitstreamer.Streamer.{
  Writer, Reader, ◌>>◌, ◌>>=◌, finish, return, write_char, write_int, write_short, write_nbytes,
  read_char, read_int, read_short, read_nbytes,
}
use rabbitstreamer.Streamer.Bytes.{le, length-le, from_le-le_1, from_le-le_2, from_le-le_4}
use rabbitstreamer.Streamer.Laws.{
  Writes, Reads, then-Writes, finish-Writes, write_char-Writes, write_int-Writes,
  write_short-Writes, write_nbytes-Writes, bind-Reads, return-Reads, get_as_type-Reads,
  read_nbytes-Reads,
}
use rabbitstreamer.Message.{Message, header_size}
use rabbitstreamer.Message.Framing.{RoundTrips, RoundTrips-pack}

pub record Sp2TsStatus : Type 0 where
  pub sp_uuid : List ℕ
  pub resource_count : ℕ
  pub connection_num : ℕ
  pub bandwidth : ℕ
  pub exceed_max_connection : ℕ

-- `SP2TS_STATUS`
abbrev pub tag : ℕ
tag = 0x21

unfoldable pub parse : Reader Sp2TsStatus
parse = do
  sp_uuid ← read_nbytes uuid_length
  resource_count ← read_int
  connection_num ← read_short
  bandwidth ← read_object float32
  exceed_max_connection ← read_char
  return (record {
    sp_uuid = sp_uuid;
    resource_count = resource_count;
    connection_num = connection_num;
    bandwidth = bandwidth;
    exceed_max_connection = exceed_max_connection;
  })

unfoldable pub pack_submsg : Sp2TsStatus → Writer
pack_submsg m = do
  write_char tag
  write_nbytes m.sp_uuid
  write_int m.resource_count
  write_short m.connection_num
  write_object float32 m.bandwidth
  write_char m.exceed_max_connection
  finish

unfoldable pub reserve_pack_size : Sp2TsStatus → ℕ
reserve_pack_size m = header_size + uuid_length + 4 + 2 + 4 + 1

abbrev pub message : Message Sp2TsStatus
message = record { parse = parse; pack_submsg = pack_submsg; reserve_pack_size = reserve_pack_size }

-- The fields are in the range of their C types, and the arrays are as long as their count says.
pub record IsValid (m : Sp2TsStatus) : Type 0 where
  pub sp_uuid : length m.sp_uuid ≡ uuid_length
  pub resource_count : m.resource_count < 2 ^ 32
  pub connection_num : m.connection_num < 2 ^ 16
  pub bandwidth : m.bandwidth < 2 ^ 32
  pub exceed_max_connection : m.exceed_max_connection < 2 ^ 8

body : Sp2TsStatus → List ℕ
body m =
    m.sp_uuid
    ++ (le 4 m.resource_count
        ++ (le 2 m.connection_num
            ++ (float32.to_bytes m.bandwidth ++ (le 1 m.exceed_max_connection ++ []))))

pack_submsg-Writes : (m : Sp2TsStatus) → Writes (pack_submsg m) (le 1 tag ++ body m)
unfolding pack_submsg body
pack_submsg-Writes m = then-Writes (write_char-Writes tag) (
    then-Writes (write_nbytes-Writes m.sp_uuid) (
      then-Writes (write_int-Writes m.resource_count) (
        then-Writes (write_short-Writes m.connection_num) (
          then-Writes (write_object-Writes float32 m.bandwidth)
            (then-Writes (write_char-Writes m.exceed_max_connection) (finish-Writes))))))

parse-Reads : (m : Sp2TsStatus) → IsValid m → Reads parse (body m) m
unfolding parse body
parse-Reads m v = bind-Reads _ (read_nbytes-Reads uuid_length m.sp_uuid v.sp_uuid) (
    bind-Reads _
      (get_as_type-Reads 4 m.resource_count (from_le-le_4 m.resource_count v.resource_count))
      (bind-Reads _
        (get_as_type-Reads 2 m.connection_num (from_le-le_2 m.connection_num v.connection_num))
        (bind-Reads _
          (read_object-Reads float32 m.bandwidth (float32-Returns m.bandwidth v.bandwidth))
          (bind-Reads _
            (get_as_type-Reads 1 m.exceed_max_connection
              (from_le-le_1 m.exceed_max_connection v.exceed_max_connection))
            (return-Reads m)))))

reserve-body : (m : Sp2TsStatus) → IsValid m → reserve_pack_size m ≡ header_size + length (body m)
unfolding reserve_pack_size body
reserve-body m v =
    omega (arith, length-append {0}, length-le, (float32-Returns m.bandwidth v.bandwidth).full)

-- A status with fields in range comes back, as the same message under its own type, from the
-- packet that `pack` makes of it in any memory; the packet has exactly the reserved size.
pub Sp2TsStatus-RoundTrips :
    (memory : ℕ → ℕ) (m : Sp2TsStatus) → IsValid m → RoundTrips message memory tag m
Sp2TsStatus-RoundTrips memory m v =
    RoundTrips-pack message memory m tag (body m) (pack_submsg-Writes m) (parse-Reads m v)
      (reserve-body m v) (unfold reserve_pack_size in omega arith) (omega arith)
