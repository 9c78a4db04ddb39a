-- ===== src/Message/Sp2TsResList.antt =====
-- core/message.cpp and core/message.h, `Sp2TsResList`: a super peer lists its resources.
use rabbitstreamer.Prelude.{
  ℕ, ◌+◌, ◌*◌, ◌%◌, ◌<◌, ◌^◌, ◌≡◌, List, ◌++◌, [], ◌∷◌, length, length-append, All, u32_mod, arith,
}
use rabbitstreamer.CoreStruct.{md5_len, uuid_length, BlockIntervalFits}
use rabbitstreamer.IntervalArray.{BlockInterval}
use rabbitstreamer.Streamer.{
  Writer, Reader, ◌>>◌, ◌>>=◌, finish, return, write_char, write_int, write_nbytes, read_int,
  read_nbytes, write_each, read_each,
}
use rabbitstreamer.Streamer.Bytes.{le, length-le, from_le-le_4}
use rabbitstreamer.Streamer.Laws.{
  Writes, Reads, then-Writes, finish-Writes, write_char-Writes, write_int-Writes,
  write_nbytes-Writes, write_each-Writes, bytes_of, bind-Reads, map-Reads, return-Reads,
  get_as_type-Reads, read_nbytes-Reads, read_each-Reads,
}
use rabbitstreamer.Message.{Message, header_size}
use rabbitstreamer.Message.Framing.{RoundTrips, RoundTrips-pack}

-- `struct resource_info`
pub record ResourceInfo : Type 0 where
  pub res_md5 : List ℕ
  pub block_interval : BlockInterval

abbrev pub ResourceInfoFits : ResourceInfo → Type 0
ResourceInfoFits r = (length r.res_md5 ≡ md5_len) × BlockIntervalFits r.block_interval

-- The body of the loop of `parse`, and of that of `pack_submsg`.
unfoldable pub read_resource : Reader ResourceInfo
read_resource = do
  res_md5 ← read_nbytes md5_len
  start ← read_int
  size ← read_int
  return (record { res_md5 = res_md5; block_interval = record { start = start; size = size } })

unfoldable pub write_resource : ResourceInfo → Writer
write_resource r = do
  write_nbytes r.res_md5
  write_int r.block_interval.start
  write_int r.block_interval.size

resource_bytes : ResourceInfo → List ℕ
resource_bytes r = r.res_md5 ++ (le 4 r.block_interval.start ++ le 4 r.block_interval.size)

write_resource-Writes : (r : ResourceInfo) → Writes (write_resource r) (resource_bytes r)
unfolding write_resource resource_bytes
write_resource-Writes r =
    then-Writes (write_nbytes-Writes r.res_md5) (
      then-Writes (write_int-Writes r.block_interval.start)
        (write_int-Writes r.block_interval.size))

read_resource-Reads :
    (r : ResourceInfo) → ResourceInfoFits r → Reads read_resource (resource_bytes r) r
unfolding read_resource resource_bytes
read_resource-Reads r h = bind-Reads _ (read_nbytes-Reads md5_len r.res_md5 h.0) (
    bind-Reads _
      (get_as_type-Reads 4 r.block_interval.start (from_le-le_4 r.block_interval.start h.1.0))
      (map-Reads _
        (get_as_type-Reads 4 r.block_interval.size (from_le-le_4 r.block_interval.size h.1.1))))

length-resources :
    (rs : List ResourceInfo)
    → All ResourceInfoFits rs
    → length (bytes_of resource_bytes rs) ≡ length rs * 40
unfolding resource_bytes
length-resources [] h = omega arith
length-resources (r ∷ rs) h =
    omega (arith, length-append {0}, length-le, h.0.0, length-resources rs h.1)

pub record Sp2TsResList : Type 0 where
  pub sp_uuid : List ℕ
  pub resource_count : ℕ
  pub res_info : List ResourceInfo

-- `SP2TS_RES_LIST`
abbrev pub tag : ℕ
tag = 0x22

unfoldable pub parse : Reader Sp2TsResList
parse = do
  sp_uuid ← read_nbytes uuid_length
  resource_count ← read_int
  res_info ← read_each read_resource resource_count
  return (record { sp_uuid = sp_uuid; resource_count = resource_count; res_info = res_info })

unfoldable pub pack_submsg : Sp2TsResList → Writer
pack_submsg m = do
  write_char tag
  write_nbytes m.sp_uuid
  write_int m.resource_count
  write_each write_resource m.resource_count m.res_info
  finish

unfoldable pub reserve_pack_size : Sp2TsResList → ℕ
reserve_pack_size m = (header_size + uuid_length + 4 + m.resource_count * 40) % u32_mod

abbrev pub message : Message Sp2TsResList
message = record { parse = parse; pack_submsg = pack_submsg; reserve_pack_size = reserve_pack_size }

-- The fields are in the range of their C types, and the arrays are as long as their count says.
pub record IsValid (m : Sp2TsResList) : Type 0 where
  pub sp_uuid : length m.sp_uuid ≡ uuid_length
  pub resource_count : m.resource_count < 2 ^ 32
  pub res_info : All ResourceInfoFits m.res_info
  pub length-res_info : length m.res_info ≡ m.resource_count
  pub small : header_size + uuid_length + 4 + m.resource_count * 40 < 2 ^ 31

body : Sp2TsResList → List ℕ
body m = m.sp_uuid ++ (le 4 m.resource_count ++ (bytes_of resource_bytes m.res_info ++ []))

pack_submsg-Writes : (m : Sp2TsResList) → IsValid m → Writes (pack_submsg m) (le 1 tag ++ body m)
unfolding pack_submsg body
pack_submsg-Writes m v = then-Writes (write_char-Writes tag) (
    then-Writes (write_nbytes-Writes m.sp_uuid) (
      then-Writes (write_int-Writes m.resource_count) (
        then-Writes
          (write_each-Writes write_resource resource_bytes write_resource-Writes m.resource_count
            m.res_info v.length-res_info)
          (finish-Writes))))

parse-Reads : (m : Sp2TsResList) → IsValid m → Reads parse (body m) m
unfolding parse body
parse-Reads m v = bind-Reads _ (read_nbytes-Reads uuid_length m.sp_uuid v.sp_uuid) (
    bind-Reads _
      (get_as_type-Reads 4 m.resource_count (from_le-le_4 m.resource_count v.resource_count))
      (bind-Reads _
        (read_each-Reads read_resource resource_bytes ResourceInfoFits read_resource-Reads
          m.resource_count m.res_info v.length-res_info v.res_info)
        (return-Reads m)))

reserve-body : (m : Sp2TsResList) → IsValid m → reserve_pack_size m ≡ header_size + length (body m)
unfolding reserve_pack_size body
reserve-body m v =
    omega (arith, length-append {0}, length-le, length-resources m.res_info v.res_info)

-- A list with fields in range comes back, as the same message under its own type, from the
-- packet that `pack` makes of it in any memory; the packet has exactly the reserved size.
pub Sp2TsResList-RoundTrips :
    (memory : ℕ → ℕ) (m : Sp2TsResList) → IsValid m → RoundTrips message memory tag m
Sp2TsResList-RoundTrips memory m v =
    RoundTrips-pack message memory m tag (body m) (pack_submsg-Writes m v) (parse-Reads m v)
      (reserve-body m v) (unfold reserve_pack_size in omega arith) (omega arith)
