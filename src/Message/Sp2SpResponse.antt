-- ===== src/Message/Sp2SpResponse.antt =====
-- core/message.cpp and core/message.h, `Sp2SpResponse`: a super peer sends a block. `parse` is a stub
-- in the source, which no caller uses.
use rabbitstreamer.Prelude.{
  ℕ, ◌+◌, ◌%◌, ◌<◌, ◌^◌, ◌≡◌, ◌==◌, if◌then◌else◌, List, ◌++◌, [], length, length-append, u32_mod,
  ok, arith,
}
use rabbitstreamer.CoreStruct.{md5_len}
use rabbitstreamer.Streamer.{
  Writer, Reader, ◌>>◌, finish, return, write_char, write_int, write_nbytes,
}
use rabbitstreamer.Streamer.Bytes.{le, length-le}
use rabbitstreamer.Streamer.Laws.{
  Writes, then-Writes, finish-Writes, write_char-Writes, write_int-Writes, write_nbytes-Writes,
  write_some-Writes,
}
use rabbitstreamer.Message.{Message, header_size, pack}
use rabbitstreamer.Message.Framing.{frame, pack-frame}

pub record Sp2SpResponse : Type 0 where
  pub resource_md5 : List ℕ
  pub block_id : ℕ
  pub block_size : ℕ
  pub block_data : List ℕ

-- `SP2SP_RESPONSE`
abbrev pub tag : ℕ
tag = 0x51

unfoldable pub pack_submsg : Sp2SpResponse → Writer
pack_submsg m = do
  write_char tag
  write_nbytes m.resource_md5
  write_int m.block_id
  write_int m.block_size
  if m.block_size == 0 then finish else write_nbytes m.block_data
  finish

unfoldable pub reserve_pack_size : Sp2SpResponse → ℕ
reserve_pack_size m = (header_size + md5_len + 4 + 4 + m.block_size) % u32_mod

unfoldable pub parse : Sp2SpResponse → Reader Sp2SpResponse
parse m = return m

abbrev pub message : Sp2SpResponse → Message Sp2SpResponse
message fresh = record {
  parse = parse fresh;
  pack_submsg = pack_submsg;
  reserve_pack_size = reserve_pack_size;
}

pub record IsValid (m : Sp2SpResponse) : Type 0 where
  pub resource_md5 : length m.resource_md5 ≡ md5_len
  pub length-block_data : length m.block_data ≡ m.block_size
  pub small : header_size + md5_len + 4 + 4 + m.block_size < 2 ^ 31

-- `|RESOURCE MD5(MD5_LEN)|block ID(UINT32))|block size(UINT32)|block data(...)|` (core/p2p_protocol.h)
abbrev pub wire : Sp2SpResponse → List ℕ
wire m = m.resource_md5 ++ (le 4 m.block_id ++ (le 4 m.block_size ++ (m.block_data ++ [])))

pack_submsg-Writes : (m : Sp2SpResponse) → IsValid m → Writes (pack_submsg m) (le 1 tag ++ wire m)
unfolding pack_submsg
pack_submsg-Writes m v = then-Writes (write_char-Writes tag) (
    then-Writes (write_nbytes-Writes m.resource_md5) (
      then-Writes (write_int-Writes m.block_id) (
        then-Writes (write_int-Writes m.block_size) (
          then-Writes (write_some-Writes m.block_size m.block_data v.length-block_data)
            finish-Writes))))

reserve-wire : (m : Sp2SpResponse) → IsValid m → reserve_pack_size m ≡ header_size + length (wire m)
unfolding reserve_pack_size
reserve-wire m v = omega (arith, length-append {0}, length-le)

-- `pack` makes of a block whose data is as long as its size says the packet that
-- core/p2p_protocol.h lays out, in any memory, where the packet is shorter than 2 ^ 31 bytes.
pub Sp2SpResponse-pack :
    (memory : ℕ → ℕ) (fresh m : Sp2SpResponse)
    → IsValid m
    → pack (message fresh) memory m ≡ ok (frame (reserve_pack_size m) tag (wire m))
Sp2SpResponse-pack memory fresh m v =
    pack-frame (message fresh) memory m tag (wire m) (pack_submsg-Writes m v) (reserve-wire m v)
