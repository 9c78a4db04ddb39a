-- ===== src/Message/Sp2SpMediatype.antt =====
-- core/message.cpp and core/message.h, `Sp2SpMediatype`: a super peer sends the media header of a
-- channel. `parse` is a stub in the source, which no caller uses.
use rabbitstreamer.Prelude.{
  ℕ, ◌+◌, ◌%◌, ◌<◌, ◌^◌, ◌≡◌, ◌==◌, if◌then◌else◌, List, ◌++◌, [], length, length-append, u32_mod,
  ok, arith,
}
use rabbitstreamer.CoreStruct.{md5_len}
use rabbitstreamer.Streamer.{
  Writer, Reader, ◌>>◌, finish, return, write_char, write_int, write_nbytes,
}
use rabbitstreamer.Streamer.Bytes.{le, length-le}
use rabbitstreamer.Streamer.Laws.{
  Writes, then-Writes, finish-Writes, write_char-Writes, write_int-Writes, write_nbytes-Writes,
  write_some-Writes,
}
use rabbitstreamer.Message.{Message, header_size, pack}
use rabbitstreamer.Message.Framing.{frame, pack-frame}

pub record Sp2SpMediatype : Type 0 where
  pub resource_md5 : List ℕ
  pub block_start_id : ℕ
  pub block_num : ℕ
  pub media_type_size : ℕ
  pub media_type : List ℕ
  pub program_name_size : ℕ
  pub program_name : List ℕ
  pub program_time : ℕ
  pub channel_name_size : ℕ
  pub channel_name : List ℕ

-- `SP2SP_MEDIATYPE`
abbrev pub tag : ℕ
tag = 0x52

unfoldable pub pack_submsg : Sp2SpMediatype → Writer
pack_submsg m = do
  write_char tag
  write_nbytes m.resource_md5
  write_int m.block_start_id
  write_int m.block_num
  write_int m.media_type_size
  if m.media_type_size == 0 then finish else write_nbytes m.media_type
  write_char m.program_name_size
  if m.program_name_size == 0 then finish else write_nbytes m.program_name
  write_int m.program_time
  write_char m.channel_name_size
  if m.channel_name_size == 0 then finish else write_nbytes m.channel_name
  finish

unfoldable pub reserve_pack_size : Sp2SpMediatype → ℕ
reserve_pack_size m =
    (header_size + md5_len + 4 + 4 + 4 + m.media_type_size + 1 + m.program_name_size + 4 + 1
      + m.channel_name_size)
    % u32_mod

unfoldable pub parse : Sp2SpMediatype → Reader Sp2SpMediatype
parse m = return m

abbrev pub message : Sp2SpMediatype → Message Sp2SpMediatype
message fresh = record {
  parse = parse fresh;
  pack_submsg = pack_submsg;
  reserve_pack_size = reserve_pack_size;
}

pub record IsValid (m : Sp2SpMediatype) : Type 0 where
  pub resource_md5 : length m.resource_md5 ≡ md5_len
  pub length-media_type : length m.media_type ≡ m.media_type_size
  pub length-program_name : length m.program_name ≡ m.program_name_size
  pub length-channel_name : length m.channel_name ≡ m.channel_name_size
  pub program_name_size : m.program_name_size < 2 ^ 8
  pub channel_name_size : m.channel_name_size < 2 ^ 8
  pub media_type_size : m.media_type_size < 2 ^ 30

-- The layout of core/p2p_protocol.h, its numbers in the order of the source.
abbrev pub wire : Sp2SpMediatype → List ℕ
wire m =
    m.resource_md5
    ++ (le 4 m.block_start_id
        ++ (le 4 m.block_num
            ++ (le 4 m.media_type_size
                ++ (m.media_type
                    ++ (le 1 m.program_name_size
                        ++ (m.program_name
                            ++ (le 4 m.program_time
                                ++ (le 1 m.channel_name_size ++ (m.channel_name ++ [])))))))))

pack_submsg-Writes : (m : Sp2SpMediatype) → IsValid m → Writes (pack_submsg m) (le 1 tag ++ wire m)
unfolding pack_submsg
pack_submsg-Writes m v = then-Writes (write_char-Writes tag) (
    then-Writes (write_nbytes-Writes m.resource_md5) (
      then-Writes (write_int-Writes m.block_start_id) (
        then-Writes (write_int-Writes m.block_num) (
          then-Writes (write_int-Writes m.media_type_size) (
            then-Writes (write_some-Writes m.media_type_size m.media_type v.length-media_type) (
              then-Writes (write_char-Writes m.program_name_size) (
                then-Writes
                  (write_some-Writes m.program_name_size m.program_name v.length-program_name)
                  (then-Writes (write_int-Writes m.program_time) (
                    then-Writes (write_char-Writes m.channel_name_size) (
                      then-Writes
                        (write_some-Writes m.channel_name_size m.channel_name v.length-channel_name)
                        finish-Writes))))))))))

reserve-wire :
    (m : Sp2SpMediatype) → IsValid m → reserve_pack_size m ≡ header_size + length (wire m)
unfolding reserve_pack_size
reserve-wire m v = omega (arith, length-append {0}, length-le)

-- `pack` makes of a media header whose texts are as long as their sizes say, and whose media type
-- is shorter than 2 ^ 30 bytes, the packet that core/p2p_protocol.h lays out, in any memory.
pub Sp2SpMediatype-pack :
    (memory : ℕ → ℕ) (fresh m : Sp2SpMediatype)
    → IsValid m
    → pack (message fresh) memory m ≡ ok (frame (reserve_pack_size m) tag (wire m))
Sp2SpMediatype-pack memory fresh m v =
    pack-frame (message fresh) memory m tag (wire m) (pack_submsg-Writes m v) (reserve-wire m v)
