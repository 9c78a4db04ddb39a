-- ===== src/Message/Sp2SpPushList.antt =====
-- core/message.cpp and core/message.h, `Sp2SpPushList`: a super peer asks another one for blocks.
-- `pack_submsg` is a stub in the source, so only `parse` has a counterpart to answer to.
use rabbitstreamer.Prelude.{
  ℕ, ◌+◌, ◌*◌, ◌<◌, ◌^◌, ◌≡◌, ◌==◌, if◌then◌else◌, List, ◌++◌, [], length, All, ok,
}
use rabbitstreamer.CoreStruct.{md5_len, NetAddress, net_address, read_object, NetAddressFits}
use rabbitstreamer.CoreStruct.Layouts.{read_object-Reads, net_address-Returns}
use rabbitstreamer.Streamer.{
  initialize, Writer, Reader, ◌>>=◌, finish, return, read_char, read_int, read_nbytes, read_each,
}
use rabbitstreamer.Streamer.Bytes.{le, from_le-le_1, from_le-le_4}
use rabbitstreamer.Streamer.Laws.{
  Reads, bytes_of, bind-Reads, return-Reads, get_as_type-Reads, read_nbytes-Reads, read_some-Reads,
}
use rabbitstreamer.Message.{Message, header_size}

pub record Sp2SpPushList : Type 0 where
  pub resource_md5 : List ℕ
  pub source_sp_addr : NetAddress
  pub block_count : ℕ
  pub block_array : List ℕ

unfoldable pub parse : Reader Sp2SpPushList
parse = do
  resource_md5 ← read_nbytes md5_len
  source_sp_addr ← read_object net_address
  block_count ← read_char
  block_array ← if block_count == 0 then return [] else read_each read_int block_count
  return (record {
    resource_md5 = resource_md5;
    source_sp_addr = source_sp_addr;
    block_count = block_count;
    block_array = block_array;
  })

unfoldable pub pack_submsg : Sp2SpPushList → Writer
pack_submsg m = finish

-- `sizeof(block_array)` is that of the pointer.
unfoldable pub reserve_pack_size : Sp2SpPushList → ℕ
reserve_pack_size m = header_size + 1 + 8 + m.block_count * 4

abbrev pub message : Message Sp2SpPushList
message = record { parse = parse; pack_submsg = pack_submsg; reserve_pack_size = reserve_pack_size }

pub record IsValid (m : Sp2SpPushList) : Type 0 where
  pub resource_md5 : length m.resource_md5 ≡ md5_len
  pub source_sp_addr : NetAddressFits m.source_sp_addr
  pub block_count : m.block_count < 2 ^ 8
  pub block_array : All (λ b. b < 2 ^ 32) m.block_array
  pub length-block_array : length m.block_array ≡ m.block_count

-- `|RESOURCE MD5(MD5_LEN)|source superpeer address(NormalAddress)|`
-- `|block count(UINT8)|first blockid(UINT32)|...|` (core/p2p_protocol.h)
abbrev pub wire : Sp2SpPushList → List ℕ
wire m =
    m.resource_md5
    ++ (net_address.to_bytes m.source_sp_addr
        ++ (le 1 m.block_count ++ (bytes_of (le 4) m.block_array ++ [])))

parse-Reads : (m : Sp2SpPushList) → IsValid m → Reads parse (wire m) m
unfolding parse
parse-Reads m v = bind-Reads _ (read_nbytes-Reads md5_len m.resource_md5 v.resource_md5) (
    bind-Reads _
      (read_object-Reads net_address m.source_sp_addr
        (net_address-Returns m.source_sp_addr v.source_sp_addr))
      (bind-Reads _ (get_as_type-Reads 1 m.block_count (from_le-le_1 m.block_count v.block_count)) (
        bind-Reads _
          (read_some-Reads read_int (le 4) (λ b. b < 2 ^ 32)
            (λ b h. get_as_type-Reads 4 b (from_le-le_4 b h)) m.block_count m.block_array
            v.length-block_array v.block_array)
          (return-Reads m))))

-- From the bytes that core/p2p_protocol.h lays out for it, `parse` reads a list of blocks with
-- fields in range, and leaves what follows unread.
pub Sp2SpPushList-parse :
    (m : Sp2SpPushList) (rest : List ℕ)
    → IsValid m
    → parse (initialize (wire m ++ rest)) ≡ ok (m, record { before = wire m; after = rest })
unfolding initialize
Sp2SpPushList-parse m rest v = (parse-Reads m v).run [] rest
