-- ===== src/Message.antt =====
-- core/message.h and core/message.cpp: `RsMessage`, its virtual functions as a record, and `pack`.
-- The header of a packet is read as the connectors of protocol/tracker read it.
pub mod Framing
pub mod Sp2TsRegister
pub mod Ts2SpWelcome
pub mod Sp2TsSpList
pub mod Sp2TsLogout
pub mod Sp2TsStatus
pub mod Np2TsLogin
pub mod Np2TsReqRes
pub mod Np2TsNeedPeers
pub mod Np2TsReqInterval
pub mod Np2TsLogout
pub mod Ts2NpWelcome
pub mod Ts2SpSpList
pub mod Ts2NpPeers
pub mod Sp2TsResList
pub mod Ts2NpMsg
pub mod Np2TsReport
pub mod Sp2SpPushList
pub mod Sp2SpMediatype
pub mod Sp2SpResponse
pub mod Ts2NpResInterval
mod Tests
use rabbitstreamer.Prelude.{
  ◌^◌, sub32, ℕ, zero, suc, ◌+◌, ◌-◌, ◌≤◌, ◌<◌, ◌≡◌, List, [], ◌∷◌, ◌++◌, length, take, drop, ltb,
  leb, ◌||◌, if◌then◌else◌, Result, ok, fault, out_of_bounds, ◌>>=◌,
}
use rabbitstreamer.Streamer.{Streamer, Writer, Reader, ◌>>◌, initialize, get_buffer, write_int}
use rabbitstreamer.Streamer.Bytes.{from_le}

-- A class that extends `RsMessage`. `parse` starts from a fresh object, as its callers do.
pub record Message (M : Type 0) : Type 0 where
  pub parse : Reader M
  pub pack_submsg : M → Writer
  pub reserve_pack_size : M → ℕ

-- `RsMessage::reserve_pack_size`: `sizeof(msg_size) + sizeof(msg_type)`
abbrev pub header_size : ℕ
header_size = 5

-- `new char[size]`, whose bytes are whatever the memory holds
unfoldable pub new_array : (ℕ → ℕ) → ℕ → List ℕ
new_array memory zero = []
new_array memory (suc n) = memory n ∷ new_array memory n

-- `payload = streamer.get_buffer(); nb = streamer.get_size();`
unfoldable pub payload_of : Result Streamer → Result (List ℕ)
payload_of (ok st) = ok (get_buffer st)
payload_of (fault e) = fault e

-- `RsMessage::pack`: the payload that it hands out
unfoldable pub pack : {M : Type 0} → Message M → (ℕ → ℕ) → M → Result (List ℕ)
unfolding payload_of
pack c memory m =
    let size = c.reserve_pack_size m in
    payload_of ((write_int size >> c.pack_submsg m) (initialize (new_array memory size)))

-- What a connector takes from a packet before it calls a handler. `body` is what the streamer of
-- the handler runs over.
pub record Packet : Type 0 where
  pub msg_size : ℕ
  pub msg_type : ℕ
  pub body : List ℕ

-- The start of `handle_udp_packet`, over the memory from `buf` on: the packet, and whatever the
-- receive buffer holds behind it. Nothing compares the size in the header to that of the packet, so a
-- packet that is shorter than its header says is read on into what was there before. The streamer
-- takes `msg_size - 5`, the word of an `int`; every handler first reads some bytes, which stop at
-- the assertion of the streamer if that is negative as they do on an empty one. To read on past the
-- memory is a fault too.
unfoldable pub open_packet : List ℕ → Result Packet
open_packet mem =
    let msg_size = from_le (take 4 mem) in
    let size = sub32 msg_size header_size in
    if ltb (length mem) header_size
    then fault out_of_bounds
    else ok (record {
      msg_size = msg_size;
      msg_type = from_le (take 1 (drop 4 mem));
      body = take (if ltb size (2 ^ 31) then size else 0) (drop header_size mem);
    })

-- A packet received, at the start of this memory: its type, and what the handler parses. The rest of
-- the streamer is dropped.
unfoldable pub receive : {M : Type 0} → Message M → List ℕ → Result (ℕ × M)
receive c mem = do p ← open_packet mem; (m, st) ← c.parse (initialize p.body); ok (p.msg_type, m)
