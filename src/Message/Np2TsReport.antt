-- ===== src/Message/Np2TsReport.antt =====
-- core/message.cpp and core/message.h, `Np2TsReport`: a peer reports its blocks and its load.
use rabbitstreamer.Prelude.{
  set, ltb, if◌then◌else◌, Option, none, some, Result, ok, ℕ, ◌+◌, ◌*◌, ◌≡◌, List, [], length, zero,
  suc, fault, assertion, out_of_bounds, arith,
}
use rabbitstreamer.CoreStruct.{
  uuid_length, CorePeerInfo, TransferInfo, core_peer_info, transfer_info, block_interval, float32,
  read_object, write_object,
}
use rabbitstreamer.CoreStruct.Layouts.{
  write_object-Writes, core_peer_info-length, transfer_info-length, block_interval-length,
}
use rabbitstreamer.IntervalArray.{BlockInterval}
use rabbitstreamer.Streamer.{
  Writer, Reader, ◌>>◌, ◌>>=◌, finish, return, write_char, write_int, write_short, write_nbytes,
  read_char, read_int, read_short, read_nbytes, write_each,
}
use rabbitstreamer.Streamer.Bytes.{le, length-le}
use rabbitstreamer.Streamer.Laws.{
  write_char-Writes, write_int-Writes, write_short-Writes, write_nbytes-Writes, write_each-Writes,
  bytes_of, length-bytes_of,
}
use rabbitstreamer.Message.{Message, header_size, pack}
use rabbitstreamer.Message.Framing.{pack-Fails}
use rabbitstreamer.Streamer.Faults.{Fails, then-Fails, fault-Fails, write_short-Fails}

pub record Np2TsReport : Type 0 where
  pub uuid : List ℕ
  pub coreinfo : CorePeerInfo
  pub interval_count : ℕ
  pub blockinterval : List BlockInterval
  pub transferinfo : TransferInfo
  pub playing_block : ℕ
  pub current_buffering_time : ℕ
  pub buffered_count : ℕ
  pub buffered_time : ℕ
  pub connect_fail_count : ℕ
  pub incoming_connection_count : ℕ
  pub outgoing_connection_count : ℕ
  pub avg_incoming_connection_elapsed_time : ℕ
  pub avg_outgoing_connection_elapsed_time : ℕ
  pub message_percent : ℕ

-- `NP2TS_REPORT`
abbrev pub tag : ℕ
tag = 0x32

-- `memcpy(&blockinterval[i], ..., sizeof(BlockInterval))`, where `blockinterval` points to this array.
-- `none` is a pointer that was never set, through which nothing can be stored.
unfoldable pub set_interval :
    Option (List BlockInterval) → ℕ → BlockInterval → Result (Option (List BlockInterval))
set_interval none i x = fault out_of_bounds
set_interval (some xs) i x =
    if ltb i (length xs) then ok (some (set xs i x)) else fault out_of_bounds

-- `for (i < interval_count) memcpy(&blockinterval[i], streamer->read_nbytes(...), ...)`, with `left`
-- rounds left
unfoldable pub read_intervals :
    ℕ → ℕ → Option (List BlockInterval) → Reader (Option (List BlockInterval))
read_intervals zero i target = return target
read_intervals (suc left) i target = read_object block_interval >>= λ x st.
    elim (set_interval target i x) [
      | ok changed ↦ read_intervals left (suc i) changed st
      | fault e ↦ fault e
    ]

-- What `blockinterval` points to.
unfoldable pub pointed_to : Option (List BlockInterval) → List BlockInterval
pointed_to none = []
pointed_to (some xs) = xs

-- The constructor does not set `blockinterval`, and `parse` does not either.
unfoldable pub parse : Reader Np2TsReport
parse = do
  uuid ← read_nbytes uuid_length
  coreinfo ← read_object core_peer_info
  interval_count ← read_char
  intervals ← read_intervals interval_count 0 none
  transferinfo ← read_object transfer_info
  playing_block ← read_int
  current_buffering_time ← read_short
  buffered_count ← read_short
  buffered_time ← read_short
  connect_fail_count ← read_short
  incoming_connection_count ← read_short
  outgoing_connection_count ← read_short
  avg_incoming_connection_elapsed_time ← read_short
  avg_outgoing_connection_elapsed_time ← read_short
  message_percent ← read_object float32
  return (record {
    uuid = uuid;
    coreinfo = coreinfo;
    interval_count = interval_count;
    blockinterval = pointed_to intervals;
    transferinfo = transferinfo;
    playing_block = playing_block;
    current_buffering_time = current_buffering_time;
    buffered_count = buffered_count;
    buffered_time = buffered_time;
    connect_fail_count = connect_fail_count;
    incoming_connection_count = incoming_connection_count;
    outgoing_connection_count = outgoing_connection_count;
    avg_incoming_connection_elapsed_time = avg_incoming_connection_elapsed_time;
    avg_outgoing_connection_elapsed_time = avg_outgoing_connection_elapsed_time;
    message_percent = message_percent;
  })

unfoldable pub pack_submsg : Np2TsReport → Writer
pack_submsg m = do
  write_char tag
  write_nbytes m.uuid
  write_object core_peer_info m.coreinfo
  write_char m.interval_count
  write_each (write_object block_interval) m.interval_count m.blockinterval
  write_object transfer_info m.transferinfo
  write_int m.playing_block
  write_short m.current_buffering_time
  write_short m.buffered_count
  write_short m.buffered_time
  write_short m.connect_fail_count
  write_short m.incoming_connection_count
  write_short m.outgoing_connection_count
  write_short m.avg_incoming_connection_elapsed_time
  write_short m.avg_outgoing_connection_elapsed_time
  finish

unfoldable pub reserve_pack_size : Np2TsReport → ℕ
reserve_pack_size m =
    header_size + uuid_length + 1 + m.interval_count * 8 + 32 + 4 + 2 + 2 + 2 + 2 + 2 + 2 + 2 + 2

abbrev pub message : Message Np2TsReport
message = record { parse = parse; pack_submsg = pack_submsg; reserve_pack_size = reserve_pack_size }

-- The array is as long as its count says, and the UUID as its type.
pub record IsValid (m : Np2TsReport) : Type 0 where
  pub uuid : length m.uuid ≡ uuid_length
  pub length-blockinterval : length m.blockinterval ≡ m.interval_count

-- The room that `pack_submsg` uses up to the seventh of its eight calls of `write_short`.
room : Np2TsReport → ℕ
room m =
    length (le 1 tag)
    + (length m.uuid
        + (length (core_peer_info.to_bytes m.coreinfo)
            + (length (le 1 m.interval_count)
                + (length (bytes_of block_interval.to_bytes m.blockinterval)
                    + (length (transfer_info.to_bytes m.transferinfo)
                        + (length (le 4 m.playing_block)
                            + (length (le 2 m.current_buffering_time)
                                + (length (le 2 m.buffered_count)
                                    + (length (le 2 m.buffered_time)
                                        + (length (le 2 m.connect_fail_count)
                                            + (length (le 2 m.incoming_connection_count)
                                                + (length (le 2 m.outgoing_connection_count)
                                                    + 0))))))))))))

pack_submsg-Fails : (m : Np2TsReport) → IsValid m → Fails (pack_submsg m) (room m) assertion
unfolding pack_submsg room
pack_submsg-Fails m v = then-Fails (write_char-Writes tag) (
    then-Fails (write_nbytes-Writes m.uuid) (
      then-Fails (write_object-Writes core_peer_info m.coreinfo) (
        then-Fails (write_char-Writes m.interval_count) (
          then-Fails
            (write_each-Writes (write_object block_interval) block_interval.to_bytes
              (write_object-Writes block_interval) m.interval_count m.blockinterval
              v.length-blockinterval)
            (then-Fails (write_object-Writes transfer_info m.transferinfo) (
              then-Fails (write_int-Writes m.playing_block) (
                then-Fails (write_short-Writes m.current_buffering_time) (
                  then-Fails (write_short-Writes m.buffered_count) (
                    then-Fails (write_short-Writes m.buffered_time) (
                      then-Fails (write_short-Writes m.connect_fail_count) (
                        then-Fails (write_short-Writes m.incoming_connection_count) (
                          then-Fails (write_short-Writes m.outgoing_connection_count) (
                            fault-Fails _ (
                              write_short-Fails m.avg_incoming_connection_elapsed_time 0
                                (omega arith)))))))))))))))

reserve-room : (m : Np2TsReport) → IsValid m → reserve_pack_size m ≡ 4 + room m
unfolding reserve_pack_size room
reserve-room m v = omega (
  arith,
  length-le,
  core_peer_info-length m.coreinfo,
  transfer_info-length m.transferinfo,
  length-bytes_of block_interval.to_bytes 8 block_interval-length m.blockinterval,
)

-- `reserve_pack_size` leaves out `coreinfo`, so `pack` stops at the assertion of `write_short`
-- before it has written the report, for every report whose array is as long as its count says.
pub Np2TsReport-pack_aborts :
    (memory : ℕ → ℕ) (m : Np2TsReport) → IsValid m → pack message memory m ≡ fault assertion
Np2TsReport-pack_aborts memory m v =
    pack-Fails message memory m (room m) assertion (pack_submsg-Fails m v) (reserve-room m v)
