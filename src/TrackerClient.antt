-- ===== src/TrackerClient.antt =====
-- protocol/sp/sp_tracker_connector.h and protocol/sp/sp_tracker_connector.cpp
-- (`RsSpTrackerProtocol`): how a super peer registers at the tracker and reports its channels. What
-- the socket's `write` returns is ignored by the source. `recv_buf` is the
-- memory from the pointer of that name on, to the end of what the constructor allocates.
pub mod Handshake
pub mod Resources
pub mod Bounds
mod Tests
use rabbitstreamer.Prelude.{
  drop, ◌++◌, ℕ, zero, suc, ◌+◌, ◌%◌, Bool, true, false, ltb, ◌==◌, if◌then◌else◌, List, [], ◌∷◌,
  Option, none, some, Result, ok, fault, out_of_bounds, ◌>>=◌, length, take, u32_mod,
}
use rabbitstreamer.CoreStruct.{md5_len, uuid_length}
use rabbitstreamer.SourceManager.{SourceManager, SourceStatus, get_source_list}
use rabbitstreamer.Streamer.{initialize}
use rabbitstreamer.Message.{Packet, pack, open_packet, new_array}
use rabbitstreamer.Message.Sp2TsRegister
use rabbitstreamer.Message.Sp2TsResList.{ResourceInfo}
use rabbitstreamer.Message.Sp2TsResList
use rabbitstreamer.Message.Sp2TsSpList
use rabbitstreamer.Message.Ts2SpWelcome
use rabbitstreamer.Message.Ts2SpSpList

pub record TrackerClient : Type 0 where
  pub sp_id : List ℕ
  pub register_flag : Bool
  pub sp_port : ℕ
  pub recv_buf : List ℕ

-- What stands in memory: that of a new payload, and the fields of a registration that
-- `send_register` leaves unset.
pub record Outside : Type 0 where
  pub memory : ℕ → ℕ
  pub user_id : ℕ
  pub password : List ℕ

-- The client afterwards, and the packet that it writes.
abbrev pub Reply : Type 0
Reply = Result (TrackerClient × Option (List ℕ))

-- `UDP_MAX_PACKET_SIZE`, which is also how much is allocated
abbrev pub udp_max_packet_size : ℕ
udp_max_packet_size = 65535

-- `TRACKER_TIMER_ID`
abbrev pub tracker_timer_id : ℕ
tracker_timer_id = 0

-- `TRACKER_GET_SP_LIST_TIMER_ID`
abbrev pub tracker_get_sp_list_timer_id : ℕ
tracker_get_sp_list_timer_id = 1

-- `TS2SP_GET_RES_LIST`
abbrev pub get_res_list_tag : ℕ
get_res_list_tag = 0x28

-- The constructor, over what the memory holds at `sp_id` and in the array that it allocates.
unfoldable pub create : List ℕ → (ℕ → ℕ) → TrackerClient
create memory fresh = record {
  sp_id = memory;
  register_flag = false;
  sp_port = 2222;
  recv_buf = new_array fresh udp_max_packet_size;
}

-- `if ((payload != NULL) && (payload_nb != 0)) io->write(...)`, after `pack`
unfoldable pub write_packed : Result (List ℕ) → TrackerClient → Reply
write_packed packed c = packed >>= λ payload. ok (c, some payload)

unfoldable pub send_register : Outside → TrackerClient → Reply
send_register o c =
    write_packed
      (pack Sp2TsRegister.message o.memory
        (record { user_id = o.user_id; password = o.password; service_port = c.sp_port }))
      c

-- One round of the loop of `send_res_list`.
unfoldable pub resource_info : SourceStatus → ResourceInfo
resource_info st = record { res_md5 = take md5_len st.chnl_hash; block_interval = st.block_inter }

unfoldable pub resource_infos : List SourceStatus → List ResourceInfo
resource_infos [] = []
resource_infos (st ∷ sts) = resource_info st ∷ resource_infos sts

unfoldable pub send_res_list : Outside → SourceManager → TrackerClient → Reply
send_res_list o sources c =
    let list = get_source_list sources in
    let sent =
      write_packed
        (pack Sp2TsResList.message o.memory (record {
          sp_uuid = c.sp_id;
          resource_count = length list % u32_mod;
          res_info = resource_infos list;
        }))
        c in
    if length list % u32_mod == 0 then ok (c, none) else sent

unfoldable pub send_sp_list : Outside → TrackerClient → Reply
send_sp_list o c = write_packed (pack Sp2TsSpList.message o.memory (record { sp_uuid = c.sp_id })) c

-- `get_welcome`, for the bytes behind the header
unfoldable pub get_welcome : List ℕ → TrackerClient → Reply
get_welcome body c = Ts2SpWelcome.parse (initialize body) >>= λ m.
    ok (record c { sp_id = m.0.sp_uuid; register_flag = true }, none)

-- `get_sp_list`, which does nothing
unfoldable pub get_sp_list : TrackerClient → Reply
get_sp_list c = ok (c, none)

unfoldable pub get_res_interval : Outside → SourceManager → TrackerClient → Reply
get_res_interval o sources c =
    if c.register_flag then send_res_list o sources c else send_register o c

-- The `switch` of `loop`
unfoldable pub handle : Outside → SourceManager → Packet → TrackerClient → Reply
handle o sources p c =
    if p.msg_type == Ts2SpWelcome.tag
    then get_welcome p.body c
    else if p.msg_type == Ts2SpSpList.tag
    then get_sp_list c
    else if p.msg_type == get_res_list_tag
    then get_res_interval o sources c
    else ok (c, none)

-- `loop` with what `st_recvfrom` brings, `none` where that fails. Each packet is stored at
-- `recv_buf`, in front of what the memory held there, and the pointer moves on by five bytes; it is
-- never set back.
unfoldable pub loop : Outside → SourceManager → Option (List ℕ) → TrackerClient → Reply
loop o sources none c = ok (c, none)
loop o sources (some buf) c =
    let mem = buf ++ drop (length buf) c.recv_buf in
    let received =
      open_packet mem >>= λ p. handle o sources p (record c { recv_buf = drop 5 mem }) in
    if length buf == 0
    then ok (c, none)
    else if ltb (length c.recv_buf) (length buf)
    then fault out_of_bounds
    else received

unfoldable pub handle_timeout : Outside → SourceManager → ℕ → TrackerClient → Reply
handle_timeout o sources timerid c =
    if c.register_flag
    then (if timerid == tracker_timer_id
        then send_res_list o sources c
        else if timerid == tracker_get_sp_list_timer_id
        then send_sp_list o c
        else ok (c, none))
    else send_register o c
