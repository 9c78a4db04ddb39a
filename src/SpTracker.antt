-- ===== src/SpTracker.antt =====
-- protocol/tracker/tracker_sp_connector.h and protocol/tracker/tracker_sp_connector.cpp
-- (`RsSpTracker`): how the tracker answers super peers. The manager is a singleton and all of the
-- state. What `st_sendto` and the socket's `write` return is ignored by the source, and so is what
-- the logger prints.
pub mod Register
pub mod Updates
pub mod Invariant
mod Tests
use rabbitstreamer.Prelude.{
  false, ℕ, zero, suc, ◌%◌, ◌==◌, not, if◌then◌else◌, List, [], ◌∷◌, ◌++◌, Option, none, some,
  Result, ok, fault, out_of_bounds, ◌>>=◌, length, take, replicate,
}
use rabbitstreamer.CoreStruct.{md5_len, uuid_length, NetAddress}
use rabbitstreamer.StreamManager.{
  Md5HashStr, ChannelNode, StreamManager, get_channel, insert_channel, get_other_addresses,
}
use rabbitstreamer.Message.{pack}
use rabbitstreamer.Message.Sp2TsRegister.{Sp2TsRegister}
use rabbitstreamer.Message.Sp2TsStatus.{Sp2TsStatus}
use rabbitstreamer.Message.Sp2TsResList.{Sp2TsResList, ResourceInfo}
use rabbitstreamer.Message.Sp2TsSpList.{Sp2TsSpList}
use rabbitstreamer.Message.Ts2SpWelcome
use rabbitstreamer.Message.Ts2SpSpList
use rabbitstreamer.Dispatch.{SpMessage, register, status, res_list, get_sp, leave, handle_sp_packet}
use rabbitstreamer.Uuid.{generate_uuid}

-- What a handler takes from outside: the clock, `rand`, the sender's port and address, the address
-- of the connector itself, and the memory of a new payload.
pub record Outside : Type 0 where
  pub now : ℕ
  pub rand : ℕ → ℕ
  pub sin_port : ℕ
  pub s_addr : ℕ
  pub this : ℕ
  pub memory : ℕ → ℕ

-- What a handler sends: nothing, a packet to the sender, or bytes that it writes to the socket that
-- the constructor makes, before it has a descriptor for it.
pub data Sent : Type 0 where
  nothing : Sent
  packet : List ℕ → Sent
  written : List ℕ → Sent

abbrev pub Reply : Type 0
Reply = Result (StreamManager × Sent)

-- `strncpy(dst, src, n)`, where `src` has at least `n` bytes or ends before: the `n` bytes at `dst`
unfoldable pub strncpy : ℕ → List ℕ → List ℕ
strncpy zero src = []
strncpy (suc n) [] = replicate (suc n) 0
strncpy (suc n) (c ∷ src) =
    let rest = strncpy n src in if c == 0 then replicate (suc n) 0 else c ∷ rest

-- The node that `get_register` inserts.
unfoldable pub register_node : Outside → Sp2TsRegister → ChannelNode
register_node o m = record {
  last_recv_report_time = o.now;
  user_id = m.user_id;
  pswd = strncpy md5_len m.password ++ 0 ∷ [];
  service_port = m.service_port;
  resource_count = 0;
  con_num = 0;
  exceed_max_conn = false;
  bandwidth = 0;
  sp_address = record { sin_family = 0; sin_port = o.sin_port; s_addr = o.s_addr };
  sp_service = o.this;
  hashes = [];
}

unfoldable pub send_welcome : Outside → List ℕ → StreamManager → Reply
send_welcome o uuid s = do
  payload ← pack Ts2SpWelcome.message o.memory (record { sp_uuid = take uuid_length uuid })
  ok (s, packet payload)

unfoldable pub get_register : Outside → Sp2TsRegister → StreamManager → Reply
get_register o m s = do
  uuid ← generate_uuid o.rand
  s' ← insert_channel o.now uuid (register_node o m) s
  send_welcome o uuid s'

-- The loop of `get_res_list`, over the first `n` resources of the message.
unfoldable pub set_hashes : ℕ → List ResourceInfo → Result (List Md5HashStr)
set_hashes zero rs = ok []
set_hashes (suc n) [] = fault out_of_bounds
set_hashes (suc n) (r ∷ rs) = do
  rest ← set_hashes n rs
  ok (record { hash = r.res_md5; block_interval = r.block_interval } ∷ rest)

unfoldable pub get_res_list : Outside → Sp2TsResList → StreamManager → Reply
get_res_list o m s = get_channel o.now m.sp_uuid s >>= λ found. elim found [
  | none ↦ ok (s, nothing)
  | some node ↦ do
    hashes ← set_hashes m.resource_count m.res_info
    s' ←
        insert_channel o.now m.sp_uuid
          (record node {
            last_recv_report_time = o.now;
            resource_count = m.resource_count;
            hashes = hashes;
          })
          s
    ok (s', nothing)
]

-- `send_sp_list`. `Ts2SpSpList` counts in a `uint8_t`.
unfoldable pub send_sp_list : Outside → List ℕ → StreamManager → Reply
send_sp_list o uuid s = get_other_addresses uuid s >>= λ addrs.
    let packed =
      pack Ts2SpSpList.message o.memory (record { count = length addrs % 256; addr = addrs }) in
    if length addrs == 0 then ok (s, nothing) else packed >>= λ payload. ok (s, written payload)

unfoldable pub get_sp_list : Outside → Sp2TsSpList → StreamManager → Reply
get_sp_list o m s = send_sp_list o m.sp_uuid s

-- `get_status`, which leaves the array of the node as it is
unfoldable pub get_status : Outside → Sp2TsStatus → StreamManager → Reply
get_status o m s = get_channel o.now m.sp_uuid s >>= λ found. elim found [
  | none ↦ ok (s, nothing)
  | some node ↦ do
    s' ←
        insert_channel o.now m.sp_uuid
          (record node {
            last_recv_report_time = o.now;
            resource_count = m.resource_count;
            con_num = m.connection_num;
            bandwidth = m.bandwidth;
            exceed_max_conn = not (m.exceed_max_connection == 0);
          })
          s
    ok (s', nothing)
]

-- The calls in the `switch` of `handle_udp_packet`; `SP2TS_LOGOUT` has none
unfoldable pub handle : Outside → SpMessage → StreamManager → Reply
handle o (register m) s = get_register o m s
handle o (status m) s = get_status o m s
handle o (res_list m) s = get_res_list o m s
handle o (get_sp m) s = get_sp_list o m s
handle o (leave m) s = ok (s, nothing)

-- `handle_udp_packet` for a packet that comes from the address in `o`, with what the receive buffer
-- holds behind it
unfoldable pub handle_udp_packet : Outside → List ℕ → List ℕ → StreamManager → Reply
handle_udp_packet o buf behind s =
    handle_sp_packet buf behind >>= λ m. elim m [ none ↦ ok (s, nothing) | some m ↦ handle o m s ]
