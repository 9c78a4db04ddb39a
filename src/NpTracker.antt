-- ===== src/NpTracker.antt =====
-- protocol/tracker/tracker_np_connector.h and protocol/tracker/tracker_np_connector.cpp
-- (`RsNpTracker`): how the tracker answers its peers. The two managers are singletons, so they are
-- part of the state. A handler sends one packet at most. What `st_sendto` returns is ignored by
-- the source, and so is what the logger prints.
pub mod Address
pub mod Handlers
pub mod Peers
pub mod Requests
pub mod Unknown
mod Tests
use rabbitstreamer.Prelude.{
  ℕ, zero, suc, ◌%◌, ◌/◌, Bool, true, false, ◌&&◌, ◌||◌, leb, ◌==◌, if◌then◌else◌, List, [], ◌∷◌,
  Option, none, some, Result, ok, fault, out_of_bounds, ◌>>=◌, length, take, replicate, uint_max,
}
use rabbitstreamer.CoreStruct.{
  md5_len, uuid_length, NetAddress, P2PAddress, CorePeerInfo, TransferInfo, PeerInfoWithAddr,
}
use rabbitstreamer.IntervalArray.{BlockInterval, IntervalArray, add_interval}
use rabbitstreamer.StreamManager.{
  Md5HashStr, StreamManager, get_channel_interval, get_cp_address, get_sp_address,
}
use rabbitstreamer.NpCoordinator.{
  new_node, NpNode, NpCoordinator, assign, get_node, insert_node, delete_node, get_np_address,
}
use rabbitstreamer.Message.{pack}
use rabbitstreamer.Message.Np2TsLogin.{Np2TsLogin}
use rabbitstreamer.Message.Np2TsReqRes.{Np2TsReqRes}
use rabbitstreamer.Message.Np2TsReport.{Np2TsReport}
use rabbitstreamer.Message.Np2TsNeedPeers.{Np2TsNeedPeers}
use rabbitstreamer.Message.Np2TsReqInterval.{Np2TsReqInterval}
use rabbitstreamer.Message.Np2TsLogout.{Np2TsLogout}
use rabbitstreamer.Message.Ts2NpWelcome
use rabbitstreamer.Message.Ts2NpPeers
use rabbitstreamer.Message.Ts2NpResInterval
use rabbitstreamer.Message.Ts2NpMsg
use rabbitstreamer.Dispatch.{
  NpMessage, login, req_res, report, need_peers, req_interval, logout, handle_np_packet,
}
use rabbitstreamer.NpTracker.Address.{af_inet, client_address}
use rabbitstreamer.Uuid.{generate_uuid}

-- What a handler takes from outside: the clock, what `rand` returns to `generate_uuid` or
-- `get_np_address` and to `get_cp_address`, the sender's port and address, the memory of a new
-- payload, and what stands in the fields that the source leaves unset.
pub record Outside : Type 0 where
  pub now : ℕ
  pub rand : ℕ → ℕ
  pub cp_random : ℕ
  pub sin_port : ℕ
  pub s_addr : ℕ
  pub memory : ℕ → ℕ
  pub should_quit : Bool
  pub interval_size : ℕ

pub record NpTracker : Type 0 where
  pub peers : NpCoordinator
  pub streams : StreamManager
  pub last_send_blockinterval : BlockInterval

-- The state after a handler, and the packet that it sends.
abbrev pub Reply : Type 0
Reply = Result (NpTracker × Option (List ℕ))

abbrev pub remote_normal : Outside → NetAddress
remote_normal o = record { sin_family = af_inet; sin_port = o.sin_port; s_addr = o.s_addr }

unfoldable pub send_welcome : Outside → List ℕ → P2PAddress → NpTracker → Reply
send_welcome o digits address s = do
  payload ←
      pack Ts2NpWelcome.message o.memory
        (record { uuid = take uuid_length digits; peer_ip = address })
  ok (s, some payload)

-- `send_msg`, which leaves `should_quit` unset
unfoldable pub send_msg : Outside → NpTracker → Reply
send_msg o s = do
  payload ←
      pack Ts2NpMsg.message o.memory (record { err_msg_type = 1; should_quit = o.should_quit })
  ok (s, some payload)

-- The node that `get_login` inserts.
unfoldable pub login_node : Outside → List ℕ → Np2TsLogin → NpNode
login_node o digits m = record (new_node o.now) {
  digits = digits;
  version = m.client_version;
  port = m.listening_port;
  client_address = client_address (remote_normal o) m.listening_port m.ip_addr;
}

unfoldable pub get_login : Outside → Np2TsLogin → NpTracker → Reply
get_login o m s = generate_uuid o.rand >>= λ digits.
    let node = login_node o digits m in
    let inserted = record s { peers = insert_node digits node s.peers } in
    if m.local_ip_list_size == 0
    then ok (s, none)
    else send_welcome o digits node.client_address inserted

-- The end of `send_peers`, with the lists that the managers give.
unfoldable pub send_peers_to :
    Outside
    → List ℕ
    → Md5HashStr
    → List PeerInfoWithAddr
    → List NetAddress
    → List NetAddress
    → NpTracker
    → Reply
send_peers_to o uuid res_hash np cp [] s = ok (s, none)
send_peers_to o uuid res_hash np [] (sp ∷ sps) s = ok (s, none)
send_peers_to o uuid res_hash np (c ∷ cp) (sp ∷ sps) s = elim (get_node uuid s.peers) [
  | none ↦ send_msg o s
  | some found ↦ do
    let node = record (assign found) { last_recv_report_time = o.now; channel_id_md5 = res_hash }
    payload ← pack Ts2NpPeers.message o.memory (record {
      sp_list_size = length (c ∷ cp);
      sp_addr = c ∷ cp;
      peer_list_size = length np;
      peer_addr = np;
      np_addr = sp;
    })
    ok (record s { peers = insert_node uuid node s.peers }, some payload)
]

unfoldable pub send_peers : Outside → List ℕ → Md5HashStr → ℕ → NpTracker → Reply
send_peers o uuid res_hash block s = do
  np ← get_np_address o.rand res_hash.hash uuid 20 block s.peers
  sp ← get_sp_address res_hash.hash 1 s.streams
  send_peers_to o uuid res_hash np (get_cp_address o.cp_random 10 s.streams) sp s

-- `get_req_res`. The interval of its `hash` has the start that `BlockInterval` sets, and no size.
unfoldable pub get_req_res : Outside → Np2TsReqRes → NpTracker → Reply
get_req_res o m s =
    send_peers o m.uuid
      (record {
        hash = m.resource_md5;
        block_interval = record { start = uint_max; size = o.interval_size };
      })
      0 s

-- The loop of `get_report`, over the first `n` intervals of the message.
unfoldable pub add_intervals : ℕ → List BlockInterval → IntervalArray → Result IntervalArray
add_intervals zero is xs = ok xs
add_intervals (suc n) [] xs = fault out_of_bounds
add_intervals (suc n) (i ∷ is) xs = add_interval xs i.start i.size >>= λ ys. add_intervals n is ys

-- What `get_report` sets in its copy of the node.
unfoldable pub reported : Np2TsReport → IntervalArray → NpNode → NpNode
reported m intervals node = record node {
  core_info = m.coreinfo;
  count_interval = m.interval_count;
  interval_array = intervals;
  trans_info = m.transferinfo;
  playing_block = m.playing_block;
  current_buffering_time = m.current_buffering_time;
  buffered_count = m.buffered_count;
  buffered_time = m.buffered_time;
  connect_fail_count = m.connect_fail_count;
  incoming_connection_count = m.incoming_connection_count;
  outgoing_connection_count = m.outgoing_connection_count;
  avg_incoming_connection_elapsed_time = m.avg_incoming_connection_elapsed_time;
  avg_outgoing_connection_elapsed_time = m.avg_outgoing_connection_elapsed_time;
  msg_percent = m.message_percent;
}

unfoldable pub get_report : Outside → Np2TsReport → NpTracker → Reply
get_report o m s = elim (get_node m.uuid s.peers) [
  | none ↦ send_msg o s
  | some found ↦
      let added = add_intervals m.interval_count m.blockinterval found.interval_array in
      let insert = λ (xs : IntervalArray). record s {
        peers = insert_node m.uuid (reported m xs (assign found)) s.peers;
      } in
      if m.interval_count == 0 then ok (s, none) else added >>= λ xs. ok (insert xs, none)
]

-- `get_need_peers`. The time that it sets is lost with its copy of the node.
unfoldable pub get_need_peers : Outside → Np2TsNeedPeers → NpTracker → Reply
get_need_peers o m s = elim (get_node m.uuid s.peers) [
  | none ↦ ok (s, none)
  | some found ↦ send_peers o m.uuid found.channel_id_md5 m.current_block s
]

unfoldable pub get_logout : Np2TsLogout → NpTracker → Reply
get_logout m s = ok (record s { peers = delete_node m.uuid s.peers }, none)

-- `BlockInterval::operator==`
unfoldable pub same_interval : BlockInterval → BlockInterval → Bool
same_interval a b = a.start == b.start && a.size == b.size

-- `send_res_interval`. `signal_get_res_interval`, which it calls for an interval that it sent last
-- time, has no effect.
unfoldable pub send_res_interval : Outside → List ℕ → NpTracker → Reply
send_res_interval o hash s = get_channel_interval hash s.streams >>= λ found. elim found [
  | none ↦ ok (s, none)
  | some i ↦
      let packed = pack Ts2NpResInterval.message o.memory (record { block_interval = i }) in
      if same_interval s.last_send_blockinterval i
      then ok (s, none)
      else packed >>= λ payload. ok (record s { last_send_blockinterval = i }, some payload)
]

unfoldable pub get_res_interval : Outside → Np2TsReqInterval → NpTracker → Reply
get_res_interval o m s = elim (get_node m.uuid s.peers) [
  | none ↦ send_msg o s
  | some found ↦ send_res_interval o found.channel_id_md5.hash s
]

-- The calls in the `switch` of `handle_udp_packet`
unfoldable pub handle : Outside → NpMessage → NpTracker → Reply
handle o (login m) s = get_login o m s
handle o (req_res m) s = get_req_res o m s
handle o (report m) s = get_report o m s
handle o (need_peers m) s = get_need_peers o m s
handle o (req_interval m) s = get_res_interval o m s
handle o (logout m) s = get_logout m s

-- `handle_udp_packet` for a packet that comes from the address in `o`, with what the receive buffer
-- holds behind it
unfoldable pub handle_udp_packet : Outside → List ℕ → List ℕ → NpTracker → Reply
handle_udp_packet o buf behind s =
    handle_np_packet buf behind >>= λ m. elim m [ none ↦ ok (s, none) | some m ↦ handle o m s ]
