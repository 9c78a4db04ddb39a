-- ===== src/Dispatch.antt =====
-- `handle_udp_packet` of protocol/tracker/tracker_np_connector.cpp and of
-- protocol/tracker/tracker_sp_connector.cpp: which message the tracker takes a packet for. The
-- handlers of the message are in `NpTracker` and `SpTracker`.
pub mod Peers
pub mod SuperPeers
mod Tests
use rabbitstreamer.Prelude.{
  ◌++◌, length, ℕ, ◌==◌, if◌then◌else◌, List, Option, none, some, Result, ok, ◌>>=◌,
}
use rabbitstreamer.Streamer.{Reader, initialize}
use rabbitstreamer.Message.{Packet, open_packet}
use rabbitstreamer.Message.Np2TsLogin
use rabbitstreamer.Message.Np2TsReqRes
use rabbitstreamer.Message.Np2TsReport
use rabbitstreamer.Message.Np2TsNeedPeers
use rabbitstreamer.Message.Np2TsReqInterval
use rabbitstreamer.Message.Np2TsLogout
use rabbitstreamer.Message.Sp2TsRegister
use rabbitstreamer.Message.Sp2TsStatus
use rabbitstreamer.Message.Sp2TsResList
use rabbitstreamer.Message.Sp2TsSpList
use rabbitstreamer.Message.Sp2TsLogout

-- The messages of peers that have a handler.
pub data NpMessage : Type 0 where
  login : Np2TsLogin.Np2TsLogin → NpMessage
  req_res : Np2TsReqRes.Np2TsReqRes → NpMessage
  report : Np2TsReport.Np2TsReport → NpMessage
  need_peers : Np2TsNeedPeers.Np2TsNeedPeers → NpMessage
  req_interval : Np2TsReqInterval.Np2TsReqInterval → NpMessage
  logout : Np2TsLogout.Np2TsLogout → NpMessage

-- The messages of super peers.
pub data SpMessage : Type 0 where
  register : Sp2TsRegister.Sp2TsRegister → SpMessage
  status : Sp2TsStatus.Sp2TsStatus → SpMessage
  res_list : Sp2TsResList.Sp2TsResList → SpMessage
  get_sp : Sp2TsSpList.Sp2TsSpList → SpMessage
  leave : Sp2TsLogout.Sp2TsLogout → SpMessage

-- The start of a handler: it parses what follows the header.
unfoldable pub parsed : {M N : Type 0} → Reader M → (M → N) → List ℕ → Result (Option N)
parsed parse wrap body = parse (initialize body) >>= λ r. ok (some (wrap r.0))

-- The `switch` of `RsNpTracker::handle_udp_packet`
unfoldable pub np_message : Packet → Result (Option NpMessage)
np_message p =
    if p.msg_type == Np2TsLogin.tag
    then parsed Np2TsLogin.parse login p.body
    else if p.msg_type == Np2TsReqRes.tag
    then parsed Np2TsReqRes.parse req_res p.body
    else if p.msg_type == Np2TsReport.tag
    then parsed Np2TsReport.parse report p.body
    else if p.msg_type == Np2TsNeedPeers.tag
    then parsed Np2TsNeedPeers.parse need_peers p.body
    else if p.msg_type == Np2TsReqInterval.tag
    then parsed Np2TsReqInterval.parse req_interval p.body
    else if p.msg_type == Np2TsLogout.tag
    then parsed Np2TsLogout.parse logout p.body
    else ok none

-- The packet, and what the memory holds behind it. An empty packet is refused.
unfoldable pub handle_np_packet : List ℕ → List ℕ → Result (Option NpMessage)
handle_np_packet buf behind =
    let opened = open_packet (buf ++ behind) >>= np_message in
    if length buf == 0 then ok none else opened

-- The `switch` of `RsSpTracker::handle_udp_packet`, which does nothing for `SP2TS_LOGOUT`
unfoldable pub sp_message : Packet → Result (Option SpMessage)
sp_message p =
    if p.msg_type == Sp2TsRegister.tag
    then parsed Sp2TsRegister.parse register p.body
    else if p.msg_type == Sp2TsStatus.tag
    then parsed Sp2TsStatus.parse status p.body
    else if p.msg_type == Sp2TsResList.tag
    then parsed Sp2TsResList.parse res_list p.body
    else if p.msg_type == Sp2TsSpList.tag
    then parsed Sp2TsSpList.parse get_sp p.body
    else ok none

-- As for a peer.
unfoldable pub handle_sp_packet : List ℕ → List ℕ → Result (Option SpMessage)
handle_sp_packet buf behind =
    let opened = open_packet (buf ++ behind) >>= sp_message in
    if length buf == 0 then ok none else opened
