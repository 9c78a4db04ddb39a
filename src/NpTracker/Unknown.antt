-- ===== src/NpTracker/Unknown.antt =====
-- What protocol/tracker/tracker_np_connector.cpp answers to a peer that the tracker does not know,
-- or no longer knows.
use rabbitstreamer.Prelude.{[], append-nil, ℕ, ◌≡◌, List, none, some, ok, arith}
use rabbitstreamer.StdMap.Laws.{erase_absent}
use rabbitstreamer.StreamManager.{str_rank}
use rabbitstreamer.NpCoordinator.{get_node, delete_node}
use rabbitstreamer.Dispatch.{report, need_peers, req_interval, logout}
use rabbitstreamer.Message.{receive}
use rabbitstreamer.Message.Np2TsReport.{Np2TsReport}
use rabbitstreamer.Message.Np2TsNeedPeers.{Np2TsNeedPeers}
use rabbitstreamer.Message.Np2TsReqInterval.{Np2TsReqInterval}
use rabbitstreamer.Message.Np2TsLogout.{Np2TsLogout}
use rabbitstreamer.Message.Ts2NpMsg
use rabbitstreamer.NpTracker.{
  Outside, NpTracker, Reply, send_msg, get_report, get_need_peers, get_res_interval, get_logout,
  handle,
}

-- The error message, whose second flag is whatever the memory held.
abbrev pub unknown_client : Outside → Ts2NpMsg.Ts2NpMsg
unknown_client o = record { err_msg_type = 1; should_quit = o.should_quit }

-- The answer is the error message, and nothing else happens.
abbrev pub Refused : Outside → NpTracker → Reply → Type 0
Refused o s r =
    (payload : List ℕ) × (r ≡ ok (s, some payload))
    × (receive Ts2NpMsg.message payload ≡ ok (Ts2NpMsg.tag, unknown_client o))

send_msg-Refused : (o : Outside) (s : NpTracker) → Refused o s (send_msg o s)
unfolding send_msg
send_msg-Refused o s =
    let t =
      Ts2NpMsg.Ts2NpMsg-RoundTrips o.memory (unknown_client o)
        (record { err_msg_type = omega arith }) in
    (t.payload, ground (arith, t.packed), rw append-nil at (t.received []))

-- A report and a request for intervals of a peer that the tracker does not know are answered with
-- a packet that is received as the error message; a request for more peers and a logout of such a
-- peer are not answered. In all four cases the tracker stays as it was.
pub handle_unknown :
    (o : Outside) (s : NpTracker) (uuid : List ℕ)
    → get_node uuid s.peers ≡ none
    → ((m : Np2TsReport) → m.uuid ≡ uuid → Refused o s (handle o (report m) s))
      × ((m : Np2TsReqInterval) → m.uuid ≡ uuid → Refused o s (handle o (req_interval m) s))
      × ((m : Np2TsNeedPeers) → m.uuid ≡ uuid → handle o (need_peers m) s ≡ ok (s, none))
      × ((m : Np2TsLogout) → m.uuid ≡ uuid → handle o (logout m) s ≡ ok (s, none))
unfolding handle get_report get_res_interval get_need_peers get_logout delete_node get_node
handle_unknown o s uuid unknown =
    let (payload, sent, received) = send_msg-Refused o s in
    (
      λ m e. (payload, ground (arith, e, sent), received),
      λ m e. (payload, ground (arith, e, sent), received),
      λ m e. ground (arith, e),
      λ m e. ground (arith, e, erase_absent str_rank m.uuid s.peers),
    )
