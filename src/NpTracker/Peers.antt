-- ===== src/NpTracker/Peers.antt =====
-- Which peers a packet can change in protocol/tracker/tracker_np_connector.cpp, and what a peer is
-- answered that the tracker does not know.
use rabbitstreamer.Prelude.{
  drop, ◌++◌, ap, Ensures-ok, holds, failed, Ensures-if, Ensures-find, Ensures-bind, Ensures,
  >>=-ok, out_of_bounds, inr, inl, leb, Bool-cases, ◌∙◌, ℕ, refl, ◌≡◌, ◌≢◌, ◌==◌, if◌then◌else◌,
  List, [], ◌∷◌, Option, none, some, Result, ok, ◌>>=◌, length, arith,
}
use rabbitstreamer.StdMap.{erase}
use rabbitstreamer.StdMap.Laws.{IsSorted, find-erase, erase-IsSorted}
use rabbitstreamer.StreamManager.{str_rank, Md5HashStr, get_sp_address, get_cp_address}
use rabbitstreamer.NpCoordinator.{
  assign, NpNode, get_node, insert_node, delete_node, get_np_address,
}
use rabbitstreamer.NpCoordinator.Laws.{get_node-insert_node}
use rabbitstreamer.CoreStruct.{uuid_length, NetAddress, PeerInfoWithAddr}
use rabbitstreamer.Dispatch.{
  NpMessage, login, req_res, report, need_peers, req_interval, logout, handle_np_packet,
}
use rabbitstreamer.Message.Np2TsLogin.{Np2TsLogin}
use rabbitstreamer.Message.Np2TsReport.{Np2TsReport}
use rabbitstreamer.Uuid.{generate_uuid, uuid_text}
use rabbitstreamer.NpTracker.{
  get_channel_interval, reported, Np2TsReqInterval, Np2TsNeedPeers, Np2TsLogout, login_node,
  Outside, NpTracker, Reply, send_welcome, send_msg, get_login, send_peers_to, send_peers,
  get_req_res, get_report, get_need_peers, get_logout, send_res_interval, get_res_interval, handle,
  handle_udp_packet,
}

-- The peer that a message is from. A login is from the peer that gets the new UUID.
abbrev pub sender : Outside → NpMessage → List ℕ
sender o (login m) = uuid_text o.rand
sender o (req_res m) = m.uuid
sender o (report m) = m.uuid
sender o (need_peers m) = m.uuid
sender o (req_interval m) = m.uuid
sender o (logout m) = m.uuid

-- A handler that ends without a fault leaves the map in order, and one peer and all that is known
-- of super peers as they were.
abbrev pub Kept : List ℕ → NpTracker → NpTracker × Option (List ℕ) → Type 0
Kept other s (s', p) =
    IsSorted str_rank 0 s'.peers
    × (get_node other s'.peers ≡ get_node other s.peers)
    × (s'.streams ≡ s.streams)

abbrev pub Keeps : List ℕ → NpTracker → Reply → Type 0
Keeps other s = Ensures (Kept other s)

module _ (o : Outside) (other : List ℕ) (s : NpTracker) (sorted : IsSorted str_rank 0 s.peers) where
  insert-Keeps :
      (uuid : List ℕ) (node : NpNode) (p : Option (List ℕ))
      → str_rank other ≢ str_rank uuid
      → Keeps other s (ok (record s { peers = insert_node uuid node s.peers }, p))
  insert-Keeps uuid node p ne =
      let (still, found) = get_node-insert_node uuid other node s.peers sorted in
      holds (_, p) (still, ground (arith, found), refl)

  same-Keeps : (p : Option (List ℕ)) → Keeps other s (ok (s, p))
  same-Keeps p = holds (s, p) (sorted, refl, refl)

  send_msg-Keeps : Keeps other s (send_msg o s)
  unfolding send_msg
  send_msg-Keeps = Ensures-bind (Kept other s) _ _ (λ p e. same-Keeps (some p))

  login-Keeps :
      (m : Np2TsLogin) (digits : List ℕ)
      → str_rank other ≢ str_rank digits
      → Keeps other s (
          if m.local_ip_list_size == 0
          then ok (s, none)
          else send_welcome o digits
              (login_node o digits m).client_address
              (record s { peers = insert_node digits (login_node o digits m) s.peers }))
  unfolding send_welcome
  login-Keeps m digits ne = Ensures-if (Kept other s) _ _ _ (same-Keeps none) (
      Ensures-bind (Kept other s) _ _
        (λ p e. insert-Keeps digits (login_node o digits m) (some p) ne))

  get_login-Keeps :
      (m : Np2TsLogin)
      → str_rank other ≢ str_rank (uuid_text o.rand)
      → Keeps other s (get_login o m s)
  unfolding get_login generate_uuid
  get_login-Keeps m ne = elim (Bool-cases (leb (length (uuid_text o.rand)) uuid_length)) [
    | inl fits ↦ rw fits (login-Keeps m (uuid_text o.rand) ne)
    | inr too_long ↦ rw too_long (failed out_of_bounds)
  ]

  send_peers_to-Keeps :
      (uuid : List ℕ) (hash : Md5HashStr) (np : List PeerInfoWithAddr) (cp sp : List NetAddress)
      → str_rank other ≢ str_rank uuid
      → Keeps other s (send_peers_to o uuid hash np cp sp s)
  unfolding send_peers_to
  send_peers_to-Keeps uuid hash np cp [] ne = same-Keeps none
  send_peers_to-Keeps uuid hash np [] (p ∷ sp) ne = same-Keeps none
  send_peers_to-Keeps uuid hash np (c ∷ cp) (p ∷ sp) ne =
      Ensures-find (Kept other s) (get_node uuid s.peers) _ _ send_msg-Keeps (λ node e.
        Ensures-bind (Kept other s) _ _ (λ payload e.
          insert-Keeps uuid
            (record (assign node) { last_recv_report_time = o.now; channel_id_md5 = hash })
            (some payload) ne))

  send_peers-Keeps :
      (uuid : List ℕ) (hash : Md5HashStr) (block : ℕ)
      → str_rank other ≢ str_rank uuid
      → Keeps other s (send_peers o uuid hash block s)
  unfolding send_peers
  send_peers-Keeps uuid hash block ne =
      Ensures-bind (Kept other s) (get_np_address o.rand hash.hash uuid 20 block s.peers) _ (λ np e.
        Ensures-bind (Kept other s) (get_sp_address hash.hash 1 s.streams) _ (λ sp e.
          send_peers_to-Keeps uuid hash np (get_cp_address o.cp_random 10 s.streams) sp ne))

  get_report-Keeps :
      (m : Np2TsReport) → str_rank other ≢ str_rank m.uuid → Keeps other s (get_report o m s)
  unfolding get_report
  get_report-Keeps m ne =
      Ensures-find (Kept other s) (get_node m.uuid s.peers) _ _ send_msg-Keeps (λ node e.
        Ensures-if (Kept other s) _ _ _ (same-Keeps none) (
          Ensures-bind (Kept other s) _ _
            (λ xs e. insert-Keeps m.uuid (reported m xs (assign node)) none ne)))

  get_need_peers-Keeps :
      (m : Np2TsNeedPeers) → str_rank other ≢ str_rank m.uuid → Keeps other s (get_need_peers o m s)
  unfolding get_need_peers
  get_need_peers-Keeps m ne =
      Ensures-find (Kept other s) (get_node m.uuid s.peers) _ _ (same-Keeps none)
        (λ node e. send_peers-Keeps m.uuid node.channel_id_md5 m.current_block ne)

  send_res_interval-Keeps : (hash : List ℕ) → Keeps other s (send_res_interval o hash s)
  unfolding send_res_interval
  send_res_interval-Keeps hash =
      Ensures-bind (Kept other s) (get_channel_interval hash s.streams) _ (λ found e.
        Ensures-find (Kept other s) found _ _ (same-Keeps none) (λ i e.
          Ensures-if (Kept other s) _ _ _ (same-Keeps none) (
            Ensures-bind (Kept other s) _ _ (λ p e.
              holds (record s { last_send_blockinterval = i }, some p) (sorted, refl, refl)))))

  get_res_interval-Keeps : (m : Np2TsReqInterval) → Keeps other s (get_res_interval o m s)
  unfolding get_res_interval
  get_res_interval-Keeps m =
      Ensures-find (Kept other s) (get_node m.uuid s.peers) _ _ send_msg-Keeps
        (λ node e. send_res_interval-Keeps node.channel_id_md5.hash)

  get_logout-Keeps :
      (m : Np2TsLogout) → str_rank other ≢ str_rank m.uuid → Keeps other s (get_logout m s)
  unfolding get_logout delete_node get_node
  get_logout-Keeps m ne =
      holds (record s { peers = erase str_rank m.uuid s.peers }, none)
        (
          erase-IsSorted str_rank 0 m.uuid s.peers sorted,
          ground (arith, find-erase str_rank 0 m.uuid other s.peers sorted),
          refl,
        )

  handle-Keeps :
      (m : NpMessage) → str_rank other ≢ str_rank (sender o m) → Keeps other s (handle o m s)
  unfolding handle get_req_res
  handle-Keeps (login m) ne = get_login-Keeps m ne
  handle-Keeps (req_res m) ne = send_peers-Keeps m.uuid _ 0 ne
  handle-Keeps (report m) ne = get_report-Keeps m ne
  handle-Keeps (need_peers m) ne = get_need_peers-Keeps m ne
  handle-Keeps (req_interval m) ne = get_res_interval-Keeps m
  handle-Keeps (logout m) ne = get_logout-Keeps m ne

-- What a packet is taken for, if anything, is not from this peer.
abbrev pub NotSent : List ℕ → Outside → List ℕ → List ℕ → Type 0
NotSent other o buf behind =
    (m : NpMessage)
    → handle_np_packet buf behind ≡ ok (some m)
    → str_rank other ≢ str_rank (sender o m)

pub handle_udp_packet-Keeps :
    (o : Outside) (buf behind other : List ℕ) (s : NpTracker)
    → IsSorted str_rank 0 s.peers
    → NotSent other o buf behind
    → Keeps other s (handle_udp_packet o buf behind s)
unfolding handle_udp_packet
handle_udp_packet-Keeps o buf behind other s sorted others =
    Ensures-bind (Kept other s) (handle_np_packet buf behind) _ (λ m e.
      Ensures-find (Kept other s) m _ _ (same-Keeps o other s sorted none)
        (λ n f. handle-Keeps o other s sorted n (others n (e ∙ ap ok f))))

-- The tracker takes one packet after the other, each with what its handler takes from outside. The
-- listener stores each of them at the start of the same buffer (`loop` of core/udp_listener.cpp), so
-- what an earlier packet left stands behind a shorter one.
unfoldable pub run : List (Outside × List ℕ) → List ℕ → NpTracker → Result NpTracker
run [] mem s = ok s
run ((o, buf) ∷ packets) mem s =
    let behind = drop (length buf) mem in
    handle_udp_packet o buf behind s >>= λ r. run packets (buf ++ behind) r.0

-- None of the packets is taken for a message from this peer.
abbrev pub NotFrom : List ℕ → List (Outside × List ℕ) → List ℕ → Type 0
NotFrom other [] mem = Unit {0}
NotFrom other ((o, buf) ∷ packets) mem =
    let behind = drop (length buf) mem in
    NotSent other o buf behind × NotFrom other packets (buf ++ behind)

-- Whatever packets the tracker takes one after the other into the same memory, also ones that are
-- shorter or longer than their headers say, if none of them is taken for a message from a given peer
-- and none ends in a fault, then its map of peers stays in order, it still knows of that peer
-- exactly what it knew before, and all that it knows of super peers is as it was.
pub run_keeps_peer :
    (packets : List (Outside × List ℕ)) (mem other : List ℕ) (s s' : NpTracker)
    → IsSorted str_rank 0 s.peers
    → NotFrom other packets mem
    → run packets mem s ≡ ok s'
    → IsSorted str_rank 0 s'.peers
      × (get_node other s'.peers ≡ get_node other s.peers)
      × (s'.streams ≡ s.streams)
unfolding run
run_keeps_peer [] mem other s s' sorted others e = ground arith
run_keeps_peer ((o, buf) ∷ packets) mem other s s' sorted others e =
    let behind = drop (length buf) mem in
    let (r, first, rest) =
      >>=-ok (handle_udp_packet o buf behind s) (λ r. run packets (buf ++ behind) r.0) e in
    let (sorted', found, streams) =
      Ensures-ok (Kept other s) (handle_udp_packet o buf behind s) r
        (handle_udp_packet-Keeps o buf behind other s sorted others.0) first in
    let (still, found', streams') =
      run_keeps_peer packets (buf ++ drop (length buf) mem) other r.0 s' sorted' others.1 rest in
    (still, found' ∙ found, streams' ∙ streams)
