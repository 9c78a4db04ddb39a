-- ===== src/NpTracker/Requests.antt =====
-- `get_req_res` and `send_peers` of protocol/tracker/tracker_np_connector.cpp: how a request for
-- the peers of a channel is answered.
use rabbitstreamer.Prelude.{
  inl, inr, append-nil, sym, ℕ, refl, ◌≡◌, ◌==◌, false, List, [], ◌∷◌, some, ok, fault,
  out_of_bounds, ◌-◌, ◌≤◌, ◌<◌, ◌^◌, ◌%◌, ltb, if◌then◌else◌, length, drop, length-take,
  length-drop, All, uint_max, arith,
}
use rabbitstreamer.CoreStruct.{NetAddress, PeerInfoWithAddr, NetAddressFits, PeerInfoWithAddrFits}
use rabbitstreamer.StdMap.Laws.{IsSorted}
use rabbitstreamer.StreamManager.{
  Md5HashStr, StreamManager, str_rank, addresses, get_cp_address, get_sp_address,
}
use rabbitstreamer.NpCoordinator.{
  NpNode, NpCoordinator, assign, get_node, insert_node, can_serve, get_np_address,
}
use rabbitstreamer.NpCoordinator.Rounds.{Offers, Serves-can_serve}
use rabbitstreamer.NpCoordinator.Laws.{get_node-insert_node, get_np_address-ends}
use rabbitstreamer.Message.{pack, receive}
use rabbitstreamer.Message.Np2TsReqRes.{Np2TsReqRes}
use rabbitstreamer.Message.Ts2NpPeers
use rabbitstreamer.NpTracker.{Outside, NpTracker, send_peers_to, send_peers, get_req_res}

length-addresses : (m : StreamManager) → length (addresses m) ≡ length m
unfolding addresses
length-addresses [] = refl
length-addresses (e ∷ m) = omega (arith, length-addresses m)

-- Where the tracker knows a super peer it offers at least one.
get_cp_address_some :
    (random count : ℕ) (m : StreamManager)
    → 0 < length m
    → 0 < count
    → 0 < length (get_cp_address random count m)
unfolding get_cp_address
get_cp_address_some random count m h k =
    let max_pos = length m - count in
    let pos = if ltb 0 max_pos then random % max_pos else 0 in
    grind (
      arith,
      length-take count (drop pos (addresses m)),
      length-drop pos (addresses m),
      length-addresses m,
    )

-- No peer that the tracker knows can serve the block to another one.
abbrev pub NoneServes : List ℕ → List ℕ → ℕ → NpCoordinator → Type 0
NoneServes hash uuid block [] = Unit {0}
NoneServes hash uuid block ((k, node) ∷ m) =
    (can_serve hash uuid block node ≡ false) × NoneServes hash uuid block m

not-Offers :
    (hash uuid : List ℕ) (block : ℕ) (m : NpCoordinator) (info : PeerInfoWithAddr)
    → NoneServes hash uuid block m
    → ¬ Offers hash uuid block m info
not-Offers hash uuid block [] info none_serves o = o
not-Offers hash uuid block ((k, node) ∷ m) info none_serves (inl (serves, core, address)) =
    let can = Serves-can_serve hash uuid block node serves in ground (arith, can, none_serves.0)
not-Offers hash uuid block ((k, node) ∷ m) info none_serves (inr o) =
    not-Offers hash uuid block m info none_serves.1 o

no_peers :
    (rand : ℕ → ℕ) (hash uuid : List ℕ) (count block : ℕ) (m : NpCoordinator)
    → ((i : ℕ) → 0 < rand i)
    → NoneServes hash uuid block m
    → get_np_address rand hash uuid count block m ≡ ok []
no_peers rand hash uuid count block m nonzero none_serves =
    by_list (get_np_address-ends rand hash uuid count block m nonzero)
  where
    by_list :
        ((l : List PeerInfoWithAddr) × (get_np_address rand hash uuid count block m ≡ ok l)
          × All (Offers hash uuid block m) l
          × (length l ≤ count))
        → get_np_address rand hash uuid count block m ≡ ok []
    by_list ([], e, a, b) = e
    by_list (i ∷ l, e, a, b) = absurd (not-Offers hash uuid block m i none_serves a.0)

some_stream :
    (hash : List ℕ) (m : StreamManager) (sp : NetAddress) (sps : List NetAddress)
    → get_sp_address hash 1 m ≡ ok (sp ∷ sps)
    → 0 < length m
unfolding get_sp_address
some_stream hash [] sp sps e = ground arith
some_stream hash (x ∷ m) sp sps e = omega arith

send_peers_to-alone :
    (o : Outside) (uuid : List ℕ) (hash : Md5HashStr) (cp : List NetAddress) (sp : NetAddress)
    (sps : List NetAddress) (s : NpTracker) (found : NpNode)
    → get_node uuid s.peers ≡ some found
    → 0 < length cp
    → send_peers_to o uuid hash [] cp (sp ∷ sps) s ≡ fault out_of_bounds
unfolding send_peers_to
send_peers_to-alone o uuid hash [] sp sps s found known some_cp = absurd (omega arith)
send_peers_to-alone o uuid hash (c ∷ cp) sp sps s found known some_cp = ground (
  arith,
  known,
  Ts2NpPeers.Ts2NpPeers-pack_faults o.memory
      (record {
        sp_list_size = length (c ∷ cp);
        sp_addr = c ∷ cp;
        peer_list_size = 0;
        peer_addr = [];
        np_addr = sp;
      })
      refl refl (omega arith),
)

-- Where `rand` never returns 0, a known peer asks for a channel that a super peer has, and no other
-- peer holds block 0 of it, the tracker reads past the end of its empty array of peers. So the
-- first peer that asks for a channel is never answered.
pub get_req_res_alone :
    (o : Outside) (m : Np2TsReqRes) (s : NpTracker) (found : NpNode) (sp : NetAddress)
    (sps : List NetAddress)
    → ((i : ℕ) → 0 < o.rand i)
    → get_node m.uuid s.peers ≡ some found
    → NoneServes m.resource_md5 m.uuid 0 s.peers
    → get_sp_address m.resource_md5 1 s.streams ≡ ok (sp ∷ sps)
    → get_req_res o m s ≡ fault out_of_bounds
unfolding get_req_res send_peers
get_req_res_alone o m s found sp sps nonzero known none_serves has = ground (
  arith,
  has,
  no_peers o.rand m.resource_md5 m.uuid 20 0 s.peers nonzero none_serves,
  send_peers_to-alone o m.uuid
      (record {
        hash = m.resource_md5;
        block_interval = record { start = uint_max; size = o.interval_size };
      })
      (get_cp_address o.cp_random 10 s.streams) sp sps s found known,
  get_cp_address_some o.cp_random 10 s.streams,
  some_stream m.resource_md5 s.streams sp sps has,
)

-- The answer of `send_peers` with these lists.
abbrev pub answer : List PeerInfoWithAddr → List NetAddress → NetAddress → Ts2NpPeers.Ts2NpPeers
answer np cp sp = record {
  sp_list_size = length cp;
  sp_addr = cp;
  peer_list_size = length np;
  peer_addr = np;
  np_addr = sp;
}

send_peers_to-balanced :
    (o : Outside) (uuid : List ℕ) (hash : Md5HashStr) (np : List PeerInfoWithAddr)
    (cp : List NetAddress) (sp : NetAddress) (sps : List NetAddress) (s : NpTracker)
    (found : NpNode) (payload : List ℕ)
    → get_node uuid s.peers ≡ some found
    → 0 < length cp
    → pack Ts2NpPeers.message o.memory (answer np cp sp) ≡ ok payload
    → send_peers_to o uuid hash np cp (sp ∷ sps) s
      ≡ ok (
        record s {
          peers =
              insert_node uuid
                (record (assign found) { last_recv_report_time = o.now; channel_id_md5 = hash })
                s.peers;
        },
        some payload,
      )
unfolding send_peers_to
send_peers_to-balanced o uuid hash np [] sp sps s found payload known some_cp e =
    absurd (omega arith)
send_peers_to-balanced o uuid hash np (c ∷ cp) sp sps s found payload known some_cp e =
    ground (arith, known, e)

-- Where the tracker finds as many other peers as super peers, at least one, all with addresses in
-- range, and a super peer that has the channel, a known peer that asks for it is answered with a
-- packet that it receives as these lists and the address of that super peer. The tracker then
-- knows the peer with the time of the request and with the channel that it asked for, and all
-- other peers are what they were.
pub get_req_res_lem :
    (o : Outside) (m : Np2TsReqRes) (s : NpTracker) (found : NpNode) (np : List PeerInfoWithAddr)
    (sp : NetAddress) (sps : List NetAddress)
    → let cp = get_cp_address o.cp_random 10 s.streams in
      let hash : Md5HashStr = record {
        hash = m.resource_md5;
        block_interval = record { start = uint_max; size = o.interval_size };
      } in
      IsSorted str_rank 0 s.peers
      → get_node m.uuid s.peers ≡ some found
      → get_np_address o.rand m.resource_md5 m.uuid 20 0 s.peers ≡ ok np
      → get_sp_address m.resource_md5 1 s.streams ≡ ok (sp ∷ sps)
      → length np ≡ length cp
      → length np < 2 ^ 8
      → All PeerInfoWithAddrFits np
      → All NetAddressFits cp
      → NetAddressFits sp
      → (peers' : NpCoordinator) × (payload : List ℕ) × (get_req_res o m s
          ≡ ok (record s { peers = peers' }, some payload))
        × (receive Ts2NpPeers.message payload ≡ ok (Ts2NpPeers.tag, answer np cp sp))
        × ((other : List ℕ)
            → get_node other peers' ≡ (
                if str_rank other == str_rank m.uuid
                then some
                    (record (assign found) { last_recv_report_time = o.now; channel_id_md5 = hash })
                else get_node other s.peers))
unfolding get_req_res send_peers assign
get_req_res_lem o m s found np sp sps sorted known nps has sized small np_fits cp_fits sp_fits =
    let cp = get_cp_address o.cp_random 10 s.streams in
    let hash : Md5HashStr = record {
      hash = m.resource_md5;
      block_interval = record { start = uint_max; size = o.interval_size };
    } in
    let node = record (assign found) { last_recv_report_time = o.now; channel_id_md5 = hash } in
    let t = Ts2NpPeers.Ts2NpPeers-RoundTrips o.memory (answer np cp sp) (record {
      sp_list_size = omega arith;
      sp_addr = cp_fits;
      length-sp_addr = refl;
      peer_list_size = small;
      peer_addr = np_fits;
      length-peer_addr = refl;
      np_addr = sp_fits;
      balanced = sym sized;
    }) in
    let some_cp =
      get_cp_address_some o.cp_random 10 s.streams (some_stream m.resource_md5 s.streams sp sps has)
        (omega arith) in
    (
      insert_node m.uuid node s.peers,
      t.payload,
      ground (
        arith,
        nps,
        has,
        send_peers_to-balanced o m.uuid hash np cp sp sps s found t.payload known some_cp t.packed,
      ),
      rw append-nil at (t.received []),
      λ other. (get_node-insert_node m.uuid other node s.peers sorted).1,
    )
