-- ===== src/TrackerClient/Resources.antt =====
-- How the list of the channels of a super peer (`send_res_list` of
-- protocol/sp/sp_tracker_connector.cpp) reaches the tracker (`get_res_list` of
-- protocol/tracker/tracker_sp_connector.cpp).
use rabbitstreamer.Message.Sp2TsResList
use rabbitstreamer.Prelude.{
  take, if◌then◌else◌, [], ◌∷◌, ◌%◌, ◌^◌, ◌<◌, ◌≢◌, ℕ, refl, ◌≡◌, true, List, some, ok, length,
  arith,
}
use rabbitstreamer.SourceManager.{
  list_sources, source_status, get_source_list, SourceStatus, SourceManager,
}
use rabbitstreamer.StreamManager.{Md5HashStr, ChannelNode, StreamManager, get_node}
use rabbitstreamer.StreamManager.Laws.{IsValid}
use rabbitstreamer.Message.{pack}
use rabbitstreamer.Dispatch.{res_list}
use rabbitstreamer.Dispatch.SuperPeers.{handle_sp_packet-sp_pack}
use rabbitstreamer.CoreStruct.{md5_len}
use rabbitstreamer.StdMap.{StdMap}
use rabbitstreamer.BufferQueue.{BufferQueue, get_buffer_interval}
use rabbitstreamer.SpTracker.{get_register, nothing, packet, register_node}
use rabbitstreamer.SpTracker
use rabbitstreamer.SpTracker.Updates.{hashes_of, length-hashes, get_res_list_lem}
use rabbitstreamer.TrackerClient.{
  resource_info, tracker_timer_id, send_res_list, resource_infos, TrackerClient, Outside,
  write_packed, handle_timeout,
}

-- The list of resources that a super peer sends.
abbrev pub announcement : SourceManager → TrackerClient → Sp2TsResList.Sp2TsResList
announcement sources c = record {
  sp_uuid = c.sp_id;
  resource_count = length (get_source_list sources);
  res_info = resource_infos (get_source_list sources);
}

length-resource_infos : (sts : List SourceStatus) → length (resource_infos sts) ≡ length sts
unfolding resource_infos
length-resource_infos [] = refl
length-resource_infos (st ∷ sts) = omega (arith, length-resource_infos sts)

send_res_list_lem :
    (o : Outside) (sources : SourceManager) (c : TrackerClient) (sent : List ℕ)
    → length (get_source_list sources) ≢ 0
    → length (get_source_list sources) < 2 ^ 32
    → pack Sp2TsResList.message o.memory (announcement sources c) ≡ ok sent
    → send_res_list o sources c ≡ ok (c, some sent)
unfolding send_res_list write_packed
send_res_list_lem o sources c sent some_source few packed =
    let n = length (get_source_list sources) in
    let same : n % 2 ^ 32 ≡ n = omega arith in rw same (ground (arith, packed))

-- An entry of the tracker for a channel: its hash, the first block of its ring, and how many blocks
-- the ring holds, which is its size if it is full and else how far it is written.
pub record Announced (q : BufferQueue) (h : Md5HashStr) : Type 0 where
  pub named : h.hash ≡ take md5_len q.source_hash
  pub first : h.block_interval.start ≡ q.min_block_id
  pub held : h.block_interval.size ≡ (if q.buffer_full_flag then q.buffer_number else q.queue_index)

-- One entry for each channel of the map, in its order.
abbrev pub Reported : StdMap (List ℕ) BufferQueue → List Md5HashStr → Type 0
Reported [] [] = Unit {0}
Reported [] (h ∷ hs) = ⊥
Reported ((hash, q) ∷ m) [] = ⊥
Reported ((hash, q) ∷ m) (h ∷ hs) = Announced q h × Reported m hs

list_sources-Reported :
    (m : StdMap (List ℕ) BufferQueue) → Reported m (hashes_of (resource_infos (list_sources m)))
unfolding list_sources source_status get_buffer_interval resource_infos resource_info hashes_of
list_sources-Reported [] = tt
list_sources-Reported ((hash, q) ∷ m) =
    (record { named = refl; first = refl; held = omega arith }, list_sources-Reported m)

-- What a registered super peer that has a channel sends at its first timer, the tracker takes for
-- the list of its resources, where all fields are in the range of their types, whatever its receive
-- buffer holds behind the packet. The tracker, if it knows the super peer and all its arrays are as
-- long as they say, then knows of the super peer one resource for each of its channels, in the order
-- of its map: with the hash of the channel, the first block of its ring and the number of blocks
-- that the ring holds. The address of the super peer stays what it was.
pub res_list_reaches_tracker :
    (o : Outside) (t : SpTracker.Outside) (sources : SourceManager) (c : TrackerClient)
    (s : StreamManager) (node : ChannelNode) (behind : List ℕ)
    → c.register_flag ≡ true
    → length (get_source_list sources) ≢ 0
    → Sp2TsResList.IsValid (announcement sources c)
    → IsValid s
    → get_node c.sp_id s ≡ some node
    → (sent : List ℕ) × (s' : StreamManager) × (node' : ChannelNode) × (handle_timeout o sources
          tracker_timer_id c
        ≡ ok (c, some sent))
      × (SpTracker.handle_udp_packet t sent behind s ≡ ok (s', nothing))
      × (get_node c.sp_id s' ≡ some node')
      × Reported sources.source_hashmap node'.hashes
      × (node'.resource_count ≡ length node'.hashes)
      × (node'.sp_address ≡ node.sp_address)
      × IsValid s'
unfolding handle_timeout SpTracker.handle_udp_packet SpTracker.handle get_source_list
res_list_reaches_tracker o t sources c s node behind registered some_source fits v known =
    let m = announcement sources c in
    let (sent, packed, taken) = handle_sp_packet-sp_pack o.memory (res_list m) fits in
    let (s', replied, v', found) = get_res_list_lem t m s node v known fits.length-res_info in
    (
      sent,
      s',
      record node {
        last_recv_report_time = t.now;
        resource_count = m.resource_count;
        hashes = hashes_of m.res_info;
      },
      ground (arith, send_res_list_lem o sources c sent some_source fits.resource_count packed),
      ground (arith, taken behind, replied),
      ground (arith, found c.sp_id),
      list_sources-Reported sources.source_hashmap,
      omega (arith, fits.length-res_info, length-hashes m.res_info),
      refl,
      v',
    )
