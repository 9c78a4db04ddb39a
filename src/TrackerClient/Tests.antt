-- ===== src/TrackerClient/Tests.antt =====
-- A super peer (protocol/sp/sp_tracker_connector.cpp) with one channel, and the tracker.
use rabbitstreamer.Prelude.{
  ℕ, suc, refl, ◌≡◌, ◌≢◌, ◌≤◌, false, true, List, [], ◌∷◌, some, ok, length, replicate, arith,
}
use rabbitstreamer.CoreStruct.{uuid_length, md5_len}
use rabbitstreamer.StdMap.{find}
use rabbitstreamer.BufferQueue.{BufferQueue, get_buffer_interval}
use rabbitstreamer.SourceManager.{SourceManager, get_source_list, list_sources, source_status}
use rabbitstreamer.StreamManager.{ChannelNode, StreamManager, get_node}
use rabbitstreamer.StreamManager.Laws.{IsValid}
use rabbitstreamer.Message.Sp2TsRegister
use rabbitstreamer.Message.Sp2TsResList
use rabbitstreamer.Uuid.Laws.{IsSmall}
use rabbitstreamer.Message.Framing.{length-new_array}
use rabbitstreamer.Dispatch.{register, handle_sp_packet}
use rabbitstreamer.Dispatch.SuperPeers.{sp_pack, handle_sp_packet-sp_pack}
use rabbitstreamer.SpTracker.{packet, nothing, register_node}
use rabbitstreamer.SpTracker
use rabbitstreamer.TrackerClient.{
  TrackerClient, Outside, resource_info, resource_infos, create, handle_timeout, tracker_timer_id,
}
use rabbitstreamer.TrackerClient.Handshake.{Shaken, small-Shaken, registration}
use rabbitstreamer.TrackerClient.Resources.{Reported, announcement, res_list_reaches_tracker}
use rabbitstreamer.TrackerClient.Bounds.{run, run-le}

abbrev outside : Outside
outside = record { memory = λ i. 204; user_id = 7; password = replicate md5_len 9 }

abbrev tracker : SpTracker.Outside
tracker = record {
  now = 20;
  rand = λ i. suc i;
  sin_port = 4000;
  s_addr = 16909060;
  this = 1;
  memory = λ i. 204;
}

tracker-IsSmall : IsSmall tracker.rand
tracker-IsSmall = record {
  first = omega arith;
  second = omega arith;
  third = omega arith;
  fourth = omega arith;
}

-- A channel whose ring holds the blocks 3 and 4.
abbrev queue : BufferQueue
queue = record {
  media_header = record { media_type = []; header_size = 0 };
  create_time = 7;
  source_hash = replicate md5_len 104;
  source_name = 98 ∷ [];
  is_source = true;
  queue_index = 1;
  dequeue_index = 0;
  buffer_number = 2;
  min_block_id = 3;
  min_block_index = 1;
  buffer_full_flag = true;
  buffer_vector = [];
}

abbrev sources : SourceManager
sources = record { source_hashmap = (replicate md5_len 104, queue) ∷ []; tracker_address = [] }

-- Before it has registered.
abbrev new_client : TrackerClient
new_client = create [] (λ i. 204)

new_client-IsValid : Sp2TsRegister.IsValid (registration outside new_client)
unfolding create
new_client-IsValid = record { user_id = omega arith; password = refl; service_port = omega arith }

nobody-IsValid : IsValid []
nobody-IsValid = record { sorted = omega arith; full = omega arith }

some_room : 21 ≤ length new_client.recv_buf
unfolding create
some_room = omega (arith, length-new_array (λ i. 204) 65535)

-- The packet of the registration.
abbrev sent :
    (sent : List ℕ) × (sp_pack outside.memory (register (registration outside new_client))
      ≡ ok sent)
    × ((behind : List ℕ)
        → handle_sp_packet sent behind ≡ ok (some (register (registration outside new_client))))
sent =
    handle_sp_packet-sp_pack outside.memory (register (registration outside new_client))
      new_client-IsValid

-- The welcome of the tracker is the one packet of a run.
abbrev shaken : Shaken outside tracker sources new_client [] sent.0 []
shaken =
    small-Shaken outside tracker sources new_client [] sent.0 [] (sent.2 []) some_room
      tracker-IsSmall nobody-IsValid

abbrev packets : List (Outside × SourceManager × List ℕ)
packets = (outside, sources, shaken.answer) ∷ []

taken : run packets new_client ≡ ok shaken.client
unfolding run
taken = ground (arith, shaken.taken)

run-le_example : length packets ≤ 13107
run-le_example = run-le [] (λ i. 204) packets shaken.client (shaken.some_bytes, tt) taken

abbrev uuid : List ℕ
uuid = replicate uuid_length 97

abbrev client : TrackerClient
client = record { sp_id = uuid; register_flag = true; sp_port = 2222; recv_buf = [] }

abbrev node : ChannelNode
node = record {
  last_recv_report_time = 10;
  user_id = 7;
  pswd = [];
  service_port = 2222;
  resource_count = 0;
  con_num = 0;
  exceed_max_conn = false;
  bandwidth = 0;
  sp_address = record { sin_family = 2; sin_port = 80; s_addr = 5 };
  sp_service = 1;
  hashes = [];
}

abbrev known : StreamManager
known = (uuid, node) ∷ []

known-IsValid : IsValid known
known-IsValid = record { sorted = ground arith; full = omega arith }

is_known : get_node uuid known ≡ some node
unfolding get_node find
is_known = ground arith

some_source : length (get_source_list sources) ≢ 0
unfolding get_source_list list_sources
some_source = omega arith

announced-IsValid : Sp2TsResList.IsValid (announcement sources client)
unfolding get_source_list list_sources source_status resource_infos resource_info
    get_buffer_interval
announced-IsValid = record {
  sp_uuid = refl;
  resource_count = omega arith;
  res_info = ((refl, (omega arith, omega arith)), tt);
  length-res_info = refl;
  small = omega arith;
}

res_list_reaches_tracker_example :
    (sent : List ℕ) × (s' : StreamManager) × (node' : ChannelNode) × (handle_timeout outside sources
        tracker_timer_id client
      ≡ ok (client, some sent))
    × (SpTracker.handle_udp_packet tracker sent (7 ∷ []) known ≡ ok (s', nothing))
    × (get_node uuid s' ≡ some node')
    × Reported sources.source_hashmap node'.hashes
    × (node'.resource_count ≡ length node'.hashes)
    × (node'.sp_address ≡ node.sp_address)
    × IsValid s'
res_list_reaches_tracker_example =
    res_list_reaches_tracker outside tracker sources client known node (7 ∷ []) refl some_source
      announced-IsValid known-IsValid is_known
