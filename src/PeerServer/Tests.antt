-- ===== src/PeerServer/Tests.antt =====
-- protocol/sp/sp_np_connector.cpp with one channel.
use rabbitstreamer.Prelude.{
  ℕ, refl, ◌≡◌, ◌==◌, false, true, List, [], ◌∷◌, ◌++◌, none, some, ok, length, replicate,
  length-replicate, add32, arith,
}
use rabbitstreamer.CoreStruct.{md5_len}
use rabbitstreamer.Streamer.Bytes.{le}
use rabbitstreamer.StdMap.{find, case_rank, to_lower}
use rabbitstreamer.Message.Sp2SpPushList.{Sp2SpPushList}
use rabbitstreamer.Message.Sp2SpPushList
use rabbitstreamer.BufferQueue.{media_block_size, BufferQueue, MediaTypeHeader, reserve_buffer}
use rabbitstreamer.BufferQueue
use rabbitstreamer.BufferQueue.Window.{Holds}
use rabbitstreamer.BufferQueue.Read.{publish_all, publish_all-Holds, reserve_buffer-Holds}
use rabbitstreamer.BitrateCalculator.{BitrateCalculator, update_buffersize}
use rabbitstreamer.BitrateCalculator
use rabbitstreamer.ReceiveBuffer.{ReceiveBuffer}
use rabbitstreamer.ReceiveBuffer.Scripted.{zeros}
use rabbitstreamer.SourceManager.{SourceManager, hash_rank, get_buffer_queue}
use rabbitstreamer.SourceManager.Laws.{IsValid}
use rabbitstreamer.CaptureServer.{CaptureServer, get_block}
use rabbitstreamer.CaptureServer
use rabbitstreamer.CaptureServer.Blocks.{block_message}
use rabbitstreamer.PeerServer.{PeerServer, Outside, sort, insert_sorted, get_push_list}
use rabbitstreamer.PeerServer.Sort.{Ascends, occurrences}
use rabbitstreamer.PeerServer.Push.{held_packets, count_held}
use rabbitstreamer.PeerServer.Requests.{request, get_push_list_lem}
use rabbitstreamer.PeerServer.Relay.{full_packet, block_relayed}
use rabbitstreamer.PeerServer.Idle.{Progress}

abbrev hash_a : List ℕ
hash_a = replicate md5_len 97

abbrev hash_b : List ℕ
hash_b = replicate md5_len 98

abbrev no_header : MediaTypeHeader
no_header = record { media_type = []; header_size = 0 }

abbrev content : ℕ → List ℕ
content i = replicate media_block_size i

whole : (i : ℕ) → length (content i) ≡ media_block_size
whole i = length-replicate media_block_size i

abbrev empty : BufferQueue
empty = reserve_buffer [] 2 (BufferQueue.create no_header 7 hash_a [] true)

abbrev two : (q : BufferQueue) × (publish_all content 2 empty ≡ ok q) × Holds content 2 2 q
two =
    publish_all-Holds content 2 2 empty
      (reserve_buffer-Holds content no_header 7 hash_a [] [] true 2 (omega arith))

abbrev sources : SourceManager
sources = record { source_hashmap = (hash_a, two.0) ∷ []; tracker_address = [] }

sources-IsValid : IsValid sources
sources-IsValid = ground arith

a_found : get_buffer_queue hash_a sources ≡ some two.0
unfolding get_buffer_queue find
a_found = ground arith

b_other : (hash_rank hash_b == hash_rank hash_a) ≡ false
unfolding case_rank to_lower
b_other = refl

abbrev no_buffer : ReceiveBuffer
no_buffer = record { buffer = zeros 16; buffer_size = 16; curr_ptr = 3; end_ptr = 5 }

abbrev outside : Outside
outside = record {
  memory = λ i. 204;
  unset_mediatype = record {
    resource_md5 = [];
    block_start_id = 1;
    block_num = 2;
    media_type_size = 3;
    media_type = [];
    program_name_size = 4;
    program_name = [];
    program_time = 5;
    channel_name_size = 6;
    channel_name = [];
  };
  unset_response = record { resource_md5 = []; block_id = 7; block_size = 8; block_data = [] };
  behind = λ index. [];
  tv = λ place. none;
}

-- A connection that has been sent the media type.
abbrev server : PeerServer
server = record {
  np_buffer = no_buffer;
  media_type_flag = true;
  calculator = BitrateCalculator.fresh;
  loop_flag = true;
}

-- Blocks 1, 5 and 0 are asked for.
abbrev asked : Sp2SpPushList
asked = record {
  resource_md5 = hash_a;
  source_sp_addr = record { sin_family = 2; sin_port = 80; s_addr = 5 };
  block_count = 3;
  block_array = 1 ∷ 5 ∷ 0 ∷ [];
}

asked-IsValid : Sp2SpPushList.IsValid asked
asked-IsValid = record {
  resource_md5 = refl;
  source_sp_addr = omega arith;
  block_count = omega arith;
  block_array = omega arith;
  length-block_array = refl;
}

abbrev two_counted : BitrateCalculator
two_counted = record { recv_buffer_size = 32768; last_recv_msec = 0 }

are_counted : count_held outside 2 2 0 (sort (1 ∷ 5 ∷ 0 ∷ [])) server.calculator ≡ ok two_counted
unfolding count_held sort insert_sorted update_buffersize add32
are_counted = refl

get_push_list_lem_example :
    (get_push_list outside sources 58 (request asked ++ (9 ∷ [])) server
      ≡ ok (
        record server { calculator = two_counted },
        held_packets content 2 2 outside hash_a (sort (1 ∷ 5 ∷ 0 ∷ [])),
      ))
    × Ascends 0 (sort (1 ∷ 5 ∷ 0 ∷ []))
    × ((v : ℕ) → occurrences v (sort (1 ∷ 5 ∷ 0 ∷ [])) ≡ occurrences v (1 ∷ 5 ∷ 0 ∷ []))
unfolding le
get_push_list_lem_example =
    get_push_list_lem content 2 2 outside sources two.0 asked 58 (9 ∷ []) server two_counted
      asked-IsValid a_found two.2 (λ i. omega (arith, whole i)) refl (omega arith) refl are_counted

-- The capture server that sends block 2, and the peer that asks for it.
abbrev capture : CaptureServer
capture = record {
  chnl_hash = hash_a;
  cs_buffer = no_buffer;
  calculator = BitrateCalculator.fresh;
  sources = sources;
}

abbrev capture_outside : CaptureServer.Outside
capture_outside = record {
  now = 8;
  tv = none;
  hex_digest = λ name. hash_b;
  memory = [];
  header = no_header;
}

abbrev one_counted : BitrateCalculator
one_counted = record { recv_buffer_size = 16384; last_recv_msec = 0 }

size_counted : update_buffersize none 16384 capture.calculator ≡ ok (none, one_counted)
unfolding update_buffersize add32
size_counted = refl

block_counted :
    update_buffersize none (length (content 2)) capture.calculator ≡ ok (none, one_counted)
block_counted = rw (whole 2) size_counted

one_is_counted : count_held outside 2 3 0 (sort (2 ∷ [])) server.calculator ≡ ok one_counted
unfolding count_held sort insert_sorted update_buffersize add32
one_is_counted = refl

abbrev asked_last : Sp2SpPushList
asked_last = record asked { block_count = 1; block_array = 2 ∷ [] }

asked_last-IsValid : Sp2SpPushList.IsValid asked_last
asked_last-IsValid = record {
  resource_md5 = refl;
  source_sp_addr = omega arith;
  block_count = omega arith;
  block_array = omega arith;
  length-block_array = refl;
}

block_relayed_example :
    (c' : CaptureServer) × (get_block capture_outside (block_message 2 (content 2) ++ []) capture
      ≡ ok c')
    × (get_push_list outside c'.sources 50 (request asked_last ++ []) server
        ≡ ok (record server { calculator = one_counted }, full_packet hash_a 2 (content 2) ∷ []))
unfolding le
block_relayed_example =
    block_relayed content 2 2 capture_outside capture two.0 none one_counted [] hash_b outside
      asked_last 50 [] server one_counted sources-IsValid a_found two.2 (omega arith) whole
      block_counted b_other asked_last-IsValid refl refl refl (omega arith) refl one_is_counted

abbrev waiting : Progress (List ℕ)
waiting = record { server = server; no_receive_counter = 100; sent = []; conn = [] }
