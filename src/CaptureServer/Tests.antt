-- ===== src/CaptureServer/Tests.antt =====
-- protocol/sp/sp_cs_connector.cpp with one channel, whose blocks have six bytes.
use rabbitstreamer.Prelude.{
  ℕ, refl, ◌≡◌, ◌==◌, false, true, List, [], ◌∷◌, ◌++◌, none, some, ok, replicate, add32, arith,
}
use rabbitstreamer.CoreStruct.{md5_len}
use rabbitstreamer.StdMap.{find, case_rank, to_lower}
use rabbitstreamer.Streamer.Bytes.{le}
use rabbitstreamer.BufferQueue.{BufferQueue, MediaTypeHeader, reserve_buffer}
use rabbitstreamer.BufferQueue
use rabbitstreamer.BufferQueue.Window.{Holds}
use rabbitstreamer.BufferQueue.Read.{publish_all, publish_all-Holds, reserve_buffer-Holds}
use rabbitstreamer.BitrateCalculator.{BitrateCalculator, update_buffersize}
use rabbitstreamer.BitrateCalculator
use rabbitstreamer.ReceiveBuffer.{ReceiveBuffer, error_success, slice}
use rabbitstreamer.ReceiveBuffer.Room.{unused}
use rabbitstreamer.ReceiveBuffer.Room
use rabbitstreamer.ReceiveBuffer.Scripted.{scripted, scripted-Delivers, zeros, length-zeros}
use rabbitstreamer.SourceManager.{SourceManager, hash_rank, get_buffer_queue, get_header}
use rabbitstreamer.SourceManager
use rabbitstreamer.SourceManager.Laws.{IsValid}
use rabbitstreamer.CaptureServer.{CaptureServer, Outside, block_tag, c_string, get_register, loop}
use rabbitstreamer.CaptureServer.Register.{Registration, IsSound, wire, get_register_lem}
use rabbitstreamer.CaptureServer.Blocks.{Taken, block_message, loop_block}

abbrev hash_a : List ℕ
hash_a = replicate md5_len 97

abbrev hash_b : List ℕ
hash_b = replicate md5_len 98

abbrev no_header : MediaTypeHeader
no_header = record { media_type = []; header_size = 0 }

-- The third block arrives.
abbrev content : ℕ → List ℕ
content i = 0 ∷ 0 ∷ 0 ∷ 0 ∷ i ∷ 7 ∷ []

abbrev empty : BufferQueue
empty = reserve_buffer [] 2 (BufferQueue.create no_header 7 hash_a [] true)

abbrev two : (q : BufferQueue) × (publish_all content 2 empty ≡ ok q) × Holds content 2 2 q
two =
    publish_all-Holds content 2 2 empty
      (reserve_buffer-Holds content no_header 7 hash_a [] [] true 2 (omega arith))

abbrev sources : SourceManager
sources = record { source_hashmap = (hash_a, two.0) ∷ []; tracker_address = [] }

sources-IsValid : IsValid sources
sources-IsValid = ground arith

a_found : get_buffer_queue hash_a sources ≡ some two.0
unfolding get_buffer_queue find
a_found = ground arith

b_other : (hash_rank hash_b == hash_rank hash_a) ≡ false
unfolding case_rank to_lower
b_other = refl

abbrev outside : Outside
outside = record {
  now = 8;
  tv = none;
  hex_digest = λ name. hash_b;
  memory = [];
  header = no_header;
}

-- The connection, whose receive buffer is empty.
abbrev server : CaptureServer
server = record {
  chnl_hash = hash_a;
  cs_buffer = record { buffer = zeros 64; buffer_size = 64; curr_ptr = 0; end_ptr = 0 };
  calculator = BitrateCalculator.fresh;
  sources = sources;
}

server-IsValid : Room.IsValid server.cs_buffer
server-IsValid = record { allocated = refl; ordered = omega arith; inside = omega arith }

-- The message with block 2, and the first bytes of the next one.
abbrev incoming : List ℕ
incoming = le 4 19 ++ ((le 1 block_tag ++ block_message 2 (content 2)) ++ (1 ∷ []))

abbrev counted : BitrateCalculator
counted = record { recv_buffer_size = 6; last_recv_msec = 0 }

is_counted : update_buffersize none 6 server.calculator ≡ ok (none, counted)
unfolding update_buffersize add32
is_counted = refl

nothing_unused : unused server.cs_buffer ++ incoming ≡ incoming
unfolding slice
nothing_unused = refl

loop_block_example :
    (c' : CaptureServer) × (w' : List ℕ) × (b : ReceiveBuffer) × (loop scripted zeros outside server
        incoming
      ≡ ok (error_success, c', w'))
    × Taken content 2 2 hash_a b c'
    × (get_buffer_queue hash_b c'.sources ≡ get_buffer_queue hash_b sources)
    × Room.IsValid c'.cs_buffer
    × (unused c'.cs_buffer ++ w' ≡ 1 ∷ [])
loop_block_example =
    loop_block scripted zeros content 2 2 outside server incoming two.0 none counted (1 ∷ []) hash_b
      length-zeros scripted-Delivers server-IsValid (omega arith) nothing_unused sources-IsValid
      a_found two.2 (omega arith) (omega arith) (omega arith) is_counted b_other

-- A capture server registers the channel "c".
abbrev registration : Registration
registration = record {
  channel_name = 99 ∷ 0 ∷ [];
  user_id = 1;
  user_password = replicate md5_len 5;
  block_size = 16384;
  file_size = 0;
  bit_rate = 0;
  is_source = 1;
  header = 3 ∷ 4 ∷ [];
}

registration-IsSound : IsSound registration
unfolding c_string
registration-IsSound = record {
  short_name = omega arith;
  name = 99 ∷ [];
  terminated = refl;
  user_id = omega arith;
  user_password = refl;
  block_size = omega arith;
  file_size = omega arith;
  bit_rate = omega arith;
  is_source = omega arith;
  short_header = omega arith;
  some_header = omega arith;
}

a_other : (hash_rank hash_a == hash_rank hash_b) ≡ false
unfolding case_rank to_lower
a_other = refl

get_register_lem_example :
    (c' : CaptureServer) × (get_register outside (wire registration (9 ∷ [])) server ≡ ok c')
    × (c'.chnl_hash ≡ hash_b)
    × IsValid c'.sources
    × (get_header hash_b c'.sources ≡ (SourceManager.error_success, some (3 ∷ 4 ∷ [], 2)))
    × (get_header hash_a c'.sources ≡ get_header hash_a sources)
get_register_lem_example =
    get_register_lem outside registration (9 ∷ []) hash_a server registration-IsSound
      sources-IsValid a_other
