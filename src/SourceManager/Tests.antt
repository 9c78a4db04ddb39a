-- ===== src/SourceManager/Tests.antt =====
-- protocol/sp/sp_source_manager.cpp with two channels.
use rabbitstreamer.Prelude.{ℕ, ◌≡◌, ◌==◌, refl, true, false, List, [], ◌∷◌, some, ok, arith}
use rabbitstreamer.StdMap.{case_rank, to_lower, find}
use rabbitstreamer.BufferQueue.{BufferQueue, MediaTypeHeader, create, reserve_buffer}
use rabbitstreamer.BufferQueue.Window.{Holds}
use rabbitstreamer.BufferQueue.Read.{publish_all, publish_all-Holds, reserve_buffer-Holds}
use rabbitstreamer.SourceManager.{SourceManager, hash_rank, get_buffer_queue, error_success}
use rabbitstreamer.SourceManager.Laws.{IsValid}
use rabbitstreamer.SourceManager.Publish.{publish_block, publish_block-Holds}

abbrev no_header : MediaTypeHeader
no_header = record { media_type = []; header_size = 0 }

abbrev content : ℕ → List ℕ
content i = i ∷ []

abbrev hash_a : List ℕ
hash_a = 97 ∷ []

abbrev hash_b : List ℕ
hash_b = 98 ∷ []

abbrev empty : BufferQueue
empty = reserve_buffer [] 2 (create no_header 7 hash_a [] true)

abbrev three : (q : BufferQueue) × (publish_all content 3 empty ≡ ok q) × Holds content 2 3 q
three =
    publish_all-Holds content 2 3 empty
      (reserve_buffer-Holds content no_header 7 hash_a [] [] true 2 (omega arith))

abbrev one_channel : SourceManager
one_channel = record { source_hashmap = (hash_a, three.0) ∷ []; tracker_address = [] }

one_channel-IsValid : IsValid one_channel
one_channel-IsValid = ground arith

a_found : get_buffer_queue hash_a one_channel ≡ some three.0
unfolding get_buffer_queue find
a_found = ground arith

-- Two channels differ.
b_other : (hash_rank hash_b == hash_rank hash_a) ≡ false
unfolding case_rank to_lower
b_other = refl

publish_block-Holds_example :
    (s' : SourceManager) × (q' : BufferQueue) × (publish_block hash_a 3 (content 3) one_channel
      ≡ ok (error_success, s'))
    × IsValid s'
    × (get_buffer_queue hash_a s' ≡ some q')
    × Holds content 2 4 q'
    × (get_buffer_queue hash_b s' ≡ get_buffer_queue hash_b one_channel)
publish_block-Holds_example =
    publish_block-Holds content 2 3 one_channel hash_a hash_b three.0 one_channel-IsValid a_found
      three.2 b_other
