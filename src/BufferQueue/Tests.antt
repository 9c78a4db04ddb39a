-- ===== src/BufferQueue/Tests.antt =====
-- protocol/common/buffer_queue.cpp on a ring of two buffers.
use rabbitstreamer.Prelude.{ℕ, ◌≡◌, true, List, [], ◌∷◌, get_elem?, ok, some, arith}
use rabbitstreamer.BufferQueue.{
  buffer_writing, BufferQueue, MediaTypeHeader, create, reserve_buffer, queue_buffer,
  dequeue_buffer, get_buffer_interval,
}
use rabbitstreamer.BufferQueue.Window.{published, Holds}
use rabbitstreamer.BufferQueue.Read.{
  publish_all, publish_all-Holds, reserve_buffer-Holds, publish_all-dequeue_buffer,
  dequeue_while_writing,
}

abbrev no_header : MediaTypeHeader
no_header = record { media_type = []; header_size = 0 }

abbrev content : ℕ → List ℕ
content i = i ∷ []

abbrev empty : BufferQueue
empty = reserve_buffer [] 2 (create no_header 7 (97 ∷ []) (98 ∷ []) true)

abbrev three_blocks : (q : BufferQueue) × (publish_all content 3 empty ≡ ok q) × Holds content 2 3 q
three_blocks =
    publish_all-Holds content 2 3 empty
      (reserve_buffer-Holds content no_header 7 (97 ∷ []) (98 ∷ []) [] true 2 (omega arith))

publish_all-dequeue_buffer_example :
    (q : BufferQueue) × (publish_all content 3 empty ≡ ok q)
    × (get_buffer_interval q ≡ (1, 3))
    × (dequeue_buffer 1 q ≡ ok (some 1))
    × (get_elem? q.buffer_vector 1 ≡ some (published content 1))
publish_all-dequeue_buffer_example =
    publish_all-dequeue_buffer content no_header 7 (97 ∷ []) (98 ∷ []) [] true 2 3 1 (omega arith)
      (omega arith) (omega arith)

dequeue_while_writing_example :
    (q' : BufferQueue) × (queue_buffer three_blocks.0 ≡ ok (1, q'))
    × (dequeue_buffer 3 q' ≡ ok (some 1))
    × (get_elem? q'.buffer_vector 1 ≡ some (record (published content 1) { flag = buffer_writing }))
dequeue_while_writing_example =
    dequeue_while_writing content 2 3 three_blocks.0 three_blocks.2 (omega arith)
