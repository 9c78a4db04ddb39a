-- ===== src/BufferQueue.antt =====
-- protocol/common/buffer_queue.h and protocol/common/buffer_queue.cpp (`RsBufferQueue`): the ring of
-- media blocks of one channel. A `media_buffer *` is the index of the buffer in `buffer_vector`.
-- Block numbers are not negative, and `min_block_id` stays below `2 ^ 31`.
pub mod Window
pub mod Publish
pub mod Read
mod Tests
use rabbitstreamer.Prelude.{
  ℕ, zero, suc, ◌+◌, ◌-◌, ◌%◌, Bool, true, false, not, ◌&&◌, ◌||◌, ltb, leb, ◌==◌, if◌then◌else◌,
  List, [], ◌∷◌, ◌++◌, length, get_elem?, set, replicate, Option, none, some, Result, ok, fault,
  out_of_bounds, ◌>>=◌,
}

-- `enum BUFFER_FLAG`
pub data BufferFlag : Type 0 where
  buffer_writing buffer_reading buffer_available : BufferFlag

-- `struct media_buffer`
pub record MediaBuffer : Type 0 where
  pub flag : BufferFlag
  pub block_id : ℕ
  pub block_size : ℕ
  pub buffer : List ℕ

-- `struct media_type_header`
pub record MediaTypeHeader : Type 0 where
  pub media_type : List ℕ
  pub header_size : ℕ

pub record BufferQueue : Type 0 where
  pub media_header : MediaTypeHeader
  pub create_time : ℕ
  pub source_hash : List ℕ
  pub source_name : List ℕ
  pub is_source : Bool
  pub queue_index : ℕ
  pub dequeue_index : ℕ
  pub buffer_number : ℕ
  pub min_block_id : ℕ
  pub min_block_index : ℕ
  pub buffer_full_flag : Bool
  pub buffer_vector : List MediaBuffer

-- `MEDIA_BLOCK_SIZE` of core/core_struct.h
abbrev pub media_block_size : ℕ
media_block_size = 16384

-- The constructor. It leaves the header as the memory holds it.
unfoldable pub create : MediaTypeHeader → ℕ → List ℕ → List ℕ → Bool → BufferQueue
create garbage now hash name source = record {
  media_header = garbage;
  create_time = now;
  source_hash = hash;
  source_name = name;
  is_source = source;
  queue_index = 0;
  dequeue_index = 0;
  buffer_number = 0;
  min_block_id = 0;
  min_block_index = 0;
  buffer_full_flag = false;
  buffer_vector = [];
}

-- A buffer that `reserve_buffer` adds, with what the memory of `new char[]` holds.
abbrev pub free_buffer : List ℕ → MediaBuffer
free_buffer memory = record {
  flag = buffer_available;
  block_id = 0;
  block_size = media_block_size;
  buffer = memory;
}

unfoldable pub reserve_buffer : List ℕ → ℕ → BufferQueue → BufferQueue
reserve_buffer memory size q = record q {
  buffer_number = size;
  buffer_vector = q.buffer_vector ++ replicate size (free_buffer memory);
}

-- `buffer_vector[i]`
unfoldable pub buffer_at : BufferQueue → ℕ → Result MediaBuffer
buffer_at q i = elim (get_elem? q.buffer_vector i) [ some b ↦ ok b | none ↦ fault out_of_bounds ]

-- `queue_buffer`: the buffer to fill next
unfoldable pub queue_buffer : BufferQueue → Result (ℕ × BufferQueue)
queue_buffer q = do
  buf ← buffer_at q q.queue_index
  let q' = record q {
    buffer_vector = set q.buffer_vector q.queue_index (record buf { flag = buffer_writing });
  }
  ok (
    q.queue_index,
    if q.buffer_full_flag
        then record q' {
          min_block_id = q.min_block_id + 1;
          min_block_index = (q.queue_index + 1) % q.buffer_number;
        }
        else q',
  )

-- `update_buffer_attr`. It always returns `ERROR_SUCCESS`.
unfoldable pub update_buffer_attr : ℕ → BufferFlag → BufferQueue → Result BufferQueue
update_buffer_attr block_id flag q = do
  buf ← buffer_at q q.queue_index
  ok (record q {
    queue_index = (q.queue_index + 1) % q.buffer_number;
    buffer_full_flag = q.buffer_full_flag || (q.queue_index + 1) == q.buffer_number;
    buffer_vector =
        set q.buffer_vector q.queue_index (record buf { block_id = block_id; flag = flag });
  })

abbrev pub curr_buf_size : BufferQueue → ℕ
curr_buf_size q = if q.buffer_full_flag then q.buffer_number else q.queue_index

-- `dequeue_buffer`; `none` is the null pointer
unfoldable pub dequeue_buffer : ℕ → BufferQueue → Result (Option ℕ)
dequeue_buffer block_id q =
    let offset = block_id - q.min_block_id in
    let to_end = q.buffer_number - q.min_block_index in
    let index = if ltb offset to_end then q.min_block_index + offset else offset - to_end in
    if ltb block_id q.min_block_id || leb (q.min_block_id + curr_buf_size q) block_id
    then ok none
    else buffer_at q index >>= λ buf. ok (some index)

-- `get_buffer_interval`: the first block and the one after the last
unfoldable pub get_buffer_interval : BufferQueue → ℕ × ℕ
get_buffer_interval q = (q.min_block_id, q.min_block_id + curr_buf_size q)

-- `set_header`, for the `size` bytes at `header`
unfoldable pub set_header : List ℕ → ℕ → BufferQueue → BufferQueue
set_header header size q = record q {
  media_header = record { media_type = header; header_size = size };
}

unfoldable pub get_header : BufferQueue → List ℕ × ℕ
get_header q = (q.media_header.media_type, q.media_header.header_size)

-- What a caller of `queue_buffer` does with the pointer: it stores the block there. The block is
-- no longer than the buffer, and the bytes behind it, which no reader is to use, are left out.
unfoldable pub fill : ℕ → List ℕ → BufferQueue → Result BufferQueue
fill index block q = do
  buf ← buffer_at q index
  ok (record q { buffer_vector = set q.buffer_vector index (record buf { buffer = block }) })
