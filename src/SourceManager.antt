-- ===== src/SourceManager.antt =====
-- protocol/sp/sp_source_manager.h and protocol/sp/sp_source_manager.cpp (`RsSourceManager`): the
-- channels of a super peer. `source_hashmap` alone points to a channel's queue, so the map holds
-- the queue itself. A call gives the error code that it returns. The `new` of a queue succeeds.
pub mod Laws
pub mod Publish
mod Tests
use rabbitstreamer.Prelude.{
  ℕ, ◌-◌, Bool, true, false, if◌then◌else◌, List, [], ◌∷◌, Option, none, some, Result, ok, ◌>>=◌,
}
use rabbitstreamer.CoreStruct.{md5_len}
use rabbitstreamer.IntervalArray.{BlockInterval}
use rabbitstreamer.BufferQueue.{
  buffer_available, BufferQueue, MediaBuffer, MediaTypeHeader, reserve_buffer, queue_buffer,
  dequeue_buffer, update_buffer_attr, get_buffer_interval, set_header, buffer_at,
}
use rabbitstreamer.BufferQueue
use rabbitstreamer.StdMap.{StdMap, case_rank, find, insert, update}

pub record SourceManager : Type 0 where
  pub source_hashmap : StdMap (List ℕ) BufferQueue
  pub tracker_address : List ℕ

-- core/error_code.h
abbrev pub error_success : ℕ
error_success = 0

abbrev pub error_source_mgr_not_found : ℕ
error_source_mgr_not_found = 2000

abbrev pub error_source_mgr_fail_to_create_source : ℕ
error_source_mgr_fail_to_create_source = 2001

-- `MAX_BUFFER_SIZE` of core/core_struct.h
abbrev pub max_buffer_size : ℕ
max_buffer_size = 1024

-- `MD5_Hash_Str::operator<`
abbrev pub hash_rank : List ℕ → ℕ
hash_rank hash = case_rank md5_len hash

unfoldable pub get_buffer_queue : List ℕ → SourceManager → Option BufferQueue
get_buffer_queue hash s = find hash_rank hash s.source_hashmap

-- A change of the queue that `get_buffer_queue` points to.
unfoldable pub put_queue : List ℕ → BufferQueue → SourceManager → SourceManager
put_queue hash q s = record s { source_hashmap = update hash_rank hash (λ old. q) s.source_hashmap }

unfoldable pub initialize : List ℕ → SourceManager → ℕ × SourceManager
initialize tracker_addr s = (error_success, record s { tracker_address = tracker_addr })

-- `create_source`, at the time `now`, where the memory holds `garbage` and `memory`
unfoldable pub create_source :
    MediaTypeHeader → List ℕ → ℕ → List ℕ → List ℕ → Bool → SourceManager → ℕ × SourceManager
create_source garbage memory now hash name source s = elim (get_buffer_queue hash s) [
  | some q ↦ (error_success, s)
  | none ↦
      let q =
        reserve_buffer memory max_buffer_size (BufferQueue.create garbage now hash name source) in
      let (m, new) = insert hash_rank hash q s.source_hashmap in
      if new
      then (error_success, record s { source_hashmap = m })
      else (error_source_mgr_fail_to_create_source, s)
]

-- `queue_block`: the buffer that `*block` points to afterwards, if it was set
unfoldable pub queue_block : List ℕ → SourceManager → Result (ℕ × Option ℕ × SourceManager)
queue_block hash s = elim (get_buffer_queue hash s) [
  | none ↦ ok (error_source_mgr_not_found, none, s)
  | some q ↦ do (index, q') ← queue_buffer q; ok (error_success, some index, put_queue hash q' s)
]

-- `dequeue_block`: the block and its size, or that it was not found
unfoldable pub dequeue_block : List ℕ → ℕ → SourceManager → Result (ℕ × Option (ℕ × ℕ))
dequeue_block hash block_id s = elim (get_buffer_queue hash s) [
  | none ↦ ok (error_source_mgr_not_found, none)
  | some q ↦ dequeue_buffer block_id q >>= λ found. elim found [
    | none ↦ ok (error_success, none)
    | some index ↦ do buf ← buffer_at q index; ok (error_success, some (index, buf.block_size))
  ]
]

unfoldable pub set_block_available : List ℕ → ℕ → SourceManager → Result (ℕ × SourceManager)
set_block_available hash block_id s = elim (get_buffer_queue hash s) [
  | none ↦ ok (error_source_mgr_not_found, s)
  | some q ↦ do
    q' ← update_buffer_attr block_id buffer_available q
    ok (error_success, put_queue hash q' s)
]

-- The fields of `struct source_status` that `get_source_list` sets.
pub record SourceStatus : Type 0 where
  pub chnl_hash : List ℕ
  pub chnl_name : List ℕ
  pub created_time : ℕ
  pub block_inter : BlockInterval

-- One round of the loop of `get_source_list`.
unfoldable pub source_status : BufferQueue → SourceStatus
source_status q =
    let (start, end) = get_buffer_interval q in
    record {
      chnl_hash = q.source_hash;
      chnl_name = q.source_name;
      created_time = q.create_time;
      block_inter = record { start = start; size = end - start };
    }

unfoldable pub list_sources : StdMap (List ℕ) BufferQueue → List SourceStatus
list_sources [] = []
list_sources ((hash, q) ∷ m) = source_status q ∷ list_sources m

unfoldable pub get_source_list : SourceManager → List SourceStatus
get_source_list s = list_sources s.source_hashmap

unfoldable pub add_header : List ℕ → List ℕ → ℕ → SourceManager → ℕ × SourceManager
add_header hash header size s = elim (get_buffer_queue hash s) [
  | none ↦ (error_source_mgr_not_found, s)
  | some q ↦ (error_success, put_queue hash (set_header header size q) s)
]

-- `get_header`: what the two references are set to, if they are
unfoldable pub get_header : List ℕ → SourceManager → ℕ × Option (List ℕ × ℕ)
get_header hash s = elim (get_buffer_queue hash s) [
  | none ↦ (error_source_mgr_not_found, none)
  | some q ↦ (error_success, some (BufferQueue.get_header q))
]
