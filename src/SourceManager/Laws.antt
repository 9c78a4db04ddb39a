-- ===== src/SourceManager/Laws.antt =====
-- The channels of protocol/sp/sp_source_manager.cpp, as its callers see them.
use rabbitstreamer.Prelude.{
  refl, ℕ, Bool, ◌≡◌, ◌==◌, if◌then◌else◌, List, Option, none, some, arith,
}
use rabbitstreamer.BufferQueue.{
  BufferQueue, MediaTypeHeader, reserve_buffer, set_header, queue_buffer, update_buffer_attr,
  buffer_available,
}
use rabbitstreamer.BufferQueue
use rabbitstreamer.StdMap.{find, insert}
use rabbitstreamer.StdMap.Laws.{
  find_same, IsSorted, find-insert, insert_new, find-update, insert-IsSorted, update-IsSorted,
}
use rabbitstreamer.SourceManager.{
  SourceManager, hash_rank, get_buffer_queue, put_queue, create_source, add_header, get_header,
  error_success, max_buffer_size,
}

-- The map is in the order of its keys.
abbrev pub IsValid : SourceManager → Type 0
IsValid s = IsSorted hash_rank 0 s.source_hashmap

-- What every channel is after a channel that exists has changed.
pub get_buffer_queue-put_queue :
    (s : SourceManager) (hash other : List ℕ) (q q' : BufferQueue)
    → IsValid s
    → get_buffer_queue hash s ≡ some q
    → get_buffer_queue other (put_queue hash q' s)
      ≡ (if hash_rank other == hash_rank hash then some q' else get_buffer_queue other s)
unfolding get_buffer_queue put_queue
get_buffer_queue-put_queue s hash other q q' v e = ground (
  arith,
  find-update hash_rank 0 hash other (λ old. q') s.source_hashmap v,
  find_same hash_rank hash other s.source_hashmap,
)

pub put_queue-IsValid :
    (s : SourceManager) (hash : List ℕ) (q : BufferQueue) → IsValid s → IsValid (put_queue hash q s)
unfolding put_queue
put_queue-IsValid s hash q v = update-IsSorted hash_rank 0 hash (λ old. q) s.source_hashmap v

-- The channel that is there after `create_source`.
abbrev pub or_new : Option BufferQueue → BufferQueue → Option BufferQueue
or_new (some q) fresh = some q
or_new none fresh = some fresh

-- Creating a channel always succeeds and keeps the map in order. Afterwards every hash that differs
-- from the given one in capitals at most leads to the channel that was there, or if there was none
-- to a new one with 1024 buffers; every other hash leads where it did.
pub create_source_lem :
    (garbage : MediaTypeHeader) (memory : List ℕ) (now : ℕ) (hash name : List ℕ) (source : Bool)
    (s : SourceManager) (other : List ℕ)
    → IsValid s
    → (s' : SourceManager) × (create_source garbage memory now hash name source s
        ≡ (error_success, s'))
      × IsValid s'
      × (get_buffer_queue other s' ≡ (
          if hash_rank other == hash_rank hash
          then or_new (get_buffer_queue hash s) (
              reserve_buffer memory max_buffer_size
                (BufferQueue.create garbage now hash name source))
          else get_buffer_queue other s))
unfolding create_source get_buffer_queue
create_source_lem garbage memory now hash name source s other v =
    by_case (find hash_rank hash s.source_hashmap) refl
  where
    by_case :
        (found : Option BufferQueue)
        → find hash_rank hash s.source_hashmap ≡ found
        → (s' : SourceManager) × (create_source garbage memory now hash name source s
            ≡ (error_success, s'))
          × IsValid s'
          × (get_buffer_queue other s' ≡ (
              if hash_rank other == hash_rank hash
              then or_new (get_buffer_queue hash s) (
                  reserve_buffer memory max_buffer_size
                    (BufferQueue.create garbage now hash name source))
              else get_buffer_queue other s))
    by_case (some q) e =
        (s, ground arith, v, ground (arith, find_same hash_rank hash other s.source_hashmap))
    by_case none e =
        let fresh =
          reserve_buffer memory max_buffer_size (BufferQueue.create garbage now hash name source) in
        (
          record s { source_hashmap = (insert hash_rank hash fresh s.source_hashmap).0 },
          ground (arith, insert_new hash_rank hash fresh s.source_hashmap e),
          insert-IsSorted hash_rank 0 hash fresh s.source_hashmap v (omega arith),
          ground (arith, find-insert hash_rank 0 hash other fresh s.source_hashmap v e),
        )

-- After a header has been added to a channel that exists, it comes back with its size under every
-- hash of that channel, and the other channels keep what they had.
pub get_header-add_header :
    (s : SourceManager) (hash other : List ℕ) (q : BufferQueue) (header : List ℕ) (size : ℕ)
    → IsValid s
    → get_buffer_queue hash s ≡ some q
    → (s' : SourceManager) × (add_header hash header size s ≡ (error_success, s'))
      × IsValid s'
      × (get_header other s' ≡ (
          if hash_rank other == hash_rank hash
          then (error_success, some (header, size))
          else get_header other s))
unfolding add_header get_header set_header BufferQueue.get_header
get_header-add_header s hash other q header size v e =
    let q' = record q { media_header = record { media_type = header; header_size = size } } in
    (
      put_queue hash q' s,
      ground arith,
      put_queue-IsValid s hash q' v,
      ground (arith, get_buffer_queue-put_queue s hash other q q' v e),
    )
