-- ===== src/SourceManager/Publish.antt =====
-- A block from a capture server goes into its channel through `queue_block`, a store through the
-- pointer, and `set_block_available` (protocol/sp/sp_source_manager.cpp).
use rabbitstreamer.Prelude.{
  ◌+◌, ◌≤◌, ◌<◌, refl, fault, ℕ, suc, ◌%◌, false, ◌≡◌, ◌==◌, List, none, some, Result, ok, ◌>>=◌,
  arith,
}
use rabbitstreamer.BufferQueue.{
  media_block_size, BufferQueue, queue_buffer, update_buffer_attr, fill, buffer_available,
  buffer_at,
}
use rabbitstreamer.BufferQueue.Window.{Holds, published}
use rabbitstreamer.BufferQueue.Publish.{publish, publish-Holds}
use rabbitstreamer.BufferQueue.Read.{dequeue_held}
use rabbitstreamer.SourceManager.{
  SourceManager, hash_rank, get_buffer_queue, put_queue, queue_block, set_block_available,
  dequeue_block, error_success,
}
use rabbitstreamer.SourceManager.Laws.{IsValid, get_buffer_queue-put_queue, put_queue-IsValid}

-- The store of a block at the buffer `index` of a channel.
unfoldable pub store_block : List ℕ → ℕ → List ℕ → SourceManager → Result SourceManager
store_block hash index block s = elim (get_buffer_queue hash s) [
  | none ↦ ok s
  | some q ↦ do q' ← fill index block q; ok (put_queue hash q' s)
]

-- The three steps, the later ones only if the channel was found.
unfoldable pub publish_block : List ℕ → ℕ → List ℕ → SourceManager → Result (ℕ × SourceManager)
publish_block hash block_id block s = do
  (code, slot, s1) ← queue_block hash s
  elim slot [
    | none ↦ ok (code, s1)
    | some index ↦ store_block hash index block s1 >>= λ s2. set_block_available hash block_id s2
  ]

module _ (s : SourceManager) (hash : List ℕ) (q : BufferQueue) (v : IsValid s)
    (e : get_buffer_queue hash s ≡ some q) where
  found_put : (q' : BufferQueue) → get_buffer_queue hash (put_queue hash q' s) ≡ some q'
  found_put q' = ground (arith, get_buffer_queue-put_queue s hash hash q q' v e)

-- The calls of which `publish` consists, all of which succeed where it does.
record Parts (block_id : ℕ) (block : List ℕ) (q q' : BufferQueue) : Type 0 where
  index : ℕ
  q1 : BufferQueue
  q2 : BufferQueue
  queued : queue_buffer q ≡ ok (index, q1)
  filled : fill index block q1 ≡ ok q2
  updated : update_buffer_attr block_id buffer_available q2 ≡ ok q'

module _ (block_id : ℕ) (block : List ℕ) (q q' : BufferQueue) where
  by_fill :
      (index : ℕ) (q1 : BufferQueue) (r : Result BufferQueue)
      → queue_buffer q ≡ ok (index, q1)
      → fill index block q1 ≡ r
      → (r >>= λ q2. update_buffer_attr block_id buffer_available q2) ≡ ok q'
      → Parts block_id block q q'
  by_fill index q1 (ok q2) e f g = record {
    index = index;
    q1 = q1;
    q2 = q2;
    queued = e;
    filled = f;
    updated = g;
  }
  by_fill index q1 (fault x) e f g = ground arith

  by_queue :
      (r : Result (ℕ × BufferQueue))
      → queue_buffer q ≡ r
      → (r >>= λ p. fill p.0 block p.1 >>= λ q2. update_buffer_attr block_id buffer_available q2)
        ≡ ok q'
      → Parts block_id block q q'
  by_queue (ok (index, q1)) e g = by_fill index q1 (fill index block q1) e refl g
  by_queue (fault x) e g = ground arith

  publish-Parts : publish block_id block q ≡ ok q' → Parts block_id block q q'
  unfolding publish
  publish-Parts g = by_queue (queue_buffer q) refl g

-- The state after the three steps.
abbrev stored : List ℕ → BufferQueue → BufferQueue → BufferQueue → SourceManager → SourceManager
stored hash q1 q2 q3 s = put_queue hash q3 (put_queue hash q2 (put_queue hash q1 s))

publish_block-Parts :
    (s : SourceManager) (hash : List ℕ) (block_id : ℕ) (block : List ℕ) (q q' : BufferQueue)
    → IsValid s
    → get_buffer_queue hash s ≡ some q
    → (p : Parts block_id block q q')
    → publish_block hash block_id block s ≡ ok (error_success, stored hash p.q1 p.q2 q' s)
unfolding publish_block queue_block store_block set_block_available
publish_block-Parts s hash block_id block q q' v e p =
    let v1 = put_queue-IsValid s hash p.q1 v in
    let e1 = found_put s hash q v e p.q1 in
    let e2 = found_put (put_queue hash p.q1 s) hash p.q1 v1 e1 p.q2 in
    ground (arith, e, p.queued, e1, p.filled, e2, p.updated)

-- Where a channel holds the last of k blocks, the three steps for block k succeed and return no
-- error. Then the channel holds the last of k + 1 blocks, and the channels under all hashes that
-- differ from this one not only in capitals are what they were.
pub publish_block-Holds :
    (content : ℕ → List ℕ) (n k : ℕ) (s : SourceManager) (hash other : List ℕ) (q : BufferQueue)
    → IsValid s
    → get_buffer_queue hash s ≡ some q
    → Holds content n k q
    → (hash_rank other == hash_rank hash) ≡ false
    → (s' : SourceManager) × (q' : BufferQueue) × (publish_block hash k (content k) s
        ≡ ok (error_success, s'))
      × IsValid s'
      × (get_buffer_queue hash s' ≡ some q')
      × Holds content n (suc k) q'
      × (get_buffer_queue other s' ≡ get_buffer_queue other s)
publish_block-Holds content n k s hash other q v e h apart =
    let (q', r, h') = publish-Holds content n k q h in
    let p = publish-Parts k (content k) q q' r in
    let s1 = put_queue hash p.q1 s in
    let s2 = put_queue hash p.q2 s1 in
    let v1 = put_queue-IsValid s hash p.q1 v in
    let v2 = put_queue-IsValid s1 hash p.q2 v1 in
    let e1 = found_put s hash q v e p.q1 in
    let e2 = found_put s1 hash p.q1 v1 e1 p.q2 in
    (
      put_queue hash q' s2,
      q',
      publish_block-Parts s hash k (content k) q q' v e p,
      put_queue-IsValid s2 hash q' v2,
      found_put s2 hash p.q2 v2 e2 q',
      h',
      ground (
        arith,
        get_buffer_queue-put_queue s hash other q p.q1 v e,
        get_buffer_queue-put_queue s1 hash other p.q1 p.q2 v1 e1,
        get_buffer_queue-put_queue s2 hash other p.q2 q' v2 e2,
      ),
    )

-- Where a channel holds the last of k blocks, `dequeue_block` gives out each block i of them, as
-- the buffer i % n in which it is with its number and its content, and 16384 as its size.
pub dequeue_block-held :
    (content : ℕ → List ℕ) (n k i : ℕ) (s : SourceManager) (hash : List ℕ) (q : BufferQueue)
    → get_buffer_queue hash s ≡ some q
    → Holds content n k q
    → i < k
    → k ≤ i + n
    → (dequeue_block hash i s ≡ ok (error_success, some (i % n, media_block_size)))
      × (buffer_at q (i % n) ≡ ok (published content i))
unfolding dequeue_block buffer_at
dequeue_block-held content n k i s hash q e h lo hi = (
  ground (arith, e, dequeue_held content n k q h i lo hi, h.slots i lo hi),
  ground (arith, h.slots i lo hi),
)
