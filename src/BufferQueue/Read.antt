-- ===== src/BufferQueue/Read.antt =====
-- What the readers of a ring of blocks get: `dequeue_buffer` and `get_buffer_interval` of
-- protocol/common/buffer_queue.cpp.
use rabbitstreamer.Prelude.{
  ℕ, zero, suc, ◌+◌, ◌-◌, ◌%◌, ◌≤◌, ◌<◌, ◌≡◌, refl, ◌⊎◌, ◌∙◌, sym, ap, Bool, ltb, if◌then◌else◌,
  List, length, length-replicate, get_elem?-replicate, get_elem?, set, get_elem?-set_self, none,
  some, Result, ok, ◌>>=◌, dec_lt, arith,
}
use native.Mathlib.Nat.{mod-lt, mod-eq_of_lt, mod-add-mod, add-mod_right, mod-mod}
use rabbitstreamer.BufferQueue.{
  buffer_writing, MediaBuffer, MediaTypeHeader, BufferQueue, create, reserve_buffer, free_buffer,
  buffer_at, queue_buffer, dequeue_buffer, get_buffer_interval,
}
use rabbitstreamer.BufferQueue.Window.{published, Holds, slot_wrap}
use rabbitstreamer.BufferQueue.Publish.{publish, publish-Holds}

-- The place of a block in the ring, from the first block's.
place :
    (content : ℕ → List ℕ) (n k : ℕ) (q : BufferQueue)
    → Holds content n k q
    → (i : ℕ) → i < k
    → k ≤ i + n
    → (if ltb (i - q.min_block_id) (q.buffer_number - q.min_block_index)
        then q.min_block_index + (i - q.min_block_id)
        else i - q.min_block_id - (q.buffer_number - q.min_block_index))
      ≡ i % n
place content n k q v i lo hi = elim (dec_lt k n) [
  | yes early ↦
      ground (arith, v.min_block_id, v.number, v.min_block_index, mod-eq_of_lt {n = i} {m = n})
  | no full ↦ ground (
    arith,
    v.min_block_id,
    v.number,
    v.min_block_index,
    slot_wrap n (k % n) (i - (k - n)) (mod-lt k v.some_buffer) (omega arith),
    mod-add-mod k n (i - (k - n)),
    ap (λ j. j % n) (let e : k + (i - (k - n)) ≡ i + n = omega arith in e),
    add-mod_right i n,
  )
]

module _ (content : ℕ → List ℕ) (n k : ℕ) (q : BufferQueue) (v : Holds content n k q) where
  pub dequeue_held : (i : ℕ) → i < k → k ≤ i + n → dequeue_buffer i q ≡ ok (some (i % n))
  unfolding dequeue_buffer buffer_at
  dequeue_held i lo hi = ground (
    arith,
    place content n k q v i lo hi,
    v.slots i lo hi,
    v.min_block_id,
    v.number,
    v.queue_index,
    v.buffer_full_flag,
    mod-eq_of_lt {n = k} {m = n},
  )

  pub dequeue_gone : (i : ℕ) → (k ≤ i) ⊎ (i + n < k) → dequeue_buffer i q ≡ ok none
  unfolding dequeue_buffer
  dequeue_gone i h = ground (
    arith,
    v.min_block_id,
    v.number,
    v.queue_index,
    v.buffer_full_flag,
    mod-eq_of_lt {n = k} {m = n},
  )

  pub interval_held : get_buffer_interval q ≡ (k - n, k)
  unfolding get_buffer_interval
  interval_held = ground (
    arith,
    v.min_block_id,
    v.number,
    v.queue_index,
    v.buffer_full_flag,
    mod-eq_of_lt {n = k} {m = n},
  )

-- The super peer publishes blocks 0 to k - 1.
unfoldable pub publish_all : (ℕ → List ℕ) → ℕ → BufferQueue → Result BufferQueue
publish_all content zero q = ok q
publish_all content (suc k) q = publish_all content k q >>= λ q'. publish k (content k) q'

pub reserve_buffer-Holds :
    (content : ℕ → List ℕ) (garbage : MediaTypeHeader) (now : ℕ) (hash name memory : List ℕ)
    (source : Bool) (n : ℕ)
    → 0 < n
    → Holds content n 0 (reserve_buffer memory n (create garbage now hash name source))
unfolding reserve_buffer create
reserve_buffer-Holds content garbage now hash name memory source n pos = record {
  some_buffer = pos;
  number = refl;
  length-buffer_vector = length-replicate n (free_buffer memory);
  queue_index = ground (arith, mod-eq_of_lt {n = 0} {m = n} pos);
  buffer_full_flag = ground arith;
  min_block_id = omega arith;
  min_block_index = ground arith;
  sizes = λ i b e.
      ap (λ (c : MediaBuffer). c.block_size) (get_elem?-replicate n i (free_buffer memory) b e);
  slots = λ i lo hi. absurd (omega arith);
}

pub publish_all-Holds :
    (content : ℕ → List ℕ) (n k : ℕ) (q : BufferQueue)
    → Holds content n 0 q
    → (q' : BufferQueue) × (publish_all content k q ≡ ok q') × Holds content n k q'
unfolding publish_all
publish_all-Holds content n zero q v = (q, refl, v)
publish_all-Holds content n (suc k) q v =
    let (q1, e1, v1) = publish_all-Holds content n k q v in
    let (q2, e2, v2) = publish-Holds content n k q1 v1 in (q2, rw (e1, ◌>>=◌) e2, v2)

-- A new queue of n > 0 buffers into which blocks 0 to k - 1 have been published in turn, no call
-- of which fails: the interval that it reports runs from k - n, or 0, up to k, and each block i of
-- it comes out, marked as available, with its number and what was published.
pub publish_all-dequeue_buffer :
    (content : ℕ → List ℕ) (garbage : MediaTypeHeader) (now : ℕ) (hash name memory : List ℕ)
    (source : Bool) (n k i : ℕ)
    → 0 < n
    → i < k
    → k ≤ i + n
    → (q : BufferQueue) × (publish_all content k
          (reserve_buffer memory n (create garbage now hash name source))
        ≡ ok q)
      × (get_buffer_interval q ≡ (k - n, k))
      × (dequeue_buffer i q ≡ ok (some (i % n)))
      × (get_elem? q.buffer_vector (i % n) ≡ some (published content i))
publish_all-dequeue_buffer content garbage now hash name memory source n k i pos lo hi =
    let fresh = reserve_buffer-Holds content garbage now hash name memory source n pos in
    let (q, e, v) = publish_all-Holds content n k _ fresh in
    (q, e, interval_held content n k q v, dequeue_held content n k q v i lo hi, v.slots i lo hi)

-- A new queue of n > 0 buffers into which blocks 0 to k - 1 have been published in turn, no call
-- of which fails, gives out no block that is still to come, and none that n or more later blocks
-- have pushed out.
pub publish_all-refuses :
    (content : ℕ → List ℕ) (garbage : MediaTypeHeader) (now : ℕ) (hash name memory : List ℕ)
    (source : Bool) (n k i : ℕ)
    → 0 < n
    → (k ≤ i) ⊎ (i + n < k)
    → (q : BufferQueue) × (publish_all content k
          (reserve_buffer memory n (create garbage now hash name source))
        ≡ ok q)
      × (get_buffer_interval q ≡ (k - n, k))
      × (dequeue_buffer i q ≡ ok none)
publish_all-refuses content garbage now hash name memory source n k i pos h =
    let fresh = reserve_buffer-Holds content garbage now hash name memory source n pos in
    let (q, e, v) = publish_all-Holds content n k _ fresh in
    (q, e, interval_held content n k q v, dequeue_gone content n k q v i h)

-- On a full ring of n buffers that holds the last of k blocks, `queue_buffer` hands out the place
-- of block k - n for block k, and from then on `dequeue_buffer` gives out that same place to
-- readers of block k: a buffer that is marked as being written, and still has the number and, up
-- to what is stored through the pointer, the content of block k - n.
pub dequeue_while_writing :
    (content : ℕ → List ℕ) (n k : ℕ) (q : BufferQueue)
    → Holds content n k q
    → n ≤ k
    → (q' : BufferQueue) × (queue_buffer q ≡ ok (k % n, q'))
      × (dequeue_buffer k q' ≡ ok (some (k % n)))
      × (get_elem? q'.buffer_vector (k % n)
          ≡ some (record (published content (k - n)) { flag = buffer_writing }))
unfolding queue_buffer dequeue_buffer buffer_at
dequeue_while_writing content n k q v full =
    let old = published content (k - n) in
    let marked = record old { flag = buffer_writing } in
    let same : (k - n) % n ≡ k % n =
      sym (add-mod_right (k - n) n) ∙ ap (λ j. j % n) (let e : k - n + n ≡ k = omega arith in e) in
    let held : get_elem? q.buffer_vector q.queue_index ≡ some old =
      rw (v.queue_index, ← same) (v.slots (k - n) (omega (arith, v.some_buffer)) (omega arith)) in
    let inside : q.queue_index < length q.buffer_vector =
      omega (arith, v.queue_index, v.length-buffer_vector, mod-lt k v.some_buffer) in
    let next = (k % n + 1) % n in
    let written = get_elem?-set_self q.buffer_vector q.queue_index marked inside in
    let last : (next + (n - 1)) % n ≡ k % n =
      mod-add-mod (k % n + 1) n (n - 1)
      ∙ ap (λ j. j % n)
          (let e : k % n + 1 + (n - 1) ≡ k % n + n = omega (arith, v.some_buffer) in e)
      ∙ add-mod_right (k % n) n
      ∙ mod-mod k n in
    (
      record q {
        min_block_id = q.min_block_id + 1;
        min_block_index = (q.queue_index + 1) % q.buffer_number;
        buffer_vector = set q.buffer_vector q.queue_index marked;
      },
      ground (arith, held, v.buffer_full_flag, v.queue_index),
      ground (
        arith,
        v.some_buffer,
        v.buffer_full_flag,
        v.queue_index,
        v.number,
        v.min_block_id,
        written,
        slot_wrap n next (n - 1) (mod-lt (k % n + 1) v.some_buffer) (omega (arith, v.some_buffer)),
        last,
      ),
      ground (arith, written, v.queue_index),
    )
