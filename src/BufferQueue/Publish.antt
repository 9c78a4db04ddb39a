-- ===== src/BufferQueue/Publish.antt =====
-- Blocks go into the ring by `queue_buffer`, a store through its pointer, and `update_buffer_attr`
-- (protocol/common/buffer_queue.cpp), and come out by `dequeue_buffer`.
use rabbitstreamer.Prelude.{
  ℕ, suc, ◌+◌, ◌-◌, ◌%◌, ◌≤◌, ◌<◌, ◌≡◌, ◌≢◌, ◌∙◌, sym, ap, ◌||◌, ◌==◌, if◌then◌else◌, List, length,
  length-set, get_elem?, set, set-set, get_elem?-set_self, get_elem?-set_ne, get_elem?-some, some,
  Result, ok, ◌>>=◌, dec_lt, ℕ_discrete, arith,
}
use native.Mathlib.Nat.{mod-lt, mod-eq_of_lt, mod_self}
use rabbitstreamer.BufferQueue.{
  buffer_writing, buffer_available, MediaBuffer, BufferQueue, media_block_size, buffer_at,
  queue_buffer, update_buffer_attr, fill,
}
use rabbitstreamer.BufferQueue.Window.{published, Holds, slot_ne, slot_step}

-- What the super peer does for each block that arrives.
unfoldable pub publish : ℕ → List ℕ → BufferQueue → Result BufferQueue
publish block_id block q = do
  (index, q1) ← queue_buffer q
  q2 ← fill index block q1
  update_buffer_attr block_id buffer_available q2

-- The queue afterwards, where `buf` is the buffer that is filled.
abbrev with_block : ℕ → List ℕ → MediaBuffer → BufferQueue → BufferQueue
with_block block_id block buf q = record q {
  queue_index = (q.queue_index + 1) % q.buffer_number;
  min_block_id = if q.buffer_full_flag then q.min_block_id + 1 else q.min_block_id;
  min_block_index =
      if q.buffer_full_flag then (q.queue_index + 1) % q.buffer_number else q.min_block_index;
  buffer_full_flag = q.buffer_full_flag || (q.queue_index + 1) == q.buffer_number;
  buffer_vector =
      set q.buffer_vector q.queue_index
        (record buf { flag = buffer_available; block_id = block_id; buffer = block });
}

publish_lem :
    (block_id : ℕ) (block : List ℕ) (q : BufferQueue) (buf : MediaBuffer)
    → q.queue_index < length q.buffer_vector
    → get_elem? q.buffer_vector q.queue_index ≡ some buf
    → publish block_id block q ≡ ok (with_block block_id block buf q)
unfolding publish queue_buffer fill update_buffer_attr buffer_at
publish_lem block_id block q buf h e =
    let vec = q.buffer_vector in
    let i = q.queue_index in
    let marked = record buf { flag = buffer_writing } in
    let filled = record marked { buffer = block } in
    let done = record buf { flag = buffer_available; block_id = block_id; buffer = block } in
    ground (
      arith,
      length-set vec i marked,
      get_elem?-set_self vec i marked h,
      get_elem?-set_self vec i filled h,
      set-set vec i marked filled,
      set-set vec i filled done,
    )

module _ (content : ℕ → List ℕ) (n k : ℕ) (q : BufferQueue) (v : Holds content n k q)
    (buf : MediaBuffer) (h : q.queue_index < length q.buffer_vector)
    (e : get_elem? q.buffer_vector q.queue_index ≡ some buf) where
  new_size :
      (i : ℕ) (b : MediaBuffer)
      → get_elem?
          (set q.buffer_vector q.queue_index
            (record buf { flag = buffer_available; block_id = k; buffer = content k }))
          i
        ≡ some b
      → b.block_size ≡ media_block_size
  new_size i b g =
      let done = record buf { flag = buffer_available; block_id = k; buffer = content k } in
      elim (ℕ_discrete q.queue_index i) [
        | yes same ↦ ground (
          arith,
          v.sizes q.queue_index buf e,
          get_elem?-set_self q.buffer_vector q.queue_index done h,
        )
        | no other ↦
            v.sizes i b (sym (get_elem?-set_ne q.buffer_vector q.queue_index i done other) ∙ g)
      ]

  new_slot :
      (i : ℕ)
      → i < suc k
      → suc k ≤ i + n
      → get_elem?
          (set q.buffer_vector q.queue_index
            (record buf { flag = buffer_available; block_id = k; buffer = content k }))
          (i % n)
        ≡ some (published content i)
  new_slot i lo hi =
      let done = record buf { flag = buffer_available; block_id = k; buffer = content k } in
      elim (dec_lt i k) [
        | yes before ↦
            let apart : q.queue_index ≢ i % n = λ same.
              slot_ne n i (k - i) (omega arith) (omega arith)
                (ap (λ j. j % n) (omega arith) ∙ sym v.queue_index ∙ same) in
            get_elem?-set_ne q.buffer_vector q.queue_index (i % n) done apart
            ∙ v.slots i before (omega arith)
        | no new ↦
            let now : i ≡ k = omega arith in
            rw (now, ← v.queue_index)
              (ground (
                arith,
                v.sizes q.queue_index buf e,
                get_elem?-set_self q.buffer_vector q.queue_index done h,
              ))
      ]

  -- Block `k` goes to the place after block `k - 1`, and pushes out block `k - n`.
  with_block-Holds : Holds content n (suc k) (with_block k (content k) buf q)
  with_block-Holds =
      let step = slot_step n k v.some_buffer in
      let small = mod-eq_of_lt {n = k} {m = n} in
      let around : n % n ≡ 0 = mod_self n in
      record {
        some_buffer = v.some_buffer;
        number = v.number;
        length-buffer_vector =
            length-set q.buffer_vector q.queue_index
              (record buf { flag = buffer_available; block_id = k; buffer = content k })
            ∙ v.length-buffer_vector;
        queue_index = ground (arith, step, v.queue_index, v.number);
        buffer_full_flag =
            ground
              (arith, small, v.queue_index, v.number, v.buffer_full_flag, mod-lt k v.some_buffer);
        min_block_id = ground (arith, v.min_block_id, v.buffer_full_flag);
        min_block_index = ground (
          arith, step, around, small, v.queue_index, v.number, v.buffer_full_flag,
          v.min_block_index,
        );
        sizes = new_size;
        slots = new_slot;
      }

-- Publishing the next block keeps the window: where the ring holds the last of `k` blocks, the
-- three calls end, and then it holds the last of `k + 1`.
pub publish-Holds :
    (content : ℕ → List ℕ) (n k : ℕ) (q : BufferQueue)
    → Holds content n k q
    → (q' : BufferQueue) × (publish k (content k) q ≡ ok q') × Holds content n (suc k) q'
publish-Holds content n k q v =
    let inside : q.queue_index < length q.buffer_vector =
      omega (arith, v.queue_index, v.length-buffer_vector, mod-lt k v.some_buffer) in
    let (buf, e) = get_elem?-some q.buffer_vector q.queue_index inside in
    (
      with_block k (content k) buf q,
      publish_lem k (content k) q buf inside e,
      with_block-Holds content n k q v buf inside e,
    )
