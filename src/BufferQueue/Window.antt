-- ===== src/BufferQueue/Window.antt =====
-- The blocks that a ring of `n` buffers holds after `k` blocks, numbered from 0, have been published.
use rabbitstreamer.Prelude.{
  ℕ, ◌+◌, ◌-◌, ◌%◌, ◌≤◌, ◌<◌, ◌≡◌, ◌≢◌, ◌∙◌, ltb, leb, if◌then◌else◌, List, length, get_elem?, some,
  dec_lt, arith,
}
use native.Mathlib.Nat.{mod-lt, mod-add-mod, mod-eq_of_lt, mod-eq-sub-mod}
use rabbitstreamer.BufferQueue.{buffer_available, MediaBuffer, BufferQueue, media_block_size}

-- The buffer of a published block.
abbrev pub published : (ℕ → List ℕ) → ℕ → MediaBuffer
published content i = record {
  flag = buffer_available;
  block_id = i;
  block_size = media_block_size;
  buffer = content i;
}

-- `content i` is what was published as block `i`; the last `n` of the `k` blocks are in the ring,
-- block `i` at the index `i % n`.
pub record Holds (content : ℕ → List ℕ) (n k : ℕ) (q : BufferQueue) : Type 0 where
  pub some_buffer : 0 < n
  pub number : q.buffer_number ≡ n
  pub length-buffer_vector : length q.buffer_vector ≡ n
  pub queue_index : q.queue_index ≡ k % n
  pub buffer_full_flag : q.buffer_full_flag ≡ leb n k
  pub min_block_id : q.min_block_id ≡ k - n
  pub min_block_index : q.min_block_index ≡ (if leb n k then k % n else 0)
  pub sizes :
      (i : ℕ) (b : MediaBuffer)
      → get_elem? q.buffer_vector i ≡ some b
      → b.block_size ≡ media_block_size
  pub slots :
      (i : ℕ) → i < k → k ≤ i + n → get_elem? q.buffer_vector (i % n) ≡ some (published content i)

mod_shift_ne : (n h d : ℕ) → h < n → 0 < d → d < n → (h + d) % n ≢ h
mod_shift_ne n h d hh pos hd = elim (dec_lt (h + d) n) [
  | yes p ↦ omega (arith, mod-eq_of_lt p)
  | no p ↦ omega (
    arith,
    mod-eq-sub-mod {n = h + d} {m = n} (omega arith),
    mod-eq_of_lt {n = h + d - n} {m = n} (omega arith),
  )
]

-- Two different blocks of the window lie at different places.
pub slot_ne : (n i d : ℕ) → 0 < d → d < n → (i + d) % n ≢ i % n
slot_ne n i d pos hd e =
    mod_shift_ne n (i % n) d (mod-lt i (omega arith)) pos hd (mod-add-mod i n d ∙ e)

-- One round further.
pub slot_step : (n k : ℕ) → 0 < n → (k % n + 1) % n ≡ (k + 1) % n
slot_step n k h = mod-add-mod k n 1

-- The index that `dequeue_buffer` computes.
pub slot_wrap :
    (n s d : ℕ) → s < n → d < n → (if ltb d (n - s) then s + d else d - (n - s)) ≡ (s + d) % n
slot_wrap n s d hs hd = elim (dec_lt d (n - s)) [
  | yes p ↦ ground (arith, mod-eq_of_lt {n = s + d} {m = n})
  | no p ↦ ground (
    arith,
    mod-eq-sub-mod {n = s + d} {m = n} (omega arith),
    mod-eq_of_lt {n = s + d - n} {m = n} (omega arith),
  )
]
