-- ===== src/ReceiveBuffer/Room.antt =====
-- Room for more bytes in the buffer of core/buffer.cpp: `set_buffer`, and the start of `fill_buffer`.
use rabbitstreamer.Prelude.{
  max, ℕ, ◌+◌, ◌-◌, ◌≤◌, ◌≡◌, refl, List, length, length-append, ltb, if◌then◌else◌, min, Result,
  ok, fault, Bool-cases, inl, inr, arith,
}
use rabbitstreamer.ReceiveBuffer.{max_socket_buffer, ReceiveBuffer, set_buffer, slice, make_room}
use rabbitstreamer.ReceiveBuffer.Slices.{
  length-slice, length-splice, slice_moved, slice-append, slice_empty,
}

-- The pointers are in order and inside the buffer.
pub record IsValid (b : ReceiveBuffer) : Type 0 where
  pub allocated : length b.buffer ≡ b.buffer_size
  pub ordered : b.curr_ptr ≤ b.end_ptr
  pub inside : b.end_ptr ≤ b.buffer_size

-- The bytes that have been received and not been used.
abbrev pub unused : ReceiveBuffer → List ℕ
unused b = slice b.curr_ptr b.end_ptr b.buffer

-- `set_buffer` leaves a valid buffer with the same unused bytes. A size above 262144 changes nothing,
-- and any other one makes the buffer that large if it is smaller.
pub set_buffer_lem :
    (fresh : ℕ → List ℕ) (size : ℕ) (b : ReceiveBuffer)
    → ((n : ℕ) → length (fresh n) ≡ n)
    → IsValid b
    → IsValid (set_buffer fresh size b)
      × (unused (set_buffer fresh size b) ≡ unused b)
      × ((set_buffer fresh size b).buffer_size
          ≡ (if ltb max_socket_buffer size then b.buffer_size else max size b.buffer_size))
unfolding set_buffer
set_buffer_lem fresh size b f v =
    let more = fresh (min size max_socket_buffer - b.buffer_size) in
    ground (
      arith,
      v.ordered,
      v.inside,
      v.allocated,
      length-append b.buffer more,
      f (min size max_socket_buffer - b.buffer_size),
      slice-append b.curr_ptr b.end_ptr b.buffer more v.ordered,
    )

-- `free_space` is at most what is free, and the unused bytes are kept.
abbrev pub Room : ℕ → ReceiveBuffer → Result (ℕ × ReceiveBuffer) → Type 0
Room size b (ok (free_space, b')) =
    IsValid b' × (unused b' ≡ unused b) × (free_space + b'.end_ptr ≤ b'.buffer_size)
Room size b (fault e) = ⊥

pub make_room-Room : (size : ℕ) (b : ReceiveBuffer) → IsValid b → Room size b (make_room size b)
unfolding make_room
make_room-Room size b v =
    let moved = slice b.curr_ptr b.end_ptr b.buffer in
    ground (
      arith,
      v.ordered,
      v.inside,
      v.allocated,
      slice_empty 0 b.buffer,
      slice_empty b.curr_ptr b.buffer,
      slice_moved moved b.buffer,
      length-slice b.curr_ptr b.end_ptr b.buffer,
      length-splice 0 moved b.buffer,
    )

-- The buffer that `fill_buffer` goes on with.
abbrev pub enlarged : (ℕ → List ℕ) → ℕ → ReceiveBuffer → ReceiveBuffer
enlarged fresh size b = if ltb b.buffer_size size then set_buffer fresh size b else b

pub enlarged_lem :
    (fresh : ℕ → List ℕ) (size : ℕ) (b : ReceiveBuffer)
    → ((n : ℕ) → length (fresh n) ≡ n)
    → IsValid b
    → IsValid (enlarged fresh size b) × (unused (enlarged fresh size b) ≡ unused b)
enlarged_lem fresh size b f v = elim (Bool-cases (ltb b.buffer_size size)) [
  | inl more ↦ rw more ((set_buffer_lem fresh size b f v).0, (set_buffer_lem fresh size b f v).1)
  | inr same ↦ rw same (v, refl)
]
