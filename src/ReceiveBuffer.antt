-- ===== src/ReceiveBuffer.antt =====
-- core/buffer.h and core/buffer.cpp (`RsBuffer`), the buffer in which a connection collects its
-- messages, and `RsSocket::read` of core/socket.cpp, from which it is filled. Pointers are offsets
-- into the buffer, and sizes are not negative. The library st is a parameter.
pub mod Slices
pub mod Room
pub mod Fill
pub mod Supply
pub mod Stall
pub mod Scripted
mod Tests
use rabbitstreamer.Prelude.{
  ℕ, zero, suc, ◌+◌, ◌-◌, ◌≡◌, ◌≤◌, List, [], ◌∷◌, ◌++◌, length, take, drop, replicate, ltb, leb,
  ◌==◌, ◌&&◌, if◌then◌else◌, min, Result, ok, fault, out_of_bounds, no_fuel, get_elem?, none, some,
}

abbrev pub default_recv_buffer_size : ℕ
default_recv_buffer_size = 131072

abbrev pub max_socket_buffer : ℕ
max_socket_buffer = 262144

-- core/error_code.h
abbrev pub error_success : ℕ
error_success = 0

abbrev pub error_socket_read : ℕ
error_socket_read = 1007

abbrev pub error_socket_timeout : ℕ
error_socket_timeout = 1011

-- What `st_read` returns: some bytes (none at the end of the stream), or -1 with `ETIME` or another
-- `errno`.
pub data StRead : Type 0 where
  received : List ℕ → StRead
  timed_out failed : StRead

-- A connection of the library st, in the state `W`. `pending` are the bytes that are still to come.
-- `st_read` hands out no more than it is asked for, in order, and a failure loses nothing.
pub record Connection (W : Type 0) : Type 0 where
  pub st_read : W → ℕ → StRead × W
  pub pending : W → List ℕ
  pub no_more :
      (w : W) (n : ℕ) (bs : List ℕ) (w' : W) → st_read w n ≡ (received bs, w') → length bs ≤ n
  pub in_order :
      (w : W) (n : ℕ) (bs : List ℕ) (w' : W)
      → st_read w n ≡ (received bs, w')
      → pending w ≡ bs ++ pending w'
  pub kept_timeout :
      (w : W) (n : ℕ) (w' : W) → st_read w n ≡ (timed_out, w') → pending w ≡ pending w'
  pub kept_failure : (w : W) (n : ℕ) (w' : W) → st_read w n ≡ (failed, w') → pending w ≡ pending w'

-- `RsSocket::read`: the bytes of a successful call, or the error code
pub data SocketRead : Type 0 where
  bytes : List ℕ → SocketRead
  error : ℕ → SocketRead

unfoldable pub read_result : StRead → SocketRead
read_result timed_out = error error_socket_timeout
read_result failed = error error_socket_read
read_result (received []) = error error_socket_read
read_result (received (b ∷ bs)) = bytes (b ∷ bs)

pub record ReceiveBuffer : Type 0 where
  pub buffer : List ℕ
  pub buffer_size : ℕ
  pub curr_ptr : ℕ
  pub end_ptr : ℕ

-- The constructor, over what the memory of `malloc` holds.
unfoldable pub create : List ℕ → ReceiveBuffer
create memory = record {
  buffer = memory;
  buffer_size = default_recv_buffer_size;
  curr_ptr = 0;
  end_ptr = 0;
}

-- `set_buffer`. `fresh` is what `realloc` appends.
unfoldable pub set_buffer : (ℕ → List ℕ) → ℕ → ReceiveBuffer → ReceiveBuffer
set_buffer fresh size b =
    let nb_resize_buf = min size max_socket_buffer in
    if ltb max_socket_buffer size
    then b
    else if leb nb_resize_buf b.buffer_size
    then b
    else record b {
      buffer = b.buffer ++ fresh (nb_resize_buf - b.buffer_size);
      buffer_size = nb_resize_buf;
    }

-- `read_nbytes`: the pointer that it returns. It does not look at `end_ptr`.
unfoldable pub read_nbytes : ℕ → ReceiveBuffer → ℕ × ReceiveBuffer
read_nbytes size b = (b.curr_ptr, record b { curr_ptr = b.curr_ptr + size })

unfoldable pub skip : ℕ → ReceiveBuffer → ReceiveBuffer
skip size b = record b { curr_ptr = b.curr_ptr + size }

unfoldable pub read_byte : ReceiveBuffer → Result (ℕ × ReceiveBuffer)
read_byte b = elim (get_elem? b.buffer b.curr_ptr) [
  | some c ↦ ok (c, record b { curr_ptr = b.curr_ptr + 1 })
  | none ↦ fault out_of_bounds
]

-- A store of `bs` at the offset `i`.
unfoldable pub splice : ℕ → List ℕ → List ℕ → List ℕ
splice i bs mem = take i mem ++ (bs ++ drop (i + length bs) mem)

-- The bytes from the offset `i` up to the offset `j`.
unfoldable pub slice : ℕ → ℕ → List ℕ → List ℕ
slice i j mem = take (j - i) (drop i mem)

-- The unused bytes move to the start, or the pointers do if there are none. Of these two branches
-- only the second computes `free_space` again.
unfoldable pub make_room : ℕ → ReceiveBuffer → Result (ℕ × ReceiveBuffer)
make_room size b =
    let free_space = b.buffer_size - b.end_ptr in
    if b.end_ptr == b.curr_ptr
    then ok (free_space, record b { curr_ptr = 0; end_ptr = 0 })
    else if ltb free_space size
    then (if ltb b.end_ptr b.curr_ptr
        then fault out_of_bounds
        else ok (
          b.buffer_size - (b.end_ptr - b.curr_ptr),
          record b {
            buffer = splice 0 (slice b.curr_ptr b.end_ptr b.buffer) b.buffer;
            curr_ptr = 0;
            end_ptr = b.end_ptr - b.curr_ptr;
          },
        ))
    else ok (free_space, b)

module _ {W : Type 0} (io : Connection W) where
  -- The `while` loop of `fill_buffer`. A read that succeeds brings a byte, so `size` rounds suffice.
  unfoldable pub fill_loop : ℕ → ℕ → ℕ → ReceiveBuffer → W → Result (ℕ × ReceiveBuffer × W)
  fill_loop zero size free_space b w =
      if leb (b.curr_ptr + size) b.end_ptr then ok (error_success, b, w) else fault no_fuel
  fill_loop (suc fuel) size free_space b w =
      let (r, w') = io.st_read w free_space in
      let next = λ (bs : List ℕ).
        fill_loop fuel size (free_space - length bs)
          (record b { buffer = splice b.end_ptr bs b.buffer; end_ptr = b.end_ptr + length bs })
          w' in
      let step : Result (ℕ × ReceiveBuffer × W) = elim (read_result r) [
        | error code ↦ ok (code, b, w')
        | bytes bs ↦ next bs
      ] in
      if leb (b.curr_ptr + size) b.end_ptr then ok (error_success, b, w) else step

  -- `fill_buffer`
  unfoldable pub fill_buffer : (ℕ → List ℕ) → ℕ → ReceiveBuffer → W → Result (ℕ × ReceiveBuffer × W)
  fill_buffer fresh size b w =
      let larger = if ltb b.buffer_size size then set_buffer fresh size b else b in
      let filled : Result (ℕ × ReceiveBuffer × W) = elim (make_room size larger) [
        | ok (free_space, b') ↦ fill_loop size size free_space b' w
        | fault e ↦ fault e
      ] in
      if leb (b.curr_ptr + size) b.end_ptr then ok (error_success, b, w) else filled
