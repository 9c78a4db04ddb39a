-- ===== src/ReceiveBuffer/Stall.antt =====
-- Where `fill_buffer` of core/buffer.cpp fails though the buffer is large enough: once all bytes are
-- used, the pointers go back to the start, and the free space still is that behind the old end.
use rabbitstreamer.Prelude.{
  ℕ, zero, suc, ◌+◌, ◌-◌, ◌≤◌, ◌<◌, ◌≡◌, ◌≢◌, List, length, Result, ok, arith,
}
use rabbitstreamer.ReceiveBuffer.{
  error_success, Connection, ReceiveBuffer, make_room, fill_loop, fill_buffer,
}
use rabbitstreamer.ReceiveBuffer.Room.{IsValid}
use rabbitstreamer.ReceiveBuffer.Fill.Rounds.{
  data_read, no_data, not_in_time, broken, read_cases, appended, loop_error, loop_bytes,
}

module _ {W : Type 0} (io : Connection W) where
  -- The call ends, and reports an error.
  abbrev Refused : Result (ℕ × ReceiveBuffer × W) → Type 0
  Refused r =
      (code : ℕ) × (b' : ReceiveBuffer) × (w' : W) × (r ≡ ok (code, b', w'))
      × (code ≢ error_success)

  fill_loop-Refused :
      (fuel size free_space : ℕ) (b : ReceiveBuffer) (w : W)
      → free_space + b.end_ptr < b.curr_ptr + size
      → b.curr_ptr + size ≤ b.end_ptr + fuel
      → Refused (fill_loop io fuel size free_space b w)
  fill_loop-Refused zero size free_space b w short enough = absurd (omega arith)
  fill_loop-Refused (suc fuel) size free_space b w short enough =
      let w' = (io.st_read w free_space).1 in
      elim (read_cases (io.st_read w free_space).0) [
        | data_read bs e pos r ↦
            let le = io.no_more w free_space bs w' (ground arith) in
            rw (loop_bytes io fuel size free_space b w bs (omega arith) r) (
              fill_loop-Refused fuel size (free_space - length bs) (appended io bs b) w'
                (omega arith) (omega arith))
        | no_data code e r c ↦
            (code, b, w', loop_error io fuel size free_space b w code (omega arith) r, c)
        | not_in_time code e r c ↦
            (code, b, w', loop_error io fuel size free_space b w code (omega arith) r, c)
        | broken code e r c ↦
            (code, b, w', loop_error io fuel size free_space b w code (omega arith) r, c)
      ]

-- Where all bytes have been used and less than `size` is free behind the end, `fill_buffer` reports
-- an error whatever the connection delivers, for every `size` that the buffer could hold.
pub fill_buffer_stalls :
    {W : Type 0} (io : Connection W) (fresh : ℕ → List ℕ) (size : ℕ) (b : ReceiveBuffer) (w : W)
    → IsValid b
    → b.curr_ptr ≡ b.end_ptr
    → size ≤ b.buffer_size
    → b.buffer_size < b.end_ptr + size
    → (code : ℕ) × (b' : ReceiveBuffer) × (w' : W) × (fill_buffer io fresh size b w
        ≡ ok (code, b', w'))
      × (code ≢ error_success)
unfolding fill_buffer make_room
fill_buffer_stalls io fresh size b w v used holds short =
    let start = record b { curr_ptr = 0; end_ptr = 0 } in
    let same : fill_buffer io fresh size b w
        ≡ fill_loop io size size (b.buffer_size - b.end_ptr) start w =
      ground (arith) in
    rw same (
      fill_loop-Refused io size size (b.buffer_size - b.end_ptr) start w (omega (arith, v.inside))
        (omega arith))
