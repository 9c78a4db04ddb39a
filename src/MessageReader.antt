-- ===== src/MessageReader.antt =====
-- How `loop` of protocol/sp/sp_cs_connector.cpp and `loop` of protocol/sp/sp_np_connector.cpp take
-- the next message from a connection, which they do alike. Memory is read as far as the buffer is
-- allocated, also behind the message; to read on is a fault.
pub mod Fields
pub mod Buffered
pub mod Delivery
mod Tests
use rabbitstreamer.Prelude.{
  assertion, sub32, ◌||◌, ℕ, zero, suc, ◌+◌, ◌-◌, ◌^◌, ltb, leb, ◌==◌, if◌then◌else◌, List, [], ◌∷◌,
  Result, ok, fault, out_of_bounds, ◌>>=◌, length, take, drop, u32_mod,
}
use rabbitstreamer.Streamer.Bytes.{from_le}
use rabbitstreamer.ReceiveBuffer.{
  error_success, Connection, ReceiveBuffer, read_nbytes, fill_buffer,
}

-- `memcpy(dst, msg, n)`, and what stands behind the copied bytes
unfoldable pub copy_bytes : ℕ → List ℕ → Result (List ℕ × List ℕ)
copy_bytes n mem = if leb n (length mem) then ok (take n mem, drop n mem) else fault out_of_bounds

-- `get_as_type(msg, x)` for an `x` of `n` bytes
unfoldable pub get_as_type : ℕ → List ℕ → Result (ℕ × List ℕ)
get_as_type n mem = copy_bytes n mem >>= λ r. ok (from_le r.0, r.1)

-- What `loop` finds: the error code of the first call of `fill_buffer`, or the size in the header
-- and the memory from the type of the message on.
pub data Next : Type 0 where
  stopped : ℕ → Next
  message : ℕ → List ℕ → Next

module _ {W : Type 0} (io : Connection W) (fresh : ℕ → List ℕ) where
  -- The second call of `fill_buffer`, whose result is ignored. It stops at the assertion on its size
  -- where `msg_size - 4`, the word of an `int`, is negative.
  unfoldable pub fill_rest : ℕ → ReceiveBuffer → W → Result (ReceiveBuffer × W)
  fill_rest msg_size b w =
      let size = sub32 msg_size 4 in
      let filled = fill_buffer io fresh size b w >>= λ r. ok (r.1, r.2) in
      if leb (2 ^ 31) size then fault assertion else filled

  -- After the first call of `fill_buffer`.
  unfoldable pub rest_of_message : ReceiveBuffer → W → Result (Next × ReceiveBuffer × W)
  rest_of_message b w = do
    let (at, b') = read_nbytes 4 b
    (msg_size, behind) ← get_as_type 4 (drop at b'.buffer)
    (b'', w') ← fill_rest msg_size b' w
    let (start, b''') = read_nbytes (sub32 msg_size 4) b''
    ok (message msg_size (drop start b'''.buffer), b''', w')

  unfoldable pub next_message : ReceiveBuffer → W → Result (Next × ReceiveBuffer × W)
  next_message b w = fill_buffer io fresh 4 b w >>= λ r.
      let rest = rest_of_message r.1 r.2 in
      if r.0 == error_success then rest else ok (stopped r.0, r.1, r.2)
