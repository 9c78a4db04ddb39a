-- ===== src/MessageReader/Delivery.antt =====
-- A message that is in the buffer or still to come is found whole
-- (`loop` of protocol/sp/sp_cs_connector.cpp and of protocol/sp/sp_np_connector.cpp).
use rabbitstreamer.Prelude.{
  sub32_exact, sub32, subst, sym, Ensures-ok, ◌<◌, ◌++◌, length-append, length-drop, inl, inr,
  dec_lt, take, drop, ℕ, ap, ◌∙◌, ◌+◌, ◌-◌, ◌≤◌, ◌≡◌, ◌⊎◌, List, ok, length, arith,
}
use rabbitstreamer.ReceiveBuffer.{
  error_success, max_socket_buffer, Connection, ReceiveBuffer, fill_buffer, read_nbytes,
}
use rabbitstreamer.MessageReader.{
  read_nbytes, get_as_type, message, fill_rest, rest_of_message, next_message,
}
use rabbitstreamer.MessageReader.Buffered.{
  NotOn, Ready, first_bytes, last_bytes, still-IsValid, fill_buffer-NotOn, fill_buffer-Ready,
  length-unused, get_as_type_lem,
}
use rabbitstreamer.Streamer.Bytes.{le, length-le}
use rabbitstreamer.ReceiveBuffer.Room.{IsValid, unused}
use rabbitstreamer.ReceiveBuffer.Supply.{Delivers}

-- What `loop` finds of a message of `n` bytes: the bytes behind the size come first in the memory
-- that it hands on, and what follows the message is left.
pub record Found {W : Type 0} (io : Connection W) (fresh : ℕ → List ℕ) (b : ReceiveBuffer) (w : W)
    (n : ℕ) (body rest : List ℕ) : Type 0 where
  pub memory : List ℕ
  pub buffer : ReceiveBuffer
  pub conn : W
  pub found : next_message io fresh b w ≡ ok (message n memory, buffer, conn)
  pub starts : take (length body) memory ≡ body
  pub valid : IsValid buffer
  pub left : unused buffer ++ io.pending conn ≡ rest

module _ {W : Type 0} (io : Connection W) (fresh : ℕ → List ℕ)
    (sized : (n : ℕ) → length (fresh n) ≡ n) (delivers : Delivers io) (b : ReceiveBuffer) (w : W)
    (n : ℕ) (body rest : List ℕ) (v : IsValid b) (len : n ≡ 4 + length body)
    (some_type : 0 < length body) (small : n ≤ max_socket_buffer)
    (room : b.curr_ptr + n ≤ b.buffer_size)
    (stream : unused b ++ io.pending w ≡ le 4 n ++ (body ++ rest)) where
  length-stream : length (unused b) + length (io.pending w) ≡ 4 + length body + length rest
  length-stream = omega (
    arith,
    ap length stream,
    length-append (unused b) (io.pending w),
    length-append (le 4 n) (body ++ rest),
    length-append body rest,
    length-le 4 n,
  )

  free : (b.curr_ptr < b.end_ptr) ⊎ (b.end_ptr + 4 ≤ b.buffer_size)
  free = elim (dec_lt b.curr_ptr b.end_ptr) [
    | yes h ↦ inl h
    | no h ↦ inr (omega (arith, v.ordered))
  ]

  header : Ready io fresh sized delivers 4 b w
  header =
      fill_buffer-Ready io fresh sized delivers 4 b w v (omega arith) free
        (omega (arith, length-stream, length-unused b v, v.ordered))

  -- The buffer after the size has been read.
  abbrev after : ReceiveBuffer
  after = record header.buffer { curr_ptr = header.buffer.curr_ptr + 4 }

  stream1 : unused header.buffer ++ io.pending header.conn ≡ le 4 n ++ (body ++ rest)
  stream1 = header.same ∙ stream

  after-IsValid : IsValid after
  after-IsValid =
      still-IsValid 4 (le 4 n) (body ++ rest) (io.pending header.conn) header.buffer header.valid
        (length-le 4 n) header.enough stream1

  stream2 : unused after ++ io.pending header.conn ≡ body ++ rest
  stream2 =
      last_bytes 4 (le 4 n) (body ++ rest) (io.pending header.conn) header.buffer header.valid
        (length-le 4 n) header.enough stream1

  length-stream2 :
      length (unused after) + length (io.pending header.conn) ≡ length body + length rest
  length-stream2 = omega (
    arith,
    ap length stream2,
    length-append (unused after) (io.pending header.conn),
    length-append body rest,
  )

  back : (header.buffer.curr_ptr ≤ b.curr_ptr) × (b.buffer_size ≤ header.buffer.buffer_size)
  back =
      Ensures-ok (NotOn b) (fill_buffer io fresh 4 b w) (error_success, header.buffer, header.conn)
        (fill_buffer-NotOn io fresh 4 b w) header.filled

  free2 : (after.curr_ptr < after.end_ptr) ⊎ (after.end_ptr + (n - 4) ≤ after.buffer_size)
  free2 = elim (dec_lt after.curr_ptr after.end_ptr) [
    | yes h ↦ inl h
    | no h ↦ inr (omega (arith, header.enough, back.0, back.1))
  ]

  whole : Ready io fresh sized delivers (n - 4) after header.conn
  whole =
      fill_buffer-Ready io fresh sized delivers (n - 4) after header.conn after-IsValid
        (omega arith) free2
        (omega (arith, length-stream2, length-unused after after-IsValid, header.enough))

  stream3 : unused whole.buffer ++ io.pending whole.conn ≡ body ++ rest
  stream3 = whole.same ∙ stream2

  sized_body : length body ≡ n - 4
  sized_body = omega arith

  -- The buffer after the message has been read.
  abbrev end : ReceiveBuffer
  end = record whole.buffer { curr_ptr = whole.buffer.curr_ptr + n - 4 }

  end_at : end ≡ record whole.buffer { curr_ptr = whole.buffer.curr_ptr + (n - 4) }
  end_at =
      let e : whole.buffer.curr_ptr + n - 4 ≡ whole.buffer.curr_ptr + (n - 4) = omega arith in
      ap (λ (p : ℕ). record whole.buffer { curr_ptr = p }) e

  read_size :
      get_as_type 4 (drop header.buffer.curr_ptr header.buffer.buffer)
      ≡ ok (n, drop 4 (drop header.buffer.curr_ptr header.buffer.buffer))
  read_size =
      get_as_type_lem n (drop header.buffer.curr_ptr header.buffer.buffer)
        (first_bytes 4 (le 4 n) (body ++ rest) (io.pending header.conn) header.buffer header.valid
          (length-le 4 n) header.enough stream1)
        (omega (
          arith,
          length-drop header.buffer.curr_ptr header.buffer.buffer,
          header.valid.allocated,
          header.valid.inside,
          header.enough,
        ))
        (omega arith)

  exact_rest : sub32 n 4 ≡ n - 4
  exact_rest = sub32_exact n 4 (omega arith) (omega arith)

  fill_rest_lem : fill_rest io fresh n after header.conn ≡ ok (whole.buffer, whole.conn)
  unfolding fill_rest
  fill_rest_lem = ground (arith, exact_rest, whole.filled)

  read_rest_lem : read_nbytes (sub32 n 4) whole.buffer ≡ (whole.buffer.curr_ptr, end)
  unfolding read_nbytes
  read_rest_lem = rw (exact_rest, end_at)

  rest_of_message_lem :
      rest_of_message io fresh header.buffer header.conn
      ≡ ok (message n (drop whole.buffer.curr_ptr whole.buffer.buffer), end, whole.conn)
  unfolding rest_of_message read_nbytes
  rest_of_message_lem = ground (arith, read_size, fill_rest_lem, read_rest_lem)

  -- On a connection on which a call that asks for a byte gets one as long as any are to come, if
  -- what is unused in a valid buffer and still to come starts with a message, with its size in
  -- front, and the message has a type, is at most 262144 bytes long and would fit from the start of
  -- the unused bytes on, then `loop` finds the message whole, and what follows it is left for the
  -- next call, however the bytes are cut into reads.
  pub next_message-Found : Found io fresh b w n body rest
  unfolding next_message
  next_message-Found =
      let mine =
        last_bytes (n - 4) body rest (io.pending whole.conn) whole.buffer whole.valid sized_body
          whole.enough stream3 in
      let still =
        still-IsValid (n - 4) body rest (io.pending whole.conn) whole.buffer whole.valid sized_body
          whole.enough stream3 in
      record {
        memory = drop whole.buffer.curr_ptr whole.buffer.buffer;
        buffer = end;
        conn = whole.conn;
        found = ground (arith, header.filled, rest_of_message_lem);
        starts =
            subst (λ k. take k (drop whole.buffer.curr_ptr whole.buffer.buffer) ≡ body)
              (sym sized_body)
              (first_bytes (n - 4) body rest (io.pending whole.conn) whole.buffer whole.valid
                sized_body whole.enough stream3);
        valid = subst IsValid (sym end_at) still;
        left = subst (λ x. unused x ++ io.pending whole.conn ≡ rest) (sym end_at) mine;
      }
