-- ===== src/ReceiveBuffer/Supply.antt =====
-- When `fill_buffer` of core/buffer.cpp succeeds on a connection that delivers.
use rabbitstreamer.Prelude.{
  ap, length-append, refl, ◌∙◌, ◌∷◌, [], fault, dec_le, ℕ, zero, suc, ◌+◌, ◌-◌, ◌≤◌, ◌<◌, ◌≡◌, ◌⊎◌,
  List, length, Result, ok, arith,
}
use rabbitstreamer.ReceiveBuffer.{
  bytes, StRead, read_result, error_success, max_socket_buffer, Connection, ReceiveBuffer, received,
  make_room, fill_loop, fill_buffer, set_buffer,
}
use rabbitstreamer.ReceiveBuffer.Fill.{fill_buffer-fills, fill_buffer-enough}
use rabbitstreamer.ReceiveBuffer.Room.{IsValid, enlarged}
use rabbitstreamer.ReceiveBuffer.Fill.Rounds.{appended, loop_bytes, loop_enough}

received_bytes :
    (r : StRead) (bs : List ℕ) → 0 < length bs → r ≡ received bs → read_result r ≡ bytes bs
unfolding read_result
received_bytes r (b ∷ bs) pos e = rw e refl
received_bytes r [] pos e = absurd (omega arith)

module _ {W : Type 0} (io : Connection W) where
  -- Every call that asks for a byte gets one, as long as there are any to come.
  abbrev pub Delivers : Type 0
  Delivers =
      (w : W) (n : ℕ)
      → 0 < n
      → 0 < length (io.pending w)
      → (bs : List ℕ) × (0 < length bs) × ((io.st_read w n).0 ≡ received bs)

  -- The call ends with success and enough bytes.
  abbrev Supplied : ℕ → Result (ℕ × ReceiveBuffer × W) → Type 0
  Supplied size r =
      (b' : ReceiveBuffer) × (w' : W) × (r ≡ ok (error_success, b', w'))
      × (b'.curr_ptr + size ≤ b'.end_ptr)

  fill_loop-Supplied :
      (fuel size free_space : ℕ) (b : ReceiveBuffer) (w : W)
      → Delivers
      → b.curr_ptr + size ≤ b.end_ptr + free_space
      → b.curr_ptr + size ≤ b.end_ptr + length (io.pending w)
      → b.curr_ptr + size ≤ b.end_ptr + fuel
      → Supplied size (fill_loop io fuel size free_space b w)
  fill_loop-Supplied zero size free_space b w d room there enough =
      (b, w, loop_enough io zero size free_space b w (omega arith), omega arith)
  fill_loop-Supplied (suc fuel) size free_space b w d room there enough =
      elim (dec_le (b.curr_ptr + size) b.end_ptr) [
        | yes h ↦ (b, w, loop_enough io (suc fuel) size free_space b w h, h)
        | no h ↦
            let (bs, pos, e) = d w free_space (omega arith) (omega arith) in
            let p = received_bytes (io.st_read w free_space).0 bs pos e in
            let out : io.st_read w free_space ≡ (received bs, (io.st_read w free_space).1) =
              ground arith in
            let le = io.no_more w free_space bs (io.st_read w free_space).1 out in
            let less : length (io.pending w)
                ≡ length bs + length (io.pending (io.st_read w free_space).1) =
              ap length (io.in_order w free_space bs (io.st_read w free_space).1 out)
              ∙ length-append bs (io.pending (io.st_read w free_space).1) in
            rw (loop_bytes io fuel size free_space b w bs (omega arith) p) (
              fill_loop-Supplied fuel size (free_space - length bs) (appended io bs b)
                (io.st_read w free_space).1 d (omega arith) (omega arith) (omega arith))
      ]

  -- The start of `fill_buffer` leaves room for the request.
  abbrev Roomy : ℕ → ReceiveBuffer → Result (ℕ × ReceiveBuffer) → Type 0
  Roomy size b (ok (free_space, b')) =
      (b'.curr_ptr + size ≤ b'.end_ptr + free_space)
      × (b'.curr_ptr ≤ b'.end_ptr)
      × (b'.end_ptr + b.curr_ptr ≡ b.end_ptr + b'.curr_ptr)
  Roomy size b (fault e) = ⊥

  make_room-Roomy :
      (fresh : ℕ → List ℕ) (size : ℕ) (b : ReceiveBuffer)
      → IsValid b
      → size ≤ max_socket_buffer
      → (b.curr_ptr < b.end_ptr) ⊎ (b.end_ptr + size ≤ b.buffer_size)
      → Roomy size b (make_room size (enlarged fresh size b))
  unfolding make_room set_buffer
  make_room-Roomy fresh size b v h c = ground (arith, v.ordered, v.inside)

  by_room :
      (size : ℕ) (b : ReceiveBuffer) (w : W) (d : Delivers) (r : Result (ℕ × ReceiveBuffer))
      → b.curr_ptr + size ≤ b.end_ptr + length (io.pending w)
      → Roomy size b r
      → (free_space : ℕ) × (b' : ReceiveBuffer) × (r ≡ ok (free_space, b'))
        × Supplied size (fill_loop io size size free_space b' w)
  by_room size b w d (ok (free_space, b')) there g = (
    free_space,
    b',
    refl,
    fill_loop-Supplied size size free_space b' w d g.0 (omega arith) (omega arith),
  )
  by_room size b w d (fault e) there g = absurd g

-- On a connection on which a call that asks for a byte gets one as long as any are to come,
-- `fill_buffer` succeeds and leaves at least as many unused bytes as asked for: if these are at
-- most 262144, that many are unused or to come, and either some are unused or as many as asked for
-- fit behind the end.
pub fill_buffer_succeeds :
    {W : Type 0} (io : Connection W) (fresh : ℕ → List ℕ) (size : ℕ) (b : ReceiveBuffer) (w : W)
    → Delivers io
    → IsValid b
    → size ≤ max_socket_buffer
    → (b.curr_ptr < b.end_ptr) ⊎ (b.end_ptr + size ≤ b.buffer_size)
    → b.curr_ptr + size ≤ b.end_ptr + length (io.pending w)
    → (b' : ReceiveBuffer) × (w' : W) × (fill_buffer io fresh size b w ≡ ok (error_success, b', w'))
      × (b'.curr_ptr + size ≤ b'.end_ptr)
fill_buffer_succeeds io fresh size b w d v h c there = elim (dec_le (b.curr_ptr + size) b.end_ptr) [
  | yes k ↦ (b, w, fill_buffer-enough io fresh size b w k, k)
  | no k ↦
      let (free_space, b', e, filled) =
        by_room io size b w d (make_room size (enlarged fresh size b)) there
          (make_room-Roomy io fresh size b v h c) in
      let (b'', w', p, g) = filled in
      (b'', w', fill_buffer-fills io fresh size free_space b b' w (omega arith) e ∙ p, g)
]
