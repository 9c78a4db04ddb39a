-- ===== src/ReceiveBuffer/Fill.antt =====
-- `fill_buffer` of core/buffer.cpp neither loses, repeats nor reorders a byte of the connection.
pub mod Rounds
use Rounds.{Filled, fill_loop-Filled}
use rabbitstreamer.Prelude.{
  ◌⊎◌, true, false, ◌≢◌, ℕ, zero, suc, ◌+◌, ◌-◌, ◌≤◌, ◌<◌, ◌≡◌, refl, sym, ap, ◌∙◌, List, [], ◌∷◌,
  ◌++◌, append-nil, append_assoc, length, length-append, take, drop, ltb, leb, ◌==◌, if◌then◌else◌,
  min, Result, ok, fault, dec_lt, dec_le, Bool-cases, inl, inr, arith,
}
use rabbitstreamer.ReceiveBuffer.{
  error_socket_read, error_socket_timeout, max_socket_buffer, error_success, StRead, received,
  timed_out, failed, Connection, SocketRead, bytes, error, read_result, ReceiveBuffer, set_buffer,
  splice, slice, make_room, fill_loop, fill_buffer,
}
use rabbitstreamer.ReceiveBuffer.Room.{
  IsValid, unused, Room, make_room-Room, enlarged, enlarged_lem,
}
use rabbitstreamer.ReceiveBuffer.Slices.{
  length-slice, length-splice, slice-splice, slice_moved, slice-append, slice_empty,
}

-- A buffer with the same unused bytes.
Filled-unused :
    {W : Type 0} (io : Connection W) (size : ℕ) (b b' : ReceiveBuffer) (w : W)
    (r : Result (ℕ × ReceiveBuffer × W))
    → unused b' ≡ unused b
    → Filled io size b' w r
    → Filled io size b w r
Filled-unused io size b b' w (ok (code, b'', w'')) e f =
    (f.0, f.1 ∙ ap (λ l. l ++ io.pending w) e, f.2)
Filled-unused io size b b' w (fault e) p f = f

pub fill_buffer-fills :
    {W : Type 0} (io : Connection W) (fresh : ℕ → List ℕ) (size free_space : ℕ)
    (b b' : ReceiveBuffer) (w : W)
    → b.end_ptr < b.curr_ptr + size
    → make_room size (enlarged fresh size b) ≡ ok (free_space, b')
    → fill_buffer io fresh size b w ≡ fill_loop io size size free_space b' w
unfolding fill_buffer
fill_buffer-fills io fresh size free_space b b' w h e =
    let short : leb (b.curr_ptr + size) b.end_ptr ≡ false = ground arith in rw (short, e)

pub fill_buffer-enough :
    {W : Type 0} (io : Connection W) (fresh : ℕ → List ℕ) (size : ℕ) (b : ReceiveBuffer) (w : W)
    → b.curr_ptr + size ≤ b.end_ptr
    → fill_buffer io fresh size b w ≡ ok (error_success, b, w)
unfolding fill_buffer
fill_buffer-enough io fresh size b w h =
    let fits : leb (b.curr_ptr + size) b.end_ptr ≡ true = ground arith in rw fits

Filled-ok :
    {W : Type 0} (io : Connection W) (size : ℕ) (b : ReceiveBuffer) (w : W)
    (r : Result (ℕ × ReceiveBuffer × W))
    → Filled io size b w r
    → (code : ℕ) × (b' : ReceiveBuffer) × (w' : W) × (r ≡ ok (code, b', w'))
      × IsValid b'
      × (unused b' ++ io.pending w' ≡ unused b ++ io.pending w)
      × ((code ≢ error_success) ⊎ (b'.curr_ptr + size ≤ b'.end_ptr))
Filled-ok io size b w (ok (code, b', w')) f = (code, b', w', refl, f.0, f.1, ground arith)
Filled-ok io size b w (fault e) f = absurd f

module _ {W : Type 0} (io : Connection W) (fresh : ℕ → List ℕ) (size : ℕ) (b : ReceiveBuffer)
    (w : W) (f : (n : ℕ) → length (fresh n) ≡ n) (v : IsValid b) where
  fill_buffer_more :
      b.end_ptr < b.curr_ptr + size → Filled io size b w (fill_buffer io fresh size b w)
  fill_buffer_more h =
      by_room (make_room size (enlarged fresh size b)) refl
        (make_room-Room size (enlarged fresh size b) (enlarged_lem fresh size b f v).0)
    where
      by_room :
          (r : Result (ℕ × ReceiveBuffer))
          → make_room size (enlarged fresh size b) ≡ r
          → Room size (enlarged fresh size b) r
          → Filled io size b w (fill_buffer io fresh size b w)
      by_room (ok (free_space, b')) e g =
          rw (fill_buffer-fills io fresh size free_space b b' w h e) (
            Filled-unused io size b b' w (fill_loop io size size free_space b' w)
              (g.1 ∙ (enlarged_lem fresh size b f v).1)
              (fill_loop-Filled io size size free_space b' w g.0 g.2 (omega (arith, g.0.ordered))))
      by_room (fault e) p g = absurd g

-- On a valid buffer `fill_buffer` ends. Then the buffer is valid, and the unused bytes with those
-- still to come are what they were before, in order; either the call reports an error, or at
-- least `size` bytes are unused.
pub fill_buffer_lem :
    {W : Type 0} (io : Connection W) (fresh : ℕ → List ℕ) (size : ℕ) (b : ReceiveBuffer) (w : W)
    → ((n : ℕ) → length (fresh n) ≡ n)
    → IsValid b
    → (code : ℕ) × (b' : ReceiveBuffer) × (w' : W) × (fill_buffer io fresh size b w
        ≡ ok (code, b', w'))
      × IsValid b'
      × (unused b' ++ io.pending w' ≡ unused b ++ io.pending w)
      × ((code ≢ error_success) ⊎ (b'.curr_ptr + size ≤ b'.end_ptr))
fill_buffer_lem io fresh size b w f v =
    Filled-ok io size b w (fill_buffer io fresh size b w)
      (elim (dec_le (b.curr_ptr + size) b.end_ptr) [
        | yes h ↦ rw (fill_buffer-enough io fresh size b w h) (v, refl, λ z. h)
        | no h ↦ fill_buffer_more io fresh size b w f v (omega arith)
      ])
