-- ===== src/MessageReader/Buffered.antt =====
-- What a successful `fill_buffer` of core/buffer.cpp leaves for `loop` of
-- protocol/sp/sp_cs_connector.cpp and of protocol/sp/sp_np_connector.cpp.
use rabbitstreamer.Prelude.{
  drop_more, drop-take, drop-drop, zero, suc, ◌^◌, ◌<◌, ◌++◌, take_append, drop_append, take-take,
  Ensures-mono, take, fault, drop, Result, ℕ, refl, sym, ap, subst, ◌∙◌, ◌+◌, ◌-◌, ◌≤◌, ◌≡◌, ◌⊎◌,
  List, ok, no_fuel, length, Ensures, holds, failed, Ensures-if, arith,
}
use rabbitstreamer.ReceiveBuffer.{
  slice, error_success, max_socket_buffer, Connection, ReceiveBuffer, SocketRead, bytes, error,
  read_result, set_buffer, splice, make_room, fill_loop, fill_buffer,
}
use rabbitstreamer.MessageReader.{copy_bytes, get_as_type}
use rabbitstreamer.ReceiveBuffer.Slices.{length-slice, take_more}
use rabbitstreamer.Streamer.Bytes.{le, from_le-le_4}
use rabbitstreamer.ReceiveBuffer.Room.{IsValid, unused, enlarged}
use rabbitstreamer.ReceiveBuffer.Fill.{fill_buffer_lem}
use rabbitstreamer.ReceiveBuffer.Supply.{Delivers, fill_buffer_succeeds}

-- The pointer has not moved on, and the buffer is at least as large.
abbrev pub NotOn : {W : Type 0} → ReceiveBuffer → ℕ × ReceiveBuffer × W → Type 0
NotOn b r = (r.1.curr_ptr ≤ b.curr_ptr) × (b.buffer_size ≤ r.1.buffer_size)

module _ {W : Type 0} (io : Connection W) where
  fill_loop-NotOn :
      (fuel size free_space : ℕ) (b : ReceiveBuffer) (w : W)
      → Ensures (NotOn b) (fill_loop io fuel size free_space b w)
  unfolding fill_loop
  fill_loop-NotOn zero size free_space b w =
      Ensures-if (NotOn b) _ _ _ (holds _ (omega arith, omega arith)) (failed no_fuel)
  fill_loop-NotOn (suc fuel) size free_space b w =
      by_read (read_result (io.st_read w free_space).0) refl (λ bs.
        fill_loop-NotOn fuel size (free_space - length bs)
          (record b { buffer = splice b.end_ptr bs b.buffer; end_ptr = b.end_ptr + length bs })
          (io.st_read w free_space).1)
    where
      by_read :
          (r : SocketRead)
          → read_result (io.st_read w free_space).0 ≡ r
          → ((bs : List ℕ)
              → Ensures (NotOn b) (
                  fill_loop io fuel size
                    (free_space - length bs)
                    (record b {
                      buffer = splice b.end_ptr bs b.buffer;
                      end_ptr = b.end_ptr + length bs;
                    })
                    (io.st_read w free_space).1))
          → Ensures (NotOn b) (fill_loop io (suc fuel) size free_space b w)
      by_read (error code) e ih = rw e (
          Ensures-if (NotOn b) _ _ _ (holds _ (omega arith, omega arith))
            (holds _ (omega arith, omega arith)))
      by_read (bytes bs) e ih =
          rw e (Ensures-if (NotOn b) _ _ _ (holds _ (omega arith, omega arith)) (ih bs))

  pub make_room-NotOn :
      (size : ℕ) (b b' : ReceiveBuffer) (free_space : ℕ)
      → make_room size b ≡ ok (free_space, b')
      → (b'.curr_ptr ≤ b.curr_ptr) × (b'.buffer_size ≡ b.buffer_size)
  unfolding make_room
  make_room-NotOn size b b' free_space e = ground (arith, e)

  enlarged-NotOn :
      (fresh : ℕ → List ℕ) (size : ℕ) (b : ReceiveBuffer)
      → ((enlarged fresh size b).curr_ptr ≡ b.curr_ptr)
        × (b.buffer_size ≤ (enlarged fresh size b).buffer_size)
  unfolding set_buffer
  enlarged-NotOn fresh size b = ground arith

  filled-NotOn :
      (fresh : ℕ → List ℕ) (size : ℕ) (b : ReceiveBuffer) (w : W) (r : Result (ℕ × ReceiveBuffer))
      → make_room size (enlarged fresh size b) ≡ r
      → Ensures (NotOn b) (elim r [
        | ok (free_space, b') ↦ fill_loop io size size free_space b' w
        | fault e ↦ fault e
      ])
  filled-NotOn fresh size b w (ok (free_space, b')) e =
      let (back, same) = make_room-NotOn size (enlarged fresh size b) b' free_space e in
      let (at, larger) = enlarged-NotOn fresh size b in
      Ensures-mono (NotOn b') (NotOn b) (fill_loop io size size free_space b' w)
        (λ r h. (omega (arith, h.0), omega (arith, h.1)))
        (fill_loop-NotOn size size free_space b' w)
  filled-NotOn fresh size b w (fault x) e = failed x

  pub fill_buffer-NotOn :
      (fresh : ℕ → List ℕ) (size : ℕ) (b : ReceiveBuffer) (w : W)
      → Ensures (NotOn b) (fill_buffer io fresh size b w)
  unfolding fill_buffer
  fill_buffer-NotOn fresh size b w =
      Ensures-if (NotOn b) _ _ _ (holds (error_success, b, w) (omega arith, omega arith))
        (filled-NotOn fresh size b w (make_room size (enlarged fresh size b)) refl)

module _ {W : Type 0} (io : Connection W) (fresh : ℕ → List ℕ)
    (sized : (n : ℕ) → length (fresh n) ≡ n) (delivers : Delivers io) where
  -- What `fill_buffer` leaves where it succeeds: the same bytes, of which enough are unused.
  pub record Ready (size : ℕ) (b : ReceiveBuffer) (w : W) : Type 0 where
    pub buffer : ReceiveBuffer
    pub conn : W
    pub filled : fill_buffer io fresh size b w ≡ ok (error_success, buffer, conn)
    pub valid : IsValid buffer
    pub enough : buffer.curr_ptr + size ≤ buffer.end_ptr
    pub same : unused buffer ++ io.pending conn ≡ unused b ++ io.pending w

  pub fill_buffer-Ready :
      (size : ℕ) (b : ReceiveBuffer) (w : W)
      → IsValid b
      → size ≤ max_socket_buffer
      → (b.curr_ptr < b.end_ptr) ⊎ (b.end_ptr + size ≤ b.buffer_size)
      → b.curr_ptr + size ≤ b.end_ptr + length (io.pending w)
      → Ready size b w
  fill_buffer-Ready size b w v small room there =
      let (b', w', e, g) = fill_buffer_succeeds io fresh size b w delivers v small room there in
      let (code, b'', w'', e', v', same, h) = fill_buffer_lem io fresh size b w sized v in
      record {
        buffer = b';
        conn = w';
        filled = e;
        valid = subst IsValid (cc (e, e')) v';
        enough = g;
        same =
            let buf : b'' ≡ b' = cc (e, e') in
            let con : w'' ≡ w' = cc (e, e') in
            ap (λ x. unused x ++ io.pending w') (sym buf)
            ∙ ap (λ x. unused b'' ++ io.pending x) (sym con)
            ∙ same;
      }

-- The bytes that are taken from a buffer.
unused-take :
    (k : ℕ) (b : ReceiveBuffer)
    → b.curr_ptr + k ≤ b.end_ptr
    → take k (drop b.curr_ptr b.buffer) ≡ take k (unused b)
unfolding slice
unused-take k b h =
    sym (take-take k (b.end_ptr - b.curr_ptr) (drop b.curr_ptr b.buffer) (omega arith))

unused-drop :
    (k : ℕ) (b : ReceiveBuffer)
    → b.curr_ptr + k ≤ b.end_ptr
    → unused (record b { curr_ptr = b.curr_ptr + k }) ≡ drop k (unused b)
unfolding slice
unused-drop k b h =
    let n = b.end_ptr - (b.curr_ptr + k) in
    let all : b.end_ptr - b.curr_ptr ≡ k + n = omega arith in
    rw all (
      sym
        (drop-take k n (drop b.curr_ptr b.buffer) ∙ ap (take n) (drop-drop k b.curr_ptr b.buffer)))

pub length-unused : (b : ReceiveBuffer) → IsValid b → length (unused b) ≡ b.end_ptr - b.curr_ptr
length-unused b v =
    let inside : b.end_ptr ≤ length b.buffer = omega (arith, v.inside, v.allocated) in
    length-slice b.curr_ptr b.end_ptr b.buffer inside

-- The first bytes are read, and the rest is left.
module _ (k : ℕ) (head tail more : List ℕ) (b : ReceiveBuffer) (v : IsValid b)
    (is : length head ≡ k) (enough : b.curr_ptr + k ≤ b.end_ptr)
    (same : unused b ++ more ≡ head ++ tail) where
  there : k ≤ length (unused b)
  there = omega (arith, length-unused b v, v.ordered)

  pub first_bytes : take k (drop b.curr_ptr b.buffer) ≡ head
  first_bytes =
      unused-take k b enough
      ∙ sym (take_more k (unused b) more there)
      ∙ ap (take k) same
      ∙ rw (← is) (take_append head tail)

  pub last_bytes : unused (record b { curr_ptr = b.curr_ptr + k }) ++ more ≡ tail
  last_bytes =
      ap (λ l. l ++ more) (unused-drop k b enough)
      ∙ sym (drop_more k (unused b) more there)
      ∙ ap (drop k) same
      ∙ rw (← is) (drop_append head tail)

  pub still-IsValid : IsValid (record b { curr_ptr = b.curr_ptr + k })
  still-IsValid = record { allocated = v.allocated; ordered = enough; inside = v.inside }

pub get_as_type_lem :
    (n : ℕ) (mem : List ℕ)
    → take 4 mem ≡ le 4 n
    → 4 ≤ length mem
    → n < 2 ^ 32
    → get_as_type 4 mem ≡ ok (n, drop 4 mem)
unfolding get_as_type copy_bytes
get_as_type_lem n mem e h k = ground (arith, e, from_le-le_4 n k)
