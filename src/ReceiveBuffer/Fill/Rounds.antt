-- ===== src/ReceiveBuffer/Fill/Rounds.antt =====
-- The loop of `fill_buffer` in core/buffer.cpp.
use rabbitstreamer.Prelude.{
  true, false, ◌≢◌, ℕ, zero, suc, ◌+◌, ◌-◌, ◌≤◌, ◌<◌, ◌≡◌, refl, sym, ap, ◌∙◌, List, [], ◌∷◌, ◌++◌,
  append_assoc, length, leb, Result, ok, fault, dec_le, arith,
}
use rabbitstreamer.ReceiveBuffer.{
  error_socket_read, error_socket_timeout, error_success, StRead, received, timed_out, failed,
  Connection, bytes, error, read_result, ReceiveBuffer, splice, fill_loop,
}
use rabbitstreamer.ReceiveBuffer.Room.{IsValid, unused}
use rabbitstreamer.ReceiveBuffer.Slices.{length-splice, slice-splice}

-- What `RsSocket::read` makes of a result of `st_read`.
pub data ReadCases (r : StRead) : Type 0 where
  data_read :
      (bs : List ℕ) → r ≡ received bs → 0 < length bs → read_result r ≡ bytes bs → ReadCases r
  no_data :
      (code : ℕ) → r ≡ received [] → read_result r ≡ error code → code ≢ error_success → ReadCases r
  not_in_time :
      (code : ℕ) → r ≡ timed_out → read_result r ≡ error code → code ≢ error_success → ReadCases r
  broken : (code : ℕ) → r ≡ failed → read_result r ≡ error code → code ≢ error_success → ReadCases r

pub read_cases : (r : StRead) → ReadCases r
unfolding read_result
read_cases timed_out = not_in_time error_socket_timeout refl refl (omega arith)
read_cases failed = broken error_socket_read refl refl (omega arith)
read_cases (received []) = no_data error_socket_read refl refl (omega arith)
read_cases (received (b ∷ bs)) = data_read (b ∷ bs) refl (omega arith) refl

module _ {W : Type 0} (io : Connection W) where
  -- What a call leaves that was asked for `size` bytes.
  abbrev pub Filled : ℕ → ReceiveBuffer → W → Result (ℕ × ReceiveBuffer × W) → Type 0
  Filled size b w (ok (code, b', w')) =
      IsValid b'
      × (unused b' ++ io.pending w' ≡ unused b ++ io.pending w)
      × (code ≡ error_success → b'.curr_ptr + size ≤ b'.end_ptr)
  Filled size b w (fault e) = ⊥

  -- The buffer after a read.
  abbrev pub appended : List ℕ → ReceiveBuffer → ReceiveBuffer
  appended bs b = record b {
    buffer = splice b.end_ptr bs b.buffer;
    end_ptr = b.end_ptr + length bs;
  }

  appended-IsValid :
      (bs : List ℕ) (b : ReceiveBuffer)
      → IsValid b
      → b.end_ptr + length bs ≤ b.buffer_size
      → IsValid (appended bs b)
  appended-IsValid bs b v h =
      ground (arith, v.allocated, v.ordered, v.inside, length-splice b.end_ptr bs b.buffer)

  unused-appended :
      (bs : List ℕ) (b : ReceiveBuffer) → IsValid b → unused (appended bs b) ≡ unused b ++ bs
  unused-appended bs b v =
      slice-splice b.curr_ptr b.end_ptr bs b.buffer v.ordered (omega (arith, v.inside, v.allocated))

  -- A round of the loop that reads `bs`.
  Filled-appended :
      (size : ℕ) (bs : List ℕ) (b : ReceiveBuffer) (w w' : W) (r : Result (ℕ × ReceiveBuffer × W))
      → IsValid b
      → io.pending w ≡ bs ++ io.pending w'
      → Filled size (appended bs b) w' r
      → Filled size b w r
  Filled-appended size bs b w w' (ok (code, b'', w'')) v e f = (
    f.0,
    f.1
        ∙ ap (λ l. l ++ io.pending w') (unused-appended bs b v)
        ∙ append_assoc (unused b) bs (io.pending w')
        ∙ ap (λ l. unused b ++ l) (sym e),
    f.2,
  )
  Filled-appended size bs b w w' (fault e) v p f = f

  pub loop_enough :
      (fuel size free_space : ℕ) (b : ReceiveBuffer) (w : W)
      → b.curr_ptr + size ≤ b.end_ptr
      → fill_loop io fuel size free_space b w ≡ ok (error_success, b, w)
  unfolding fill_loop
  loop_enough zero size free_space b w h = ground arith
  loop_enough (suc fuel) size free_space b w h =
      let fits : leb (b.curr_ptr + size) b.end_ptr ≡ true = ground arith in rw fits

  module _ (fuel size free_space : ℕ) (b : ReceiveBuffer) (w : W) where
    pub loop_error :
        (code : ℕ)
        → b.end_ptr < b.curr_ptr + size
        → read_result (io.st_read w free_space).0 ≡ error code
        → fill_loop io (suc fuel) size free_space b w ≡ ok (code, b, (io.st_read w free_space).1)
    unfolding fill_loop
    loop_error code h e = ground arith

    pub loop_bytes :
        (bs : List ℕ)
        → b.end_ptr < b.curr_ptr + size
        → read_result (io.st_read w free_space).0 ≡ bytes bs
        → fill_loop io (suc fuel) size free_space b w
          ≡ fill_loop io fuel size
              (free_space - length bs)
              (appended bs b)
              (io.st_read w free_space).1
    unfolding fill_loop
    loop_bytes bs h e =
        let short : leb (b.curr_ptr + size) b.end_ptr ≡ false = ground arith in rw (short, e)

  -- A read that fails.
  Filled-error :
      (size code : ℕ) (b : ReceiveBuffer) (w w' : W)
      → IsValid b
      → io.pending w ≡ io.pending w'
      → code ≢ error_success
      → Filled size b w (ok (code, b, w'))
  Filled-error size code b w w' v e c = (v, ap (λ l. unused b ++ l) (sym e), λ z. absurd (c z))

  pub fill_loop-Filled :
      (fuel size free_space : ℕ) (b : ReceiveBuffer) (w : W)
      → IsValid b
      → free_space + b.end_ptr ≤ b.buffer_size
      → b.curr_ptr + size ≤ b.end_ptr + fuel
      → Filled size b w (fill_loop io fuel size free_space b w)
  fill_loop-Filled zero size free_space b w v room enough =
      rw (loop_enough zero size free_space b w (omega arith)) (v, refl, λ z. omega arith)
  fill_loop-Filled (suc fuel) size free_space b w v room enough =
      elim (dec_le (b.curr_ptr + size) b.end_ptr) [
        | yes h ↦ rw (loop_enough (suc fuel) size free_space b w h) (v, refl, λ z. h)
        | no h ↦ elim (read_cases (io.st_read w free_space).0) [
          | data_read bs e pos r ↦
              let out : io.st_read w free_space ≡ (received bs, (io.st_read w free_space).1) =
                ground arith in
              let le = io.no_more w free_space bs (io.st_read w free_space).1 out in
              rw (loop_bytes fuel size free_space b w bs (omega arith) r) (
                Filled-appended size bs b w (io.st_read w free_space).1 _ v
                  (io.in_order w free_space bs (io.st_read w free_space).1 out)
                  (fill_loop-Filled fuel size (free_space - length bs) (appended bs b)
                    (io.st_read w free_space).1 (appended-IsValid bs b v (omega arith))
                    (omega arith) (omega arith)))
          | no_data code e r c ↦ rw (loop_error fuel size free_space b w code (omega arith) r) (
              Filled-error size code b w (io.st_read w free_space).1 v
                (io.in_order w free_space [] (io.st_read w free_space).1 (ground arith)) c)
          | not_in_time code e r c ↦ rw (loop_error fuel size free_space b w code (omega arith) r) (
              Filled-error size code b w (io.st_read w free_space).1 v
                (io.kept_timeout w free_space (io.st_read w free_space).1 (ground arith)) c)
          | broken code e r c ↦ rw (loop_error fuel size free_space b w code (omega arith) r) (
              Filled-error size code b w (io.st_read w free_space).1 v
                (io.kept_failure w free_space (io.st_read w free_space).1 (ground arith)) c)
        ]
      ]
