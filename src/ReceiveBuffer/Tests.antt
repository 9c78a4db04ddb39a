-- ===== src/ReceiveBuffer/Tests.antt =====
-- core/buffer.cpp over a connection that delivers the bytes of a list.
use rabbitstreamer.Prelude.{ℕ, ◌≡◌, ◌≢◌, ◌⊎◌, inl, ◌+◌, ◌≤◌, refl, List, [], ◌∷◌, ◌++◌, ok, arith}
use rabbitstreamer.ReceiveBuffer.Stall.{fill_buffer_stalls}
use rabbitstreamer.ReceiveBuffer.{error_success, ReceiveBuffer, fill_buffer}
use rabbitstreamer.ReceiveBuffer.Room.{IsValid, unused}
use rabbitstreamer.ReceiveBuffer.Fill.{fill_buffer_lem}
use rabbitstreamer.ReceiveBuffer.Supply.{fill_buffer_succeeds}
use rabbitstreamer.ReceiveBuffer.Scripted.{scripted, scripted-Delivers, zeros, length-zeros}

-- Two of four bytes are unused.
abbrev half : ReceiveBuffer
half = record { buffer = 1 ∷ 2 ∷ 3 ∷ 4 ∷ []; buffer_size = 4; curr_ptr = 2; end_ptr = 4 }

half-IsValid : IsValid half
half-IsValid = record { allocated = refl; ordered = omega arith; inside = omega arith }

fill_buffer_lem_example :
    (code : ℕ) × (b' : ReceiveBuffer) × (w' : List ℕ) × (fill_buffer scripted zeros 3 half
        (5 ∷ 6 ∷ [])
      ≡ ok (code, b', w'))
    × IsValid b'
    × (unused b' ++ w' ≡ unused half ++ (5 ∷ 6 ∷ []))
    × ((code ≢ error_success) ⊎ (b'.curr_ptr + 3 ≤ b'.end_ptr))
fill_buffer_lem_example =
    fill_buffer_lem scripted zeros 3 half (5 ∷ 6 ∷ []) length-zeros half-IsValid

fill_buffer_succeeds_example :
    (b' : ReceiveBuffer) × (w' : List ℕ) × (fill_buffer scripted zeros 3 half (5 ∷ 6 ∷ [])
      ≡ ok (error_success, b', w'))
    × (b'.curr_ptr + 3 ≤ b'.end_ptr)
fill_buffer_succeeds_example =
    fill_buffer_succeeds scripted zeros 3 half (5 ∷ 6 ∷ []) scripted-Delivers half-IsValid
      (omega arith) (inl (omega arith)) (omega arith)

-- All four bytes are used.
abbrev used : ReceiveBuffer
used = record { buffer = 1 ∷ 2 ∷ 3 ∷ 4 ∷ []; buffer_size = 4; curr_ptr = 4; end_ptr = 4 }

used-IsValid : IsValid used
used-IsValid = record { allocated = refl; ordered = omega arith; inside = omega arith }

fill_buffer_stalls_example :
    (code : ℕ) × (b' : ReceiveBuffer) × (w' : List ℕ) × (fill_buffer scripted zeros 3 used
        (5 ∷ 6 ∷ 7 ∷ [])
      ≡ ok (code, b', w'))
    × (code ≢ error_success)
fill_buffer_stalls_example =
    fill_buffer_stalls scripted zeros 3 used (5 ∷ 6 ∷ 7 ∷ []) used-IsValid refl (omega arith)
      (omega arith)
