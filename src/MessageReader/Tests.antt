-- ===== src/MessageReader/Tests.antt =====
-- A message of seven bytes, as protocol/sp/sp_cs_connector.cpp finds it.
use rabbitstreamer.Prelude.{ℕ, refl, ◌≡◌, List, [], ◌∷◌, ◌++◌, arith}
use rabbitstreamer.Streamer.Bytes.{le}
use rabbitstreamer.ReceiveBuffer.{ReceiveBuffer, slice}
use rabbitstreamer.ReceiveBuffer.Room.{IsValid, unused}
use rabbitstreamer.ReceiveBuffer.Scripted.{scripted, scripted-Delivers, zeros, length-zeros}
use rabbitstreamer.MessageReader.Delivery.{Found, next_message-Found}

abbrev empty : ReceiveBuffer
empty = record { buffer = zeros 16; buffer_size = 16; curr_ptr = 0; end_ptr = 0 }

empty-IsValid : IsValid empty
empty-IsValid = record { allocated = refl; ordered = omega arith; inside = omega arith }

abbrev body : List ℕ
body = 17 ∷ 1 ∷ 2 ∷ []

abbrev incoming : List ℕ
incoming = le 4 7 ++ (body ++ (5 ∷ []))

nothing_unused : unused empty ++ incoming ≡ incoming
unfolding slice
nothing_unused = refl

next_message-Found_example : Found scripted zeros empty incoming 7 body (5 ∷ [])
next_message-Found_example =
    next_message-Found scripted zeros length-zeros scripted-Delivers empty incoming 7 body (5 ∷ [])
      empty-IsValid refl (omega arith) (omega arith) (omega arith) nothing_unused
