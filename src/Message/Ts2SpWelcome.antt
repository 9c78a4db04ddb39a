-- ===== src/Message/Ts2SpWelcome.antt =====
-- core/message.cpp and core/message.h, `Ts2SpWelcome`: the tracker hands a super peer its UUID.
use rabbitstreamer.Prelude.{ℕ, ◌+◌, ◌≡◌, List, ◌++◌, [], length, length-append, arith}
use rabbitstreamer.CoreStruct.{uuid_length}
use rabbitstreamer.Streamer.{
  Writer, Reader, ◌>>◌, ◌>>=◌, finish, return, write_char, write_nbytes, read_nbytes,
}
use rabbitstreamer.Streamer.Bytes.{le, length-le}
use rabbitstreamer.Streamer.Laws.{
  Writes, Reads, then-Writes, finish-Writes, write_char-Writes, write_nbytes-Writes, bind-Reads,
  return-Reads, read_nbytes-Reads,
}
use rabbitstreamer.Message.{Message, header_size}
use rabbitstreamer.Message.Framing.{RoundTrips, RoundTrips-pack}

pub record Ts2SpWelcome : Type 0 where
  pub sp_uuid : List ℕ

-- `TS2SP_WELCOME`
abbrev pub tag : ℕ
tag = 0x25

unfoldable pub parse : Reader Ts2SpWelcome
parse = do sp_uuid ← read_nbytes uuid_length; return (record { sp_uuid = sp_uuid })

unfoldable pub pack_submsg : Ts2SpWelcome → Writer
pack_submsg m = do write_char tag; write_nbytes m.sp_uuid; finish

unfoldable pub reserve_pack_size : Ts2SpWelcome → ℕ
reserve_pack_size m = header_size + uuid_length

abbrev pub message : Message Ts2SpWelcome
message = record { parse = parse; pack_submsg = pack_submsg; reserve_pack_size = reserve_pack_size }

-- The fields are in the range of their C types, and the arrays are as long as their count says.
pub record IsValid (m : Ts2SpWelcome) : Type 0 where
  pub sp_uuid : length m.sp_uuid ≡ uuid_length

body : Ts2SpWelcome → List ℕ
body m = m.sp_uuid ++ []

pack_submsg-Writes : (m : Ts2SpWelcome) → Writes (pack_submsg m) (le 1 tag ++ body m)
unfolding pack_submsg body
pack_submsg-Writes m =
    then-Writes (write_char-Writes tag)
      (then-Writes (write_nbytes-Writes m.sp_uuid) (finish-Writes))

parse-Reads : (m : Ts2SpWelcome) → IsValid m → Reads parse (body m) m
unfolding parse body
parse-Reads m v = bind-Reads _ (read_nbytes-Reads uuid_length m.sp_uuid v.sp_uuid) (return-Reads m)

reserve-body : (m : Ts2SpWelcome) → IsValid m → reserve_pack_size m ≡ header_size + length (body m)
unfolding reserve_pack_size body
reserve-body m v = omega (arith, length-append {0}, length-le)

-- A welcome with fields in range comes back, as the same message under its own type, from the
-- packet that `pack` makes of it in any memory; the packet has exactly the reserved size.
pub Ts2SpWelcome-RoundTrips :
    (memory : ℕ → ℕ) (m : Ts2SpWelcome) → IsValid m → RoundTrips message memory tag m
Ts2SpWelcome-RoundTrips memory m v =
    RoundTrips-pack message memory m tag (body m) (pack_submsg-Writes m) (parse-Reads m v)
      (reserve-body m v) (unfold reserve_pack_size in omega arith) (omega arith)
