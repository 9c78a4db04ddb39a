-- ===== src/Message/Np2TsLogout.antt =====
-- core/message.cpp and core/message.h, `Np2TsLogout`: a peer leaves.
use rabbitstreamer.Prelude.{ℕ, ◌+◌, ◌≡◌, List, ◌++◌, [], length, length-append, arith}
use rabbitstreamer.CoreStruct.{uuid_length}
use rabbitstreamer.Streamer.{
  Writer, Reader, ◌>>◌, ◌>>=◌, finish, return, write_char, write_nbytes, read_nbytes,
}
use rabbitstreamer.Streamer.Bytes.{le, length-le}
use rabbitstreamer.Streamer.Laws.{
  Writes, Reads, then-Writes, finish-Writes, write_char-Writes, write_nbytes-Writes, bind-Reads,
  return-Reads, read_nbytes-Reads,
}
use rabbitstreamer.Message.{Message, header_size}
use rabbitstreamer.Message.Framing.{RoundTrips, RoundTrips-pack}

pub record Np2TsLogout : Type 0 where
  pub uuid : List ℕ

-- `NP2TS_LOGOUT`
abbrev pub tag : ℕ
tag = 0x35

unfoldable pub parse : Reader Np2TsLogout
parse = do uuid ← read_nbytes uuid_length; return (record { uuid = uuid })

unfoldable pub pack_submsg : Np2TsLogout → Writer
pack_submsg m = do write_char tag; write_nbytes m.uuid; finish

unfoldable pub reserve_pack_size : Np2TsLogout → ℕ
reserve_pack_size m = header_size + uuid_length

abbrev pub message : Message Np2TsLogout
message = record { parse = parse; pack_submsg = pack_submsg; reserve_pack_size = reserve_pack_size }

-- The fields are in the range of their C types, and the arrays are as long as their count says.
pub record IsValid (m : Np2TsLogout) : Type 0 where
  pub uuid : length m.uuid ≡ uuid_length

body : Np2TsLogout → List ℕ
body m = m.uuid ++ []

pack_submsg-Writes : (m : Np2TsLogout) → Writes (pack_submsg m) (le 1 tag ++ body m)
unfolding pack_submsg body
pack_submsg-Writes m =
    then-Writes (write_char-Writes tag) (then-Writes (write_nbytes-Writes m.uuid) (finish-Writes))

parse-Reads : (m : Np2TsLogout) → IsValid m → Reads parse (body m) m
unfolding parse body
parse-Reads m v = bind-Reads _ (read_nbytes-Reads uuid_length m.uuid v.uuid) (return-Reads m)

reserve-body : (m : Np2TsLogout) → IsValid m → reserve_pack_size m ≡ header_size + length (body m)
unfolding reserve_pack_size body
reserve-body m v = omega (arith, length-append {0}, length-le)

-- A logout with fields in range comes back, as the same message under its own type, from the
-- packet that `pack` makes of it in any memory; the packet has exactly the reserved size.
pub Np2TsLogout-RoundTrips :
    (memory : ℕ → ℕ) (m : Np2TsLogout) → IsValid m → RoundTrips message memory tag m
Np2TsLogout-RoundTrips memory m v =
    RoundTrips-pack message memory m tag (body m) (pack_submsg-Writes m) (parse-Reads m v)
      (reserve-body m v) (unfold reserve_pack_size in omega arith) (omega arith)
