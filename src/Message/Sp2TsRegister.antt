-- ===== src/Message/Sp2TsRegister.antt =====
-- core/message.cpp and core/message.h, `Sp2TsRegister`: a super peer registers with the tracker.
use rabbitstreamer.Prelude.{ℕ, ◌+◌, ◌<◌, ◌^◌, ◌≡◌, List, ◌++◌, [], length, length-append, arith}
use rabbitstreamer.CoreStruct.{md5_len}
use rabbitstreamer.Streamer.{
  Writer, Reader, ◌>>◌, ◌>>=◌, finish, return, write_char, write_int, write_short, write_nbytes,
  read_int, read_short, read_nbytes,
}
use rabbitstreamer.Streamer.Bytes.{le, length-le, from_le-le_2, from_le-le_4}
use rabbitstreamer.Streamer.Laws.{
  Writes, Reads, then-Writes, finish-Writes, write_char-Writes, write_int-Writes,
  write_short-Writes, write_nbytes-Writes, bind-Reads, return-Reads, get_as_type-Reads,
  read_nbytes-Reads,
}
use rabbitstreamer.Message.{Message, header_size}
use rabbitstreamer.Message.Framing.{RoundTrips, RoundTrips-pack}

pub record Sp2TsRegister : Type 0 where
  pub user_id : ℕ
  pub password : List ℕ
  pub service_port : ℕ

-- `SP2TS_REGISTER`
abbrev pub tag : ℕ
tag = 0x20

unfoldable pub parse : Reader Sp2TsRegister
parse = do
  user_id ← read_int
  password ← read_nbytes md5_len
  service_port ← read_short
  return (record { user_id = user_id; password = password; service_port = service_port })

unfoldable pub pack_submsg : Sp2TsRegister → Writer
pack_submsg m = do
  write_char tag
  write_int m.user_id
  write_nbytes m.password
  write_short m.service_port
  finish

unfoldable pub reserve_pack_size : Sp2TsRegister → ℕ
reserve_pack_size m = header_size + (4 + md5_len + 2)

abbrev pub message : Message Sp2TsRegister
message = record { parse = parse; pack_submsg = pack_submsg; reserve_pack_size = reserve_pack_size }

-- The fields are in the range of their C types, and the arrays are as long as their count says.
pub record IsValid (m : Sp2TsRegister) : Type 0 where
  pub user_id : m.user_id < 2 ^ 32
  pub password : length m.password ≡ md5_len
  pub service_port : m.service_port < 2 ^ 16

body : Sp2TsRegister → List ℕ
body m = le 4 m.user_id ++ (m.password ++ (le 2 m.service_port ++ []))

pack_submsg-Writes : (m : Sp2TsRegister) → Writes (pack_submsg m) (le 1 tag ++ body m)
unfolding pack_submsg body
pack_submsg-Writes m = then-Writes (write_char-Writes tag) (
    then-Writes (write_int-Writes m.user_id) (
      then-Writes (write_nbytes-Writes m.password)
        (then-Writes (write_short-Writes m.service_port) (finish-Writes))))

parse-Reads : (m : Sp2TsRegister) → IsValid m → Reads parse (body m) m
unfolding parse body
parse-Reads m v = bind-Reads _ (get_as_type-Reads 4 m.user_id (from_le-le_4 m.user_id v.user_id)) (
    bind-Reads _ (read_nbytes-Reads md5_len m.password v.password) (
      bind-Reads _ (get_as_type-Reads 2 m.service_port (from_le-le_2 m.service_port v.service_port))
        (return-Reads m)))

reserve-body : (m : Sp2TsRegister) → IsValid m → reserve_pack_size m ≡ header_size + length (body m)
unfolding reserve_pack_size body
reserve-body m v = omega (arith, length-append {0}, length-le)

-- A registration with fields in range comes back, as the same message under its own type, from the
-- packet that `pack` makes of it in any memory; the packet has exactly the reserved size.
pub Sp2TsRegister-RoundTrips :
    (memory : ℕ → ℕ) (m : Sp2TsRegister) → IsValid m → RoundTrips message memory tag m
Sp2TsRegister-RoundTrips memory m v =
    RoundTrips-pack message memory m tag (body m) (pack_submsg-Writes m) (parse-Reads m v)
      (reserve-body m v) (unfold reserve_pack_size in omega arith) (omega arith)
