-- ===== src/Message/Ts2NpMsg.antt =====
-- core/message.cpp and core/message.h, `Ts2NpMsg`: the tracker sends a peer an error.
use rabbitstreamer.Prelude.{
  ℕ, ◌+◌, ◌<◌, ◌^◌, ◌≡◌, List, ◌++◌, [], length, length-append, append-nil, Bool, true, false, not,
  ◌==◌, arith,
}
use rabbitstreamer.Streamer.{
  Writer, Reader, ◌>>◌, ◌>>=◌, finish, return, write_char, write_short, read_char, read_short,
}
use rabbitstreamer.Streamer.Bytes.{le, length-le, from_le-le_1, from_le-le_2}
use rabbitstreamer.Streamer.Laws.{
  Writes, Reads, then-Writes, finish-Writes, write_char-Writes, write_short-Writes, bind-Reads,
  map-Reads, get_as_type-Reads,
}
use rabbitstreamer.Message.{Message, header_size}
use rabbitstreamer.Message.Framing.{RoundTrips, RoundTrips-pack}

-- A `bool` in a byte.
unfoldable pub bool_byte : Bool → ℕ
bool_byte true = 1
bool_byte false = 0

pub record Ts2NpMsg : Type 0 where
  pub err_msg_type : ℕ
  pub should_quit : Bool

-- `TS2NP_MSG`
abbrev pub tag : ℕ
tag = 0x39

unfoldable pub parse : Reader Ts2NpMsg
parse = do
  err_msg_type ← read_short
  should_quit ← read_char
  return (record { err_msg_type = err_msg_type; should_quit = not (should_quit == 0) })

unfoldable pub pack_submsg : Ts2NpMsg → Writer
pack_submsg m = do
  write_char tag
  write_short m.err_msg_type
  write_char (bool_byte m.should_quit)
  finish

unfoldable pub reserve_pack_size : Ts2NpMsg → ℕ
reserve_pack_size m = header_size + 2 + 1

abbrev pub message : Message Ts2NpMsg
message = record { parse = parse; pack_submsg = pack_submsg; reserve_pack_size = reserve_pack_size }

-- The fields are in the range of their C types, and the arrays are as long as their count says.
pub record IsValid (m : Ts2NpMsg) : Type 0 where
  pub err_msg_type : m.err_msg_type < 2 ^ 16

body : Ts2NpMsg → List ℕ
body m = le 2 m.err_msg_type ++ (le 1 (bool_byte m.should_quit) ++ [])

pack_submsg-Writes : (m : Ts2NpMsg) → Writes (pack_submsg m) (le 1 tag ++ body m)
unfolding pack_submsg body
pack_submsg-Writes m = then-Writes (write_char-Writes tag) (
    then-Writes (write_short-Writes m.err_msg_type)
      (then-Writes (write_char-Writes (bool_byte m.should_quit)) (finish-Writes)))

abbrev with_flag : ℕ → ℕ → Ts2NpMsg
with_flag e b = record { err_msg_type = e; should_quit = not (b == 0) }

flag-Reads :
    (e : ℕ) (q : Bool)
    → Reads
        (read_char >>= λ b. return (with_flag e b))
        (le 1 (bool_byte q) ++ [])
        (record { err_msg_type = e; should_quit = q })
unfolding bool_byte
flag-Reads e true =
    rw append-nil (map-Reads (with_flag e) (get_as_type-Reads 1 1 (from_le-le_1 1 (omega arith))))
flag-Reads e false =
    rw append-nil (map-Reads (with_flag e) (get_as_type-Reads 1 0 (from_le-le_1 0 (omega arith))))

parse-Reads : (m : Ts2NpMsg) → IsValid m → Reads parse (body m) m
unfolding parse body
parse-Reads m v =
    bind-Reads _ (get_as_type-Reads 2 m.err_msg_type (from_le-le_2 m.err_msg_type v.err_msg_type))
      (flag-Reads m.err_msg_type m.should_quit)

reserve-body : (m : Ts2NpMsg) → IsValid m → reserve_pack_size m ≡ header_size + length (body m)
unfolding reserve_pack_size body
reserve-body m v = omega (arith, length-append {0}, length-le)

-- An error message with fields in range comes back, as the same message under its own type, from the
-- packet that `pack` makes of it in any memory; the packet has exactly the reserved size.
pub Ts2NpMsg-RoundTrips :
    (memory : ℕ → ℕ) (m : Ts2NpMsg) → IsValid m → RoundTrips message memory tag m
Ts2NpMsg-RoundTrips memory m v =
    RoundTrips-pack message memory m tag (body m) (pack_submsg-Writes m) (parse-Reads m v)
      (reserve-body m v) (unfold reserve_pack_size in omega arith) (omega arith)
