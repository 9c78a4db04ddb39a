-- ===== src/Message/Ts2NpResInterval.antt =====
-- core/message.cpp and core/message.h, `Ts2NpResInterval`: the tracker tells a peer the interval of its channel.
use rabbitstreamer.Prelude.{ℕ, ◌+◌, ◌≡◌, List, ◌++◌, [], length, length-append, arith}
use rabbitstreamer.CoreStruct.{block_interval, read_object, write_object, BlockIntervalFits}
use rabbitstreamer.CoreStruct.Layouts.{
  write_object-Writes, read_object-Reads, block_interval-Returns,
}
use rabbitstreamer.IntervalArray.{BlockInterval}
use rabbitstreamer.Streamer.{Writer, Reader, ◌>>◌, ◌>>=◌, finish, return, write_char}
use rabbitstreamer.Streamer.Bytes.{le, length-le}
use rabbitstreamer.Streamer.Laws.{
  Writes, Reads, then-Writes, finish-Writes, write_char-Writes, bind-Reads, return-Reads,
}
use rabbitstreamer.Message.{Message, header_size}
use rabbitstreamer.Message.Framing.{RoundTrips, RoundTrips-pack}

pub record Ts2NpResInterval : Type 0 where
  pub block_interval : BlockInterval

-- `TS2NP_RES_INTERVAL`
abbrev pub tag : ℕ
tag = 0x38

unfoldable pub parse : Reader Ts2NpResInterval
parse = do
  block_interval ← read_object block_interval
  return (record { block_interval = block_interval })

unfoldable pub pack_submsg : Ts2NpResInterval → Writer
pack_submsg m = do write_char tag; write_object block_interval m.block_interval; finish

unfoldable pub reserve_pack_size : Ts2NpResInterval → ℕ
reserve_pack_size m = header_size + 8

abbrev pub message : Message Ts2NpResInterval
message = record { parse = parse; pack_submsg = pack_submsg; reserve_pack_size = reserve_pack_size }

-- The fields are in the range of their C types, and the arrays are as long as their count says.
pub record IsValid (m : Ts2NpResInterval) : Type 0 where
  pub block_interval : BlockIntervalFits m.block_interval

body : Ts2NpResInterval → List ℕ
body m = block_interval.to_bytes m.block_interval ++ []

pack_submsg-Writes : (m : Ts2NpResInterval) → Writes (pack_submsg m) (le 1 tag ++ body m)
unfolding pack_submsg body
pack_submsg-Writes m =
    then-Writes (write_char-Writes tag)
      (then-Writes (write_object-Writes block_interval m.block_interval) (finish-Writes))

parse-Reads : (m : Ts2NpResInterval) → IsValid m → Reads parse (body m) m
unfolding parse body
parse-Reads m v =
    bind-Reads _
      (read_object-Reads block_interval m.block_interval
        (block_interval-Returns m.block_interval v.block_interval))
      (return-Reads m)

reserve-body :
    (m : Ts2NpResInterval) → IsValid m → reserve_pack_size m ≡ header_size + length (body m)
unfolding reserve_pack_size body
reserve-body m v = omega (
  arith,
  length-append {0},
  length-le,
  (block_interval-Returns m.block_interval v.block_interval).full,
)

-- An interval with fields in range comes back, as the same message under its own type, from the
-- packet that `pack` makes of it in any memory; the packet has exactly the reserved size.
pub Ts2NpResInterval-RoundTrips :
    (memory : ℕ → ℕ) (m : Ts2NpResInterval) → IsValid m → RoundTrips message memory tag m
Ts2NpResInterval-RoundTrips memory m v =
    RoundTrips-pack message memory m tag (body m) (pack_submsg-Writes m) (parse-Reads m v)
      (reserve-body m v) (unfold reserve_pack_size in omega arith) (omega arith)
