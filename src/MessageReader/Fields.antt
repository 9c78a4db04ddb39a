-- ===== src/MessageReader/Fields.antt =====
-- What `memcpy` and `get_as_type` of protocol/sp/sp_cs_connector.h read from a message.
use rabbitstreamer.Prelude.{
  ℕ, ◌++◌, ◌≤◌, ◌<◌, ◌≡◌, ◌^◌, List, ok, length, length-append, take, drop, take_append,
  drop_append, arith,
}
use rabbitstreamer.Streamer.Bytes.{le, from_le, length-le, from_le-le_4, from_le-le_1}
use rabbitstreamer.MessageReader.{copy_bytes, get_as_type}

pub copy_bytes-append :
    (n : ℕ) (bs more : List ℕ) → length bs ≡ n → copy_bytes n (bs ++ more) ≡ ok (bs, more)
unfolding copy_bytes
copy_bytes-append n bs more is =
    rw (← is) (ground (arith, take_append bs more, drop_append bs more, length-append bs more))

pub get_as_type-le_4 :
    (v : ℕ) (more : List ℕ) → v < 2 ^ 32 → get_as_type 4 (le 4 v ++ more) ≡ ok (v, more)
unfolding get_as_type
get_as_type-le_4 v more h =
    ground (arith, copy_bytes-append 4 (le 4 v) more (length-le 4 v), from_le-le_4 v h)

pub get_as_type-le_1 :
    (v : ℕ) (more : List ℕ) → v < 2 ^ 8 → get_as_type 1 (le 1 v ++ more) ≡ ok (v, more)
unfolding get_as_type
get_as_type-le_1 v more h =
    ground (arith, copy_bytes-append 1 (le 1 v) more (length-le 1 v), from_le-le_1 v h)

pub get_as_type_some :
    (n : ℕ) (mem : List ℕ)
    → n ≤ length mem
    → get_as_type n mem ≡ ok (from_le (take n mem), drop n mem)
unfolding get_as_type copy_bytes
get_as_type_some n mem h = ground arith
