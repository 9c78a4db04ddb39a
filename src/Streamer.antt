-- ===== src/Streamer.antt =====
-- core/streamer.h and core/streamer.cpp (`RsStreamer`): a cursor over a buffer, from which messages
-- are read and into which they are written. Numbers lie in memory lowest byte first.
pub mod Bytes
pub mod Laws
pub mod Faults
use Bytes.{le, from_le}
use rabbitstreamer.Prelude.{
  ℕ, zero, suc, ◌≤◌, List, [], ◌∷◌, ◌++◌, length, take, drop, leb, if◌then◌else◌, Result, ok, fault,
  assertion, out_of_bounds, Fault,
}

-- `before` runs from `base` to `curr`, `after` from `curr` to `base + size`.
pub record Streamer : Type 0 where
  pub before : List ℕ
  pub after : List ℕ

-- `initialize(buf, nb)`, for the list of the `nb` bytes at `buf`
unfoldable pub initialize : List ℕ → Streamer
initialize buf = record { before = []; after = buf }

-- `get_buffer`, as the `get_size` bytes that start there
unfoldable pub get_buffer : Streamer → List ℕ
get_buffer st = st.before ++ st.after

-- What a call that writes does, and a call that reads.
abbrev pub Writer : Type 0
Writer = Streamer → Result Streamer

abbrev pub Reader : Type 0 → Type 0
Reader A = Streamer → Result (A × Streamer)

infixl 5 ◌>>◌ ◌>>=◌
abbrev pub ◌>>◌ : Writer → Writer → Writer
◌>>◌ v w st = elim (v st) [ ok st' ↦ w st' | fault e ↦ fault e ]

abbrev pub ◌>>=◌ : {A B : Type 0} → Reader A → (A → Reader B) → Reader B
◌>>=◌ r f st = elim (r st) [ ok (a, st') ↦ f a st' | fault e ↦ fault e ]

-- `return ret` at the end of a function that writes, and of one that reads.
abbrev pub finish : Writer
finish st = ok st

abbrev pub return : {A : Type 0} → A → Reader A
return a st = ok (a, st)

-- The cursor moves over `bs`, which replaces what stood there.
unfoldable pub overwrite : List ℕ → Streamer → Streamer
overwrite bs st = record { before = st.before ++ bs; after = drop (length bs) st.after }

-- A store of `bs` at the cursor. `e` is what becomes of one that would pass the end.
unfoldable pub store : Fault → List ℕ → Writer
store e bs st = if leb (length bs) (length st.after) then ok (overwrite bs st) else fault e

-- `set_as_type`, which asserts that the value fits
unfoldable pub write_short : ℕ → Writer
write_short v = store assertion (le 2 v)

unfoldable pub write_int : ℕ → Writer
write_int v = store assertion (le 4 v)

unfoldable pub write_long : ℕ → Writer
write_long v = store assertion (le 8 v)

-- These two do not check: past the end they write outside of the buffer.
unfoldable pub write_char : ℕ → Writer
write_char v = store out_of_bounds (le 1 v)

unfoldable pub write_nbytes : List ℕ → Writer
write_nbytes bs = store out_of_bounds bs

-- `read_nbytes`, for the bytes that its callers copy from the result
unfoldable pub read_nbytes : ℕ → Reader (List ℕ)
read_nbytes n st =
    if leb n (length st.after)
    then ok
        (take n st.after, record { before = st.before ++ take n st.after; after = drop n st.after })
    else fault assertion

-- `get_as_type`, for an unsigned type of `n` bytes
unfoldable pub get_as_type : ℕ → Reader ℕ
get_as_type n = read_nbytes n >>= λ bs. return (from_le bs)

abbrev pub read_char : Reader ℕ
read_char = get_as_type 1

abbrev pub read_short : Reader ℕ
read_short = get_as_type 2

abbrev pub read_int : Reader ℕ
read_int = get_as_type 4

abbrev pub read_long : Reader ℕ
read_long = get_as_type 8

unfoldable pub skip : ℕ → Writer
skip n st =
    if leb n (length st.after)
    then ok (record { before = st.before ++ take n st.after; after = drop n st.after })
    else fault assertion

-- `for (int i = 0; i < n; i++) write(array[i]);`
unfoldable pub write_each : {A : Type 0} → (A → Writer) → ℕ → List A → Writer
write_each write zero xs = finish
write_each write (suc n) [] = λ st. fault out_of_bounds
write_each write (suc n) (x ∷ xs) = write x >> write_each write n xs

-- `for (int i = 0; i < n; i++) array[i] = read();`
unfoldable pub read_each : {A : Type 0} → Reader A → ℕ → Reader (List A)
read_each read zero = return []
read_each read (suc n) = read >>= λ x. read_each read n >>= λ xs. return (x ∷ xs)
