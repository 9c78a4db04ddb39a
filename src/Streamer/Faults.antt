-- ===== src/Streamer/Faults.antt =====
-- Sequences of calls of `RsStreamer` that stop the process.
use rabbitstreamer.Prelude.{
  ℕ, zero, suc, ◌+◌, ◌<◌, ◌≡◌, refl, ◌∙◌, List, [], ◌∷◌, ◌++◌, length, length-append, length-drop,
  fault, Fault, assertion, out_of_bounds, arith,
}
use rabbitstreamer.Streamer.{Streamer, Writer, ◌>>◌, overwrite, store, write_short, write_each}
use rabbitstreamer.Streamer.Bytes.{length-le}
use rabbitstreamer.Streamer.Laws.{Writes, bytes_of, then-ok}

-- With room for `n` bytes more the call ends in the fault `e`.
pub record Fails (w : Writer) (n : ℕ) (e : Fault) : Type 0 where
  pub run : (st : Streamer) → length st.after ≡ n → w st ≡ fault e

-- What is written before takes its room.
pub then-Fails :
    {v w : Writer} {bs : List ℕ} {n : ℕ} {e : Fault}
    → Writes v bs
    → Fails w n e
    → Fails (v >> w) (length bs + n) e
then-Fails {v} {w} {bs} {n} hv hw = record {
  run = λ st h.
      let left : length (overwrite bs st).after ≡ n =
        unfold overwrite in omega (arith, length-drop (length bs) st.after) in
      then-ok v w st (overwrite bs st) (hv.run st (omega arith)) ∙ hw.run (overwrite bs st) left;
}

pub fault-Fails : {v : Writer} (w : Writer) {n : ℕ} {e : Fault} → Fails v n e → Fails (v >> w) n e
fault-Fails {v} w h = record { run = λ st k. rw (h.run st k, ◌>>◌) }

-- The assertion of `set_as_type`.
pub write_short-Fails : (v n : ℕ) → n < 2 → Fails (write_short v) n assertion
unfolding write_short store
write_short-Fails v n h = record { run = λ st k. ground (arith, length-le 2 v) }

-- A loop over more entries than the array has.
pub write_each-Fails :
    {A : Type 0} (write : A → Writer) (bytes : A → List ℕ)
    → ((a : A) → Writes (write a) (bytes a))
    → (n : ℕ) (xs : List A) (room : ℕ) → length xs < n
    → Fails (write_each write n xs) (length (bytes_of bytes xs) + room) out_of_bounds
unfolding write_each
write_each-Fails write bytes h zero xs room k = absurd (omega arith)
write_each-Fails write bytes h (suc n) [] room k = record { run = λ st e. refl }
write_each-Fails write bytes h (suc n) (x ∷ xs) room k =
    let split : length (bytes x ++ bytes_of bytes xs) + room
        ≡ length (bytes x) + (length (bytes_of bytes xs) + room) =
      omega (arith, length-append (bytes x) (bytes_of bytes xs)) in
    rw split (then-Fails (h x) (write_each-Fails write bytes h n xs room (omega arith)))
