-- ===== src/Streamer/Laws.antt =====
-- What a call of `RsStreamer` writes or reads, and how the calls of a sequence add up.
use rabbitstreamer.Prelude.{
  false, ◌*◌, suc, ℕ, zero, ◌==◌, if◌then◌else◌, ◌≤◌, ◌≡◌, ap, ◌∙◌, List, [], ◌∷◌, ◌++◌, append-nil,
  append_assoc, length, length-append, length-drop, drop-drop, take_append, drop_append, ok,
  assertion, out_of_bounds, Fault, All, arith,
}
use rabbitstreamer.Streamer.Bytes.{le, from_le, length-le}
use rabbitstreamer.Streamer.{
  Streamer, Writer, Reader, ◌>>◌, ◌>>=◌, finish, return, overwrite, store, write_short, write_int,
  write_char, write_nbytes, read_nbytes, get_as_type, write_each, read_each,
}

-- With room for `bs` the call replaces the next bytes by `bs`.
pub record Writes (w : Writer) (bs : List ℕ) : Type 0 where
  pub run : (st : Streamer) → length bs ≤ length st.after → w st ≡ ok (overwrite bs st)

pub store-Writes : (e : Fault) (bs : List ℕ) → Writes (store e bs) bs
unfolding store
store-Writes e bs = record { run = λ st h. ground arith }

pub write_short-Writes : (v : ℕ) → Writes (write_short v) (le 2 v)
unfolding write_short
write_short-Writes v = store-Writes assertion (le 2 v)

pub write_int-Writes : (v : ℕ) → Writes (write_int v) (le 4 v)
unfolding write_int
write_int-Writes v = store-Writes assertion (le 4 v)

pub write_char-Writes : (v : ℕ) → Writes (write_char v) (le 1 v)
unfolding write_char
write_char-Writes v = store-Writes out_of_bounds (le 1 v)

pub write_nbytes-Writes : (bs : List ℕ) → Writes (write_nbytes bs) bs
unfolding write_nbytes
write_nbytes-Writes bs = store-Writes out_of_bounds bs

overwrite-append :
    (bs cs : List ℕ) (st : Streamer) → overwrite cs (overwrite bs st) ≡ overwrite (bs ++ cs) st
unfolding overwrite
overwrite-append bs cs st = rw (append_assoc, drop-drop, length-append)

overwrite-nil : (st : Streamer) → overwrite [] st ≡ st
unfolding overwrite
overwrite-nil st = rw append-nil

pub finish-Writes : Writes finish []
finish-Writes = record { run = λ st h. rw overwrite-nil }

pub then-ok : (v w : Writer) (st st' : Streamer) → v st ≡ ok st' → (v >> w) st ≡ w st'
then-ok v w st st' e = rw (e, ◌>>◌)

pub then-Writes :
    {v w : Writer} {bs cs : List ℕ} → Writes v bs → Writes w cs → Writes (v >> w) (bs ++ cs)
then-Writes {v} {w} {bs} {cs} hv hw = record {
  run = λ st h.
      let room : length cs ≤ length (overwrite bs st).after =
        unfold overwrite in omega (arith, length-append bs cs, length-drop (length bs) st.after) in
      then-ok v w st (overwrite bs st) (hv.run st (omega (arith, length-append bs cs)))
      ∙ hw.run (overwrite bs st) room
      ∙ ap ok (overwrite-append bs cs st);
}

-- The bytes of a sequence of values.
abbrev pub bytes_of : {A : Type 0} → (A → List ℕ) → List A → List ℕ
bytes_of bytes [] = []
bytes_of bytes (x ∷ xs) = bytes x ++ bytes_of bytes xs

-- Where the program writes nothing if the size is zero.
pub write_some-Writes :
    (n : ℕ) (bs : List ℕ) → length bs ≡ n → Writes (if n == 0 then finish else write_nbytes bs) bs
write_some-Writes zero [] e = finish-Writes
write_some-Writes zero (b ∷ bs) e = absurd (omega arith)
write_some-Writes (suc n) bs e =
    let positive : (suc n == 0) ≡ false = ground arith in rw positive (write_nbytes-Writes bs)

pub write_each-Writes :
    {A : Type 0} (write : A → Writer) (bytes : A → List ℕ)
    → ((a : A) → Writes (write a) (bytes a))
    → (n : ℕ) (xs : List A) → length xs ≡ n
    → Writes (write_each write n xs) (bytes_of bytes xs)
unfolding write_each
write_each-Writes write bytes h zero [] e = finish-Writes
write_each-Writes write bytes h zero (x ∷ xs) e = absurd (omega arith)
write_each-Writes write bytes h (suc n) [] e = absurd (omega arith)
write_each-Writes write bytes h (suc n) (x ∷ xs) e =
    then-Writes (h x) (write_each-Writes write bytes h n xs (omega arith))

-- Values of one size.
pub length-bytes_of :
    {A : Type 0} (bytes : A → List ℕ) (k : ℕ)
    → ((a : A) → length (bytes a) ≡ k)
    → (xs : List A) → length (bytes_of bytes xs) ≡ length xs * k
length-bytes_of bytes k h [] = omega arith
length-bytes_of bytes k h (x ∷ xs) =
    omega (arith, length-append (bytes x) (bytes_of bytes xs), h x, length-bytes_of bytes k h xs)

-- Before `bs`, whatever follows, the call reads exactly `bs` and returns `a`.
pub record Reads {A : Type 0} (r : Reader A) (bs : List ℕ) (a : A) : Type 0 where
  pub run :
      (pre rest : List ℕ)
      → r (record { before = pre; after = bs ++ rest })
        ≡ ok (a, record { before = pre ++ bs; after = rest })

pub read_nbytes-Reads : (n : ℕ) (bs : List ℕ) → length bs ≡ n → Reads (read_nbytes n) bs bs
unfolding read_nbytes
read_nbytes-Reads n bs e = record {
  run = λ pre rest.
      rw (← e) (ground (arith, length-append bs rest, take_append bs rest, drop_append bs rest));
}

pub return-Reads : {A : Type 0} (a : A) → Reads (return a) [] a
return-Reads a = record { run = λ pre rest. rw append-nil }

pub bind-ok :
    {A B : Type 0} (r : Reader A) (f : A → Reader B) (st st' : Streamer) (a : A)
    → r st ≡ ok (a, st')
    → (r >>= f) st ≡ f a st'
bind-ok r f st st' a e = rw (e, ◌>>=◌)

pub bind-Reads :
    {A B : Type 0} {r : Reader A} (f : A → Reader B) {bs cs : List ℕ} {a : A} {b : B}
    → Reads r bs a
    → Reads (f a) cs b
    → Reads (r >>= f) (bs ++ cs) b
bind-Reads {r = r} f {bs = bs} {cs = cs} {a = a} hr hf = record {
  run = λ pre rest.
      rw (append_assoc bs cs rest, ← append_assoc pre bs cs)
        (bind-ok r f _ _ a (hr.run pre (cs ++ rest)) ∙ hf.run (pre ++ bs) rest);
}

pub map-Reads :
    {A B : Type 0} {r : Reader A} (f : A → B) {bs : List ℕ} {a : A}
    → Reads r bs a
    → Reads (r >>= λ x. return (f x)) bs (f a)
map-Reads {r = r} f {a = a} h = record {
  run = λ pre rest. bind-ok r (λ x. return (f x)) _ _ a (h.run pre rest);
}

pub get_as_type-Reads : (n v : ℕ) → from_le (le n v) ≡ v → Reads (get_as_type n) (le n v) v
unfolding get_as_type
get_as_type-Reads n v e = rw e at (map-Reads from_le (read_nbytes-Reads n (le n v) (length-le n v)))

pub read_each-Reads :
    {A : Type 0} (read : Reader A) (bytes : A → List ℕ) (P : A → Type 0)
    → ((a : A) → P a → Reads read (bytes a) a)
    → (n : ℕ) (xs : List A) → length xs ≡ n
    → All P xs
    → Reads (read_each read n) (bytes_of bytes xs) xs
unfolding read_each
read_each-Reads read bytes P h zero [] e t = return-Reads []
read_each-Reads read bytes P h zero (x ∷ xs) e t = absurd (omega arith)
read_each-Reads read bytes P h (suc n) [] e t = absurd (omega arith)
read_each-Reads read bytes P h (suc n) (x ∷ xs) e t =
    bind-Reads _ (h x t.0)
      (map-Reads (λ ys. x ∷ ys) (read_each-Reads read bytes P h n xs (omega arith) t.1))

-- Where the program reads nothing if the count is zero.
pub read_some-Reads :
    {A : Type 0} (read : Reader A) (bytes : A → List ℕ) (P : A → Type 0)
    → ((a : A) → P a → Reads read (bytes a) a)
    → (n : ℕ) (xs : List A) → length xs ≡ n
    → All P xs
    → Reads (if n == 0 then return [] else read_each read n) (bytes_of bytes xs) xs
read_some-Reads read bytes P h zero [] e t = return-Reads []
read_some-Reads read bytes P h zero (x ∷ xs) e t = absurd (omega arith)
read_some-Reads read bytes P h (suc n) xs e t =
    let positive : (suc n == 0) ≡ false = ground arith in
    rw positive (read_each-Reads read bytes P h (suc n) xs e t)
