-- ===== src/ReceiveBuffer/Slices.antt =====
-- What stands between two offsets of a memory that is stored into, moved or extended.
use rabbitstreamer.Prelude.{
  ℕ, zero, suc, ◌+◌, ◌-◌, ◌≤◌, ◌≡◌, refl, sym, ap, ◌∙◌, List, [], ◌∷◌, ◌++◌, length, length-append,
  length-take, length-drop, take, drop, take_append, arith,
}
use rabbitstreamer.ReceiveBuffer.{splice, slice}

pub length-slice : (i j : ℕ) (mem : List ℕ) → j ≤ length mem → length (slice i j mem) ≡ j - i
unfolding slice
length-slice i j mem h = omega (arith, length-take (j - i) (drop i mem), length-drop i mem)

pub length-splice :
    (i : ℕ) (bs mem : List ℕ) → i + length bs ≤ length mem → length (splice i bs mem) ≡ length mem
unfolding splice
length-splice i bs mem h =
    omega (arith, length-append {0}, length-take i mem, length-drop (i + length bs) mem)

take-take_append :
    (n : ℕ) (bs mem rest : List ℕ)
    → n ≤ length mem
    → take (n + length bs) (take n mem ++ (bs ++ rest)) ≡ take n mem ++ bs
take-take_append zero bs mem rest h =
    let e : 0 + length bs ≡ length bs = omega arith in rw e (take_append bs rest)
take-take_append (suc n) bs [] rest h = absurd (omega arith)
take-take_append (suc n) bs (x ∷ mem) rest h =
    let e : suc n + length bs ≡ suc (n + length bs) = omega arith in
    rw e (ap (λ l. x ∷ l) (take-take_append n bs mem rest (omega arith)))

slice_start : (j : ℕ) (mem : List ℕ) → slice 0 j mem ≡ take j mem
unfolding slice
slice_start j mem = let e : j - 0 ≡ j = omega arith in rw e

slice_tail : (i j x : ℕ) (mem : List ℕ) → slice (suc i) (suc j) (x ∷ mem) ≡ slice i j mem
unfolding slice
slice_tail i j x mem = let e : suc j - suc i ≡ j - i = omega arith in rw e

splice_tail : (j x : ℕ) (bs mem : List ℕ) → splice (suc j) bs (x ∷ mem) ≡ x ∷ splice j bs mem
unfolding splice
splice_tail j x bs mem = let e : suc j + length bs ≡ suc (j + length bs) = omega arith in rw e

-- Bytes that are stored at the end of a slice lengthen it.
pub slice-splice :
    (i j : ℕ) (bs mem : List ℕ)
    → i ≤ j
    → j ≤ length mem
    → slice i (j + length bs) (splice j bs mem) ≡ slice i j mem ++ bs
slice-splice zero j bs mem h k =
    rw (slice_start (j + length bs) (splice j bs mem), slice_start j mem)
      (unfold splice in take-take_append j bs mem (drop (j + length bs) mem) k)
slice-splice (suc i) zero bs mem h k = absurd (omega arith)
slice-splice (suc i) (suc j) bs [] h k = absurd (omega arith)
slice-splice (suc i) (suc j) bs (x ∷ mem) h k =
    let e : suc j + length bs ≡ suc (j + length bs) = omega arith in
    rw
      (
        e,
        splice_tail j x bs mem,
        slice_tail i (j + length bs) x (splice j bs mem),
        slice_tail i j x mem,
      )
      (slice-splice i j bs mem (omega arith) (omega arith))

-- The bytes of a slice, moved to the start.
pub slice_moved : (bs mem : List ℕ) → slice 0 (length bs) (splice 0 bs mem) ≡ bs
slice_moved bs mem =
    slice_start (length bs) (splice 0 bs mem)
    ∙ unfold splice in take_append bs (drop (0 + length bs) mem)

pub take_more : (n : ℕ) (xs more : List ℕ) → n ≤ length xs → take n (xs ++ more) ≡ take n xs
take_more zero xs more h = refl
take_more (suc n) [] more h = absurd (omega arith)
take_more (suc n) (x ∷ xs) more h = ap (λ l. x ∷ l) (take_more n xs more (omega arith))

pub slice-append :
    (i j : ℕ) (mem more : List ℕ) → i ≤ j → j ≤ length mem → slice i j (mem ++ more) ≡ slice i j mem
slice-append zero j mem more h k =
    slice_start j (mem ++ more) ∙ take_more j mem more k ∙ sym (slice_start j mem)
slice-append (suc i) zero mem more h k = absurd (omega arith)
slice-append (suc i) (suc j) [] more h k = absurd (omega arith)
slice-append (suc i) (suc j) (x ∷ mem) more h k =
    slice_tail i j x (mem ++ more)
    ∙ slice-append i j mem more (omega arith) (omega arith)
    ∙ sym (slice_tail i j x mem)

pub slice_empty : (i : ℕ) (mem : List ℕ) → slice i i mem ≡ []
unfolding slice
slice_empty i mem = let e : i - i ≡ 0 = omega arith in rw e
