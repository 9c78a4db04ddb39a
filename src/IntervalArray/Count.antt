-- ===== src/IntervalArray/Count.antt =====
-- `GetContinousCount` and `GetCountInInterval` of core/interval_array.h against `FindBlock`.
use rabbitstreamer.Prelude.{
  ℕ, zero, suc, ◌+◌, ◌-◌, ◌≤◌, ◌<◌, ◌≡◌, refl, ◌∙◌, fun_ext, Bool, true, false, ◌&&◌, ◌||◌, [], ◌∷◌,
  if◌then◌else◌, uint_max, min, max, add32_exact, sub32_exact, arith,
}
use rabbitstreamer.IntervalArray.{BlockInterval, IntervalArray}
use rabbitstreamer.IntervalArray.Queries.{
  find_block, continuous_count, and_op, count_against, count_in_interval,
}
use rabbitstreamer.IntervalArray.Invariant.{
  inside, covers, Apart, IsVerified, end_of_exact, covers_below, find_block-eq-covers,
}

find_block_below :
    (lo : ℕ) (xs : IntervalArray) (b : ℕ) → Apart lo xs → b < lo → find_block xs b ≡ false
find_block_below lo xs b a h = find_block-eq-covers lo xs b a ∙ covers_below lo xs b a h

continuous_count-found :
    (lo : ℕ) (xs : IntervalArray) (b k : ℕ)
    → Apart lo xs
    → k < continuous_count xs b
    → find_block xs (b + k) ≡ true
unfolding continuous_count find_block
continuous_count-found lo [] b k a h = absurd (omega arith)
continuous_count-found lo (x ∷ xs) b k a h = ground (
  arith,
  end_of_exact x a.2,
  sub32_exact (x.start + x.size) b,
  continuous_count-found (suc (x.start + x.size)) xs b k a.3,
)

continuous_count-stops :
    (lo : ℕ) (xs : IntervalArray) (b : ℕ)
    → Apart lo xs
    → find_block xs (b + continuous_count xs b) ≡ false
unfolding continuous_count find_block
continuous_count-stops lo [] b a = refl
continuous_count-stops lo (x ∷ xs) b a = ground (
  arith,
  end_of_exact x a.2,
  sub32_exact (x.start + x.size) b,
  continuous_count-stops (suc (x.start + x.size)) xs b a.3,
  find_block_below (suc (x.start + x.size)) xs (x.start + x.size) a.3,
)

-- On a verified array `GetContinousCount` is exactly the number of found blocks in a row from the
-- given block on: as many blocks from it on are found, and the one after these is not. So it is 0
-- only where the given block itself is not found.
pub continuous_count_lem :
    (xs : IntervalArray) (b : ℕ)
    → IsVerified xs
    → ((k : ℕ) → k < continuous_count xs b → find_block xs (b + k) ≡ true)
      × (find_block xs (b + continuous_count xs b) ≡ false)
continuous_count_lem xs b v =
    (λ k h. continuous_count-found 0 xs b k v h, continuous_count-stops 0 xs b v)

-- How many of the `n` numbers from `b` on pass the test.
unfoldable pub tally : (ℕ → Bool) → ℕ → ℕ → ℕ
tally p b zero = 0
tally p b (suc n) = (if p b then 1 else 0) + tally p (suc b) n

tally_inside : (s m b n : ℕ) → tally (inside s m) b n ≡ min (s + m) (b + n) - max s b
unfolding tally
tally_inside s m b zero = omega arith
tally_inside s m b (suc n) = ground (arith, tally_inside s m (suc b) n)

tally-or :
    (p q : ℕ → Bool) (b n : ℕ)
    → ((k : ℕ) → (p k && q k) ≡ false)
    → tally (λ k. p k || q k) b n ≡ tally p b n + tally q b n
unfolding tally
tally-or p q b zero h = omega arith
tally-or p q b (suc n) h = ground (arith, h b, tally-or p q (suc b) n h)

tally-none : (b n : ℕ) → tally (covers []) b n ≡ 0
unfolding tally covers
tally-none b zero = refl
tally-none b (suc n) = ground (arith, tally-none (suc b) n)

tally-le : (p : ℕ → Bool) (b n : ℕ) → tally p b n ≤ n
unfolding tally
tally-le p b zero = omega arith
tally-le p b (suc n) = ground (arith, tally-le p (suc b) n)

-- `and_op` keeps as many blocks as the two intervals share.
size-and_op :
    (x w : BlockInterval)
    → x.start + x.size ≤ uint_max
    → w.start + w.size ≤ uint_max
    → (and_op x w).size ≡ tally (inside x.start x.size) w.start w.size
unfolding and_op
size-and_op x w h k = ground (
  arith,
  end_of_exact x h,
  end_of_exact w k,
  tally_inside x.start x.size w.start w.size,
  sub32_exact (min (x.start + x.size) (w.start + w.size)) (max x.start w.start),
)

disjoint_tail :
    (lo : ℕ) (x : BlockInterval) (xs : IntervalArray) (k : ℕ)
    → Apart lo (x ∷ xs)
    → (inside x.start x.size k && covers xs k) ≡ false
disjoint_tail lo x xs k a = ground (arith, covers_below (suc (x.start + x.size)) xs k a.3)

tally-covers :
    (lo : ℕ) (x : BlockInterval) (xs : IntervalArray) (b n : ℕ)
    → Apart lo (x ∷ xs)
    → tally (covers (x ∷ xs)) b n ≡ tally (inside x.start x.size) b n + tally (covers xs) b n
unfolding covers
tally-covers lo x xs b n a =
    tally-or (inside x.start x.size) (covers xs) b n (λ k. disjoint_tail lo x xs k a)

count_against_lem :
    (lo : ℕ) (xs : IntervalArray) (w : BlockInterval) (total : ℕ)
    → Apart lo xs
    → w.start + w.size ≤ uint_max
    → total + tally (covers xs) w.start w.size ≤ uint_max
    → count_against xs w total ≡ total + tally (covers xs) w.start w.size
unfolding count_against
count_against_lem lo [] w total a h k = omega (arith, tally-none w.start w.size)
count_against_lem lo (x ∷ xs) w total a h k = ground (
  arith,
  size-and_op x w a.2 h,
  tally-covers lo x xs w.start w.size a,
  add32_exact total (tally (inside x.start x.size) w.start w.size),
  count_against_lem (suc (x.start + x.size)) xs w
      (total + tally (inside x.start x.size) w.start w.size) a.3 h,
)

-- On a verified array `GetCountInInterval` counts the found blocks among the `len` from `b` on, as
-- far as these stay below the largest `uint32_t`.
pub count_in_interval_lem :
    (xs : IntervalArray) (b len : ℕ)
    → IsVerified xs
    → b ≤ uint_max
    → count_in_interval xs b len ≡ tally (find_block xs) b (min len (uint_max - b))
unfolding count_in_interval
count_in_interval_lem xs b len v h =
    rw (fun_ext (λ k. find_block-eq-covers 0 xs k v), sub32_exact uint_max b h (omega arith))
      (omega (
        arith,
        tally-le (covers xs) b (min len (uint_max - b)),
        count_against_lem 0 xs (record { start = b; size = min len (uint_max - b) }) 0 v,
      ))
