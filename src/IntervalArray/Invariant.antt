-- ===== src/IntervalArray/Invariant.antt =====
-- What `Verify` in core/interval_array.h checks, as a predicate, and what an array stands for: a
-- set of block numbers.
use rabbitstreamer.Prelude.{
  ℕ, suc, ◌+◌, ◌≤◌, ◌<◌, ◌≡◌, refl, ◌↔◌, Bool, true, false, ◌&&◌, ◌||◌, [], ◌∷◌, ltb, leb, uint_max,
  add32_exact, sub32_exact, arith,
}
use rabbitstreamer.IntervalArray.{BlockInterval, IntervalArray, end_of}
use rabbitstreamer.IntervalArray.Queries.{find_block, verify, touches_next}

-- The block `b` is one of the `n` blocks from `s` on.
abbrev pub inside : ℕ → ℕ → ℕ → Bool
inside s n b = leb s b && ltb b (s + n)

-- Some entry holds the block. No order of the entries is assumed.
unfoldable pub covers : IntervalArray → ℕ → Bool
covers [] b = false
covers (x ∷ xs) b = inside x.start x.size b || covers xs b

-- The entries rise, none is empty or passes the largest `uint32_t`, a gap stands between any two,
-- and all of them start at `lo` or later.
abbrev pub Apart : ℕ → IntervalArray → Type 0
Apart lo [] = Unit {0}
Apart lo (x ∷ xs) =
    (lo ≤ x.start)
    × (0 < x.size)
    × (x.start + x.size ≤ uint_max)
    × Apart (suc (x.start + x.size)) xs

abbrev pub IsVerified : IntervalArray → Type 0
IsVerified xs = Apart 0 xs

pub Apart-mono : (lo hi : ℕ) (xs : IntervalArray) → lo ≤ hi → Apart hi xs → Apart lo xs
Apart-mono lo hi [] h a = tt
Apart-mono lo hi (x ∷ xs) h a = (omega arith, a.1, a.2, a.3)

pub end_of_exact : (x : BlockInterval) → x.start + x.size ≤ uint_max → end_of x ≡ x.start + x.size
unfolding end_of
end_of_exact x h = add32_exact x.start x.size h

-- No block below the first entry is covered.
pub covers_below :
    (lo : ℕ) (xs : IntervalArray) (b : ℕ) → Apart lo xs → b < lo → covers xs b ≡ false
unfolding covers
covers_below lo [] b a h = refl
covers_below lo (x ∷ xs) b a h =
    ground (arith, covers_below (suc (x.start + x.size)) xs b a.3 (omega arith))

-- `FindBlock` stops early, and still finds exactly the covered blocks.
pub find_block-eq-covers :
    (lo : ℕ) (xs : IntervalArray) (b : ℕ) → Apart lo xs → find_block xs b ≡ covers xs b
unfolding find_block covers
find_block-eq-covers lo [] b a = refl
find_block-eq-covers lo (x ∷ xs) b a = ground (
  arith,
  end_of_exact x a.2,
  find_block-eq-covers (suc (x.start + x.size)) xs b a.3,
  covers_below (suc (x.start + x.size)) xs b a.3,
)

-- Every field is a `uint32_t`.
abbrev pub InRange : IntervalArray → Type 0
InRange [] = Unit {0}
InRange (x ∷ xs) = (x.start ≤ uint_max) × (x.size ≤ uint_max) × InRange xs

-- The next entry lies beyond the gap.
abbrev StartsAfter : ℕ → IntervalArray → Type 0
StartsAfter lo [] = Unit {0}
StartsAfter lo (x ∷ xs) = lo ≤ x.start

verify_sound :
    (lo : ℕ) (xs : IntervalArray) → InRange xs → StartsAfter lo xs → verify xs ≡ true → Apart lo xs
unfolding verify touches_next
verify_sound lo [] r s v = tt
verify_sound lo (x ∷ []) r s v = ground (arith, end_of_exact x, sub32_exact uint_max x.start)
verify_sound lo (x ∷ y ∷ ys) r s v = ground (
  arith,
  end_of_exact x,
  sub32_exact uint_max x.start,
  verify_sound (suc (x.start + x.size)) (y ∷ ys) r.2,
)

verify_complete : (lo : ℕ) (xs : IntervalArray) → Apart lo xs → verify xs ≡ true
unfolding verify touches_next
verify_complete lo [] a = refl
verify_complete lo (x ∷ []) a = ground (arith, end_of_exact x a.2, sub32_exact uint_max x.start)
verify_complete lo (x ∷ y ∷ ys) a = ground (
  arith,
  end_of_exact x a.2,
  sub32_exact uint_max x.start,
  verify_complete (suc (x.start + x.size)) (y ∷ ys) a.3,
)

-- On an array of `uint32_t` fields `Verify` returns true exactly if the entries rise, none is
-- empty, none ends above the largest `uint32_t`, and a gap stands between any two neighbours.
pub verify_iff : (xs : IntervalArray) → InRange xs → (verify xs ≡ true) ↔ IsVerified xs
unfolding verify
verify_iff [] r = (λ v. tt, λ a. refl)
verify_iff (x ∷ xs) r =
    (λ v. verify_sound 0 (x ∷ xs) r (omega arith) v, λ a. verify_complete 0 (x ∷ xs) a)
