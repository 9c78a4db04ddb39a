-- ===== src/IntervalArray/Combine.antt =====
-- `AndOperator` and `DeleteArray` of core/interval_array.h, which are loops over `AddInterval` and
-- `DelInterval`.
use rabbitstreamer.Prelude.{
  ℕ, suc, ◌+◌, ◌*◌, ◌≤◌, ◌<◌, ◌≡◌, refl, Bool, ◌&&◌, ◌||◌, [], ◌∷◌, length, uint_max, min, max,
  Result, ok, sub32_exact, dec_lt, arith,
}
use rabbitstreamer.IntervalArray.{BlockInterval, IntervalArray, max_validsize}
use rabbitstreamer.IntervalArray.Queries.{find_block, and_op, and_entry, and_entries, and_operator}
use rabbitstreamer.IntervalArray.Invariant.{
  inside, covers, Apart, IsVerified, end_of_exact, find_block-eq-covers,
}
use rabbitstreamer.IntervalArray.Add.{add_interval_lem}

module _ (x y : BlockInterval) (hx : x.start + x.size ≤ uint_max)
    (hy : y.start + y.size ≤ uint_max) where
  -- `and_op` is the intersection of two intervals.
  inside-and_op :
      (b : ℕ)
      → inside (and_op x y).start (and_op x y).size b
        ≡ (inside x.start x.size b && inside y.start y.size b)
  unfolding and_op
  inside-and_op b = ground (
    arith,
    end_of_exact x hx,
    end_of_exact y hy,
    sub32_exact (min (x.start + x.size) (y.start + y.size)) (max x.start y.start),
  )

  and_op_fits : 0 < (and_op x y).size → (and_op x y).start + (and_op x y).size ≤ uint_max
  unfolding and_op
  and_op_fits h = ground (
    arith,
    end_of_exact x hx,
    end_of_exact y hy,
    sub32_exact (min (x.start + x.size) (y.start + y.size)) (max x.start y.start),
  )

-- `r'` is what a loop of `AndOperator` makes of the verified array `r`: with at most `more` entries
-- more, it has the blocks of `r` and those that pass `also`.
abbrev Extends : IntervalArray → ℕ → (ℕ → Bool) → Result IntervalArray → Type 0
Extends r more also out =
    (r' : IntervalArray) × (out ≡ ok r')
    × IsVerified r'
    × (length r' ≤ length r + more)
    × ((b : ℕ) → find_block r' b ≡ (find_block r b || also b))

and_entry-Extends :
    (lo : ℕ) (xs : IntervalArray) (y : BlockInterval) (r : IntervalArray)
    → Apart lo xs
    → y.start + y.size ≤ uint_max
    → IsVerified r
    → length r + length xs ≤ max_validsize
    → Extends r (length xs) (λ b. covers xs b && inside y.start y.size b) (and_entry xs y r)
unfolding and_entry covers
and_entry-Extends lo [] y r a h v room = (r, refl, v, omega arith, λ b. ground arith)
and_entry-Extends lo (x ∷ xs) y r a h v room = elim (dec_lt 0 (and_op x y).size) [
  | yes pos ↦
      let (r1, e1, v1, l1, f1) =
        add_interval_lem r (and_op x y).start (and_op x y).size v (and_op_fits x y a.2 h pos)
          (omega arith) in
      let (r2, e2, v2, l2, f2) =
        and_entry-Extends (suc (x.start + x.size)) xs y r1 a.3 h v1 (omega arith) in
      (
        r2,
        ground arith,
        v2,
        omega arith,
        λ b. ground (arith, f1 b, f2 b, inside-and_op x y a.2 h b),
      )
  | no empty ↦
      let (r2, e2, v2, l2, f2) =
        and_entry-Extends (suc (x.start + x.size)) xs y r a.3 h v (omega arith) in
      (r2, ground arith, v2, omega arith, λ b. ground (arith, f2 b, inside-and_op x y a.2 h b))
]

and_entries-Extends :
    (lo : ℕ) (xs ys r : IntervalArray)
    → IsVerified xs
    → Apart lo ys
    → IsVerified r
    → length r + length xs * length ys ≤ max_validsize
    → Extends r (length xs * length ys) (λ b. covers xs b && covers ys b) (and_entries xs ys r)
unfolding and_entries covers
and_entries-Extends lo xs [] r a c v room = (r, refl, v, omega arith, λ b. ground arith)
and_entries-Extends lo xs (y ∷ ys) r a c v room =
    let (r1, e1, v1, l1, f1) = and_entry-Extends 0 xs y r a c.2 v (grind arith) in
    let (r2, e2, v2, l2, f2) =
      and_entries-Extends (suc (y.start + y.size)) xs ys r1 a c.3 v1 (grind arith) in
    (r2, ground arith, v2, grind arith, λ b. ground (arith, f1 b, f2 b))

-- On two verified arrays, with room for one entry for each pair, `AndOperator` ends with a verified
-- array in which exactly the blocks are found that are found in both.
pub and_operator_lem :
    (xs ys : IntervalArray)
    → IsVerified xs
    → IsVerified ys
    → length xs * length ys ≤ max_validsize
    → (r : IntervalArray) × (and_operator xs ys ≡ ok r)
      × IsVerified r
      × ((b : ℕ) → find_block r b ≡ (find_block xs b && find_block ys b))
unfolding and_operator
and_operator_lem xs ys v w room =
    let (r, e, u, l, f) = and_entries-Extends 0 xs ys [] v w tt (omega arith) in
    (
      r,
      e,
      u,
      λ b.
          unfold find_block in
          ground (arith, f b, find_block-eq-covers 0 xs b v, find_block-eq-covers 0 ys b w),
    )
