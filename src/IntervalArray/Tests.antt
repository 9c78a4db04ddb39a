-- ===== src/IntervalArray/Tests.antt =====
-- core/interval_array.h on concrete arrays.
use rabbitstreamer.Prelude.{
  not, min, uint_max, ◌-◌, add32, sub32, ◌+◌, ℕ, ◌≡◌, refl, ◌≤◌, ◌<◌, ◌&&◌, ◌||◌, not, ◌↔◌, true,
  false, [], ◌∷◌, length, ok, arith,
}
use rabbitstreamer.IntervalArray.{
  end_of, pass, next_after, IntervalArray, add_interval, add_loop, add_scan, del_interval, del_loop,
  del_scan,
}
use rabbitstreamer.IntervalArray.Queries.{
  count_in_interval, find_block, verify, continuous_count, and_operator,
}
use rabbitstreamer.IntervalArray.Invariant.{inside, IsVerified, verify_iff}
use rabbitstreamer.IntervalArray.Add.{add_interval_lem}
use rabbitstreamer.IntervalArray.Delete.{
  deleted_size, none_short_at, del_interval_lem, del_interval_whole,
}
use rabbitstreamer.IntervalArray.Count.{tally, count_in_interval_lem, continuous_count_lem}
use rabbitstreamer.IntervalArray.Combine.{and_operator_lem}

abbrev two : IntervalArray
two = record { start = 10; size = 5 } ∷ record { start = 20; size = 5 } ∷ []

abbrev window : IntervalArray
window = record { start = 12; size = 10 } ∷ []

two-IsVerified : IsVerified two
two-IsVerified = omega arith

window-IsVerified : IsVerified window
window-IsVerified = omega arith

-- An interval that fills the gap leaves one entry.
add_two : add_interval two 15 5 ≡ ok (record { start = 10; size = 15 } ∷ [])
unfolding add_interval add_loop add_scan end_of next_after add32 sub32
add_two = refl

del_two :
    del_interval two 12 10
    ≡ ok (record { start = 10; size = 2 } ∷ record { start = 22; size = 3 } ∷ [])
unfolding del_interval del_loop del_scan end_of pass add32 sub32
del_two = refl

add_interval_lem_example :
    (ys : IntervalArray) × (add_interval two 15 5 ≡ ok ys)
    × IsVerified ys
    × (length ys ≤ 3)
    × ((b : ℕ) → find_block ys b ≡ (find_block two b || inside 15 5 b))
add_interval_lem_example = add_interval_lem two 15 5 two-IsVerified (omega arith) (omega arith)

del_interval_lem_example :
    (ys : IntervalArray) × (del_interval two 12 10 ≡ ok ys)
    × IsVerified ys
    × (length ys ≤ 3)
    × ((b : ℕ) → find_block ys b ≡ (find_block two b && not (inside 12 (deleted_size two 12 10) b)))
del_interval_lem_example =
    del_interval_lem two 12 10 two-IsVerified (omega arith) (omega arith) (omega arith)

none_short_two : none_short_at two 12 10 ≡ true
unfolding none_short_at
none_short_two = refl

del_interval_whole_example :
    (ys : IntervalArray) × (del_interval two 12 10 ≡ ok ys)
    × IsVerified ys
    × ((b : ℕ) → find_block ys b ≡ (find_block two b && not (inside 12 10 b)))
del_interval_whole_example =
    del_interval_whole two 12 10 two-IsVerified (omega arith) (omega arith) (omega arith)
      none_short_two

verify_iff_example : (verify two ≡ true) ↔ IsVerified two
verify_iff_example = verify_iff two (omega arith)

continuous_count_lem_example :
    ((k : ℕ) → k < continuous_count two 12 → find_block two (12 + k) ≡ true)
    × (find_block two (12 + continuous_count two 12) ≡ false)
continuous_count_lem_example = continuous_count_lem two 12 two-IsVerified

and_operator_lem_example :
    (r : IntervalArray) × (and_operator two window ≡ ok r)
    × IsVerified r
    × ((b : ℕ) → find_block r b ≡ (find_block two b && find_block window b))
and_operator_lem_example =
    and_operator_lem two window two-IsVerified window-IsVerified (omega arith)

count_in_interval_lem_example :
    count_in_interval two 12 10 ≡ tally (find_block two) 12 (min 10 (uint_max - 12))
count_in_interval_lem_example = count_in_interval_lem two 12 10 two-IsVerified (omega arith)
