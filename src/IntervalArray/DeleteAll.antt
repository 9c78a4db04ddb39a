-- ===== src/IntervalArray/DeleteAll.antt =====
-- `DeleteArray` of core/interval_array.h, a loop over `DelInterval`.
use rabbitstreamer.Prelude.{ℕ, ◌≡◌, false, ◌&&◌, not, Result, ok}
use rabbitstreamer.IntervalArray.{IntervalArray}
use rabbitstreamer.IntervalArray.Queries.{find_block}
use rabbitstreamer.IntervalArray.Invariant.{covers, IsVerified}

-- What the loop leaves, as far as the block `b` can tell.
abbrev Left : ℕ → IntervalArray → IntervalArray → Result IntervalArray → Type 0
Left b xs ys out =
    (r : IntervalArray) × (out ≡ ok r)
    × IsVerified r
    × ((find_block r b && not (find_block xs b)) ≡ false)
    × ((find_block xs b && not (covers ys b) && not (find_block r b)) ≡ false)
