-- ===== src/IntervalArray/Queries.antt =====
-- core/interval_array.h: the calls of `IntervalArray` that read the array, and those made of
-- `AddInterval` and `DelInterval`.
use rabbitstreamer.Prelude.{
  ℕ, Bool, true, false, [], ◌∷◌, ltb, leb, ◌==◌, if◌then◌else◌, uint_max, add32, sub32, min, max,
  Result, ok, ◌>>=◌,
}
use rabbitstreamer.IntervalArray.{BlockInterval, IntervalArray, end_of, add_interval, del_interval}

-- `FindBlock`
unfoldable pub find_block : IntervalArray → ℕ → Bool
find_block [] b = false
find_block (x ∷ xs) b =
    if ltb b x.start then false else if ltb b (end_of x) then true else find_block xs b

-- `m_array[i].start + m_array[i].size >= m_array[i + 1].start`, where there is a next entry
unfoldable pub touches_next : BlockInterval → IntervalArray → Bool
touches_next x [] = false
touches_next x (y ∷ ys) = leb y.start (end_of x)

-- `Verify`
unfoldable pub verify : IntervalArray → Bool
verify [] = true
verify (x ∷ xs) =
    if x.size == 0
    then false
    else if ltb (sub32 uint_max x.start) x.size
    then false
    else if touches_next x xs
    then false
    else verify xs

-- `GetContinousCount`
unfoldable pub continuous_count : IntervalArray → ℕ → ℕ
continuous_count [] b = 0
continuous_count (x ∷ xs) b =
    if ltb b x.start
    then 0
    else if ltb b (end_of x)
    then sub32 (end_of x) b
    else continuous_count xs b

-- `BlockInterval::and_op`
unfoldable pub and_op : BlockInterval → BlockInterval → BlockInterval
and_op i j =
    let s = max i.start j.start in
    let e = min (end_of i) (end_of j) in
    record { start = s; size = if ltb s e then sub32 e s else 0 }

-- The loop of `GetCountInInterval`.
unfoldable pub count_against : IntervalArray → BlockInterval → ℕ → ℕ
count_against [] window total = total
count_against (x ∷ xs) window total = count_against xs window (add32 total (and_op x window).size)

-- `GetCountInInterval`
unfoldable pub count_in_interval : IntervalArray → ℕ → ℕ → ℕ
count_in_interval xs b len =
    count_against xs (record { start = b; size = min len (sub32 uint_max b) }) 0

-- `DeleteArray`, where `another` is a second array
unfoldable pub delete_array : IntervalArray → IntervalArray → Result IntervalArray
delete_array xs [] = ok xs
delete_array xs (y ∷ ys) = del_interval xs y.start y.size >>= λ xs'. delete_array xs' ys

-- The inner loop of `AndOperator`, over the entries of this array.
unfoldable pub and_entry : IntervalArray → BlockInterval → IntervalArray → Result IntervalArray
and_entry [] y result = ok result
and_entry (x ∷ xs) y result =
    let common = and_op x y in
    (if ltb 0 common.size then add_interval result common.start common.size else ok result)
    >>= λ result'. and_entry xs y result'

-- The outer loop, over the entries of `another`.
unfoldable pub and_entries : IntervalArray → IntervalArray → IntervalArray → Result IntervalArray
and_entries xs [] result = ok result
and_entries xs (y ∷ ys) result = and_entry xs y result >>= λ result'. and_entries xs ys result'

-- `AndOperator`, which clears the result first
unfoldable pub and_operator : IntervalArray → IntervalArray → Result IntervalArray
and_operator xs another = and_entries xs another []

-- `GetMinBlockID`
unfoldable pub min_block_id : IntervalArray → ℕ
min_block_id [] = uint_max
min_block_id (x ∷ xs) = x.start

-- `GetMaxBlockID`
unfoldable pub max_block_id : IntervalArray → ℕ
max_block_id [] = 0
max_block_id (x ∷ []) = end_of x
max_block_id (x ∷ y ∷ ys) = max_block_id (y ∷ ys)

-- `PopFront`: the entry that it hands out, all zero on the empty array, and the rest
unfoldable pub pop_front : IntervalArray → BlockInterval × IntervalArray
pop_front [] = (record { start = 0; size = 0 }, [])
pop_front (x ∷ xs) = (x, xs)
