-- ===== src/IntervalArray.antt =====
-- core/core_struct.h (`BlockInterval`) and core/interval_array.h (`IntervalArray`).
-- An array is the list of its first `m_validsize` entries. A scan stops with the array that the
-- call leaves, or asks for the recursive call that the source makes after `SafeDelete`.
pub mod Queries
pub mod Invariant
pub mod Add
pub mod Delete
pub mod DeleteAll
pub mod Count
pub mod Combine
mod Tests
use rabbitstreamer.Prelude.{
  ℕ, zero, suc, ◌*◌, Bool, true, List, [], ◌∷◌, ltb, leb, ◌==◌, if◌then◌else◌, length, uint_max,
  add32, sub32, Result, ok, fault, no_fuel, assertion,
}

-- `class BlockInterval`
pub record BlockInterval : Type 0 where
  pub start : ℕ
  pub size : ℕ

abbrev pub IntervalArray : Type 0
IntervalArray = List BlockInterval

-- `start + size`, in `uint32_t`
unfoldable pub end_of : BlockInterval → ℕ
end_of x = add32 x.start x.size

-- `m_validsize` is a `uint16_t`.
abbrev pub max_validsize : ℕ
max_validsize = 65535

-- `SafeInsert(i, start, size)` where the list is the part of the array from `i` on. The source moves
-- that part up by one entry with `memcpy`, whose ranges overlap where the array is not enlarged: that
-- is undefined, and is taken here for the `memmove` that is meant.
unfoldable pub safe_insert : ℕ → ℕ → ℕ → IntervalArray → IntervalArray
safe_insert validsize s n xs =
    if validsize == max_validsize then xs else record { start = s; size = n } ∷ xs

-- What a scan ends in: `return`, or the array and the arguments of the recursive call.
pub data Scan : Type 0 where
  done : IntervalArray → Scan
  again : IntervalArray → ℕ → ℕ → Scan

-- An entry that the loop has passed stays in front.
unfoldable pub pass : BlockInterval → Scan → Scan
pass x (done ys) = done (x ∷ ys)
pass x (again ys s n) = again (x ∷ ys) s n

-- `i == m_validsize - 1 || m_array[i + 1].start > e`
unfoldable pub next_after : IntervalArray → ℕ → Bool
next_after [] e = true
next_after (y ∷ ys) e = ltb e y.start

-- The loop of `AddInterval`.
unfoldable pub add_scan : ℕ → IntervalArray → ℕ → ℕ → Scan
add_scan validsize [] s n = done (safe_insert validsize s n [])
add_scan validsize (x ∷ xs) s n =
    let e = add32 s n in
    let rest = add_scan validsize xs s n in
    if ltb s x.start
    then (if ltb e x.start
        then done (safe_insert validsize s n (x ∷ xs))
        else if leb e (end_of x)
        then done (record { start = s; size = add32 x.size (sub32 x.start s) } ∷ xs)
        else again xs s n)
    else if leb s (end_of x)
    then (if leb e (end_of x)
        then done (x ∷ xs)
        else if next_after xs e
        then done (record x { size = sub32 e x.start } ∷ xs)
        else again xs x.start (add32 n (sub32 s x.start)))
    else pass x rest

-- `AddInterval` with a bound on the depth of its recursion.
unfoldable pub add_loop : ℕ → IntervalArray → ℕ → ℕ → Result IntervalArray
add_loop zero xs s n = fault no_fuel
add_loop (suc fuel) xs s n =
    if s == uint_max then ok xs else if n == 0 then ok xs else elim (add_scan (length xs) xs s n) [
      | done ys ↦ ok ys
      | again ys s' n' ↦ add_loop fuel ys s' n'
    ]

-- Each recursive call follows a `SafeDelete`.
unfoldable pub add_interval : IntervalArray → ℕ → ℕ → Result IntervalArray
add_interval xs s n = add_loop (suc (length xs)) xs s n

-- The loop of `DelInterval`.
unfoldable pub del_scan : ℕ → IntervalArray → ℕ → ℕ → Scan
del_scan validsize [] s n = done []
del_scan validsize (x ∷ xs) s n =
    let e = add32 s n in
    let rest = del_scan validsize xs s n in
    let kept = record x { size = sub32 s x.start } in
    if ltb s x.start
    then (if ltb e x.start
        then done (x ∷ xs)
        else if ltb e (end_of x)
        then done (record { start = e; size = sub32 (end_of x) e } ∷ xs)
        else again xs s n)
    else if ltb s (end_of x)
    then (if leb (end_of x) e
        then (if x.start == s then done xs else again (kept ∷ xs) s n)
        else if x.start == s
        then done (record { start = e; size = sub32 x.size (sub32 e x.start) } ∷ xs)
        else done (kept ∷ safe_insert validsize e (sub32 (end_of x) e) xs))
    else pass x rest

unfoldable pub del_loop : ℕ → IntervalArray → ℕ → ℕ → Result IntervalArray
del_loop zero xs s n = fault no_fuel
del_loop (suc fuel) xs s n = elim (del_scan (length xs) xs s n) [
  | done ys ↦ ok ys
  | again ys s' n' ↦ del_loop fuel ys s' n'
]

-- `DelInterval`. A recursive call follows a `SafeDelete`, or shortens an entry that starts before
-- `start` and is passed from then on.
unfoldable pub del_interval : IntervalArray → ℕ → ℕ → Result IntervalArray
del_interval xs s n = if n == 0 then fault assertion else del_loop (suc (2 * length xs)) xs s n
