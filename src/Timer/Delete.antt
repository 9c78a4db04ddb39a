-- ===== src/Timer/Delete.antt =====
-- `delete_timer` of core/timer.cpp, which erases one element where it means to erase a range.
use rabbitstreamer.Prelude.{
  length-drop, length-append, ℕ, suc, refl, ◌+◌, ◌≤◌, ◌≡◌, if◌then◌else◌, List, [], ◌∷◌, ◌++◌,
  append-nil, ok, fault, out_of_bounds, length, drop, drop_all, arith,
}
use rabbitstreamer.Timer.{TimerItem, Timer, same_item, others, delete_timer}

abbrev item_of : ℕ → ℕ → ℕ → TimerItem
item_of timeout timerid callback = record {
  timeout = timeout;
  timerid = timerid;
  last_signal_time = 0;
  callback = callback;
}

-- How many of the timers are the given one.
unfoldable pub occurrences : TimerItem → List TimerItem → ℕ
occurrences item [] = 0
occurrences item (x ∷ xs) =
    let rest = occurrences item xs in if same_item x item then suc rest else rest

length-others :
    (item : TimerItem) (xs : List TimerItem)
    → length (others item xs) + occurrences item xs ≡ length xs
unfolding others occurrences
length-others item [] = refl
length-others item (x ∷ xs) = ground (arith, length-others item xs)

-- A timer that was added once is deleted: all others stay, in their order. A timer that was never
-- added makes `delete_timer` erase behind the end of the vector.
pub delete_timer_lem :
    (timeout timerid callback : ℕ) (t : Timer)
    → (occurrences (item_of timeout timerid callback) t.timer_vector ≡ 1
        → delete_timer timeout timerid callback t
          ≡ ok (record t {
            timer_vector = others (item_of timeout timerid callback) t.timer_vector;
          }))
      × (occurrences (item_of timeout timerid callback) t.timer_vector ≡ 0
          → delete_timer timeout timerid callback t ≡ fault out_of_bounds)
unfolding delete_timer
delete_timer_lem timeout timerid callback t =
    let item = item_of timeout timerid callback in
    let kept = others item t.timer_vector in
    let sized = length-others item t.timer_vector in
    (
      λ once. ground (arith, sized, drop_all (suc (length kept)) t.timer_vector, append-nil kept),
      λ never. ground (arith, sized),
    )

-- A timer that was added more than once is not deleted: one timer is taken out, and all but one of
-- the timers are still checked.
pub delete_timer_repeated :
    (timeout timerid callback : ℕ) (t : Timer)
    → 2 ≤ occurrences (item_of timeout timerid callback) t.timer_vector
    → (t' : Timer) × (delete_timer timeout timerid callback t ≡ ok t')
      × (length t'.timer_vector + 1 ≡ length t.timer_vector)
unfolding delete_timer
delete_timer_repeated timeout timerid callback t twice =
    let kept = others (item_of timeout timerid callback) t.timer_vector in
    let sized = length-others (item_of timeout timerid callback) t.timer_vector in
    (
      record t { timer_vector = kept ++ drop (suc (length kept)) t.timer_vector },
      ground (arith, sized),
      omega (
        arith,
        sized,
        length-append kept (drop (suc (length kept)) t.timer_vector),
        length-drop (suc (length kept)) t.timer_vector,
      ),
    )
