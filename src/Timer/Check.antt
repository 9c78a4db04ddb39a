-- ===== src/Timer/Check.antt =====
-- What one call of `check_timeout` of core/timer.cpp does.
use rabbitstreamer.Prelude.{ℕ, refl, ◌+◌, ◌≡◌, ◌≢◌, leb, if◌then◌else◌, List, [], ◌∷◌, arith}
use rabbitstreamer.Timer.{TimerItem, Timer, is_due, signal_due, check_timeout}

-- The timers that are due, as the calls that they ask for.
unfoldable pub due_calls : ℕ → List TimerItem → List (ℕ × ℕ)
due_calls curr [] = []
due_calls curr (x ∷ xs) =
    let rest = due_calls curr xs in
    if leb (x.last_signal_time + x.timeout) curr then (x.callback, x.timerid) ∷ rest else rest

-- Every timer that is due has the given time, and every other one is what it was.
unfoldable pub restarted : ℕ → List TimerItem → List TimerItem
restarted curr [] = []
restarted curr (x ∷ xs) =
    (if leb (x.last_signal_time + x.timeout) curr then record x { last_signal_time = curr } else x)
    ∷ restarted curr xs

signal_due_lem :
    (curr : ℕ) (xs : List TimerItem) → signal_due curr xs ≡ (restarted curr xs, due_calls curr xs)
unfolding signal_due restarted due_calls is_due
signal_due_lem curr [] = refl
signal_due_lem curr (x ∷ xs) = ground (arith, signal_due_lem curr xs)

-- The first check calls nothing, whatever the timers are. A later check at a given time calls each
-- timer whose timeout has passed since its last call, once and in the order in which they were
-- added, and no other; these start again at the given time, and all others are what they were.
pub check_timeout_lem :
    (curr : ℕ) (t : Timer)
    → (t.last_thread_time ≡ 0 → (check_timeout curr t).1 ≡ [])
      × (t.last_thread_time ≢ 0
          → check_timeout curr t ≡ (
            record t { timer_vector = restarted curr t.timer_vector },
            due_calls curr t.timer_vector,
          ))
unfolding check_timeout
check_timeout_lem curr t =
    (λ first. ground (arith, first), λ later. ground (arith, signal_due_lem curr t.timer_vector))
