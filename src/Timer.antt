-- ===== src/Timer.antt =====
-- core/timer.h and core/timer.cpp (`RsTimer`): the timers of a process, which `loop` checks every
-- half second. A callback is named by a number, and does not itself add or delete timers. Times are
-- in milliseconds; that they are an `int64_t` is left out.
pub mod Check
pub mod Delete
pub mod Spacing
mod Tests
use rabbitstreamer.Prelude.{
  ℕ, zero, suc, ◌+◌, Bool, true, false, not, ◌&&◌, leb, ◌==◌, if◌then◌else◌, List, [], ◌∷◌, ◌++◌,
  Result, ok, fault, out_of_bounds, assertion, length, drop, Option, none, some,
}

-- `struct timer_item`
pub record TimerItem : Type 0 where
  pub timeout : ℕ
  pub timerid : ℕ
  pub last_signal_time : ℕ
  pub callback : ℕ

pub record Timer : Type 0 where
  pub thread_start_flag : Bool
  pub last_thread_time : ℕ
  pub timer_vector : List TimerItem

-- The constructor.
abbrev pub fresh : Timer
fresh = record { thread_start_flag = false; last_thread_time = 0; timer_vector = [] }

-- `timer_item::operator==`
unfoldable pub same_item : TimerItem → TimerItem → Bool
same_item a b = a.callback == b.callback && a.timeout == b.timeout && a.timerid == b.timerid

-- `add_timer`, which asserts that there is a callback
unfoldable pub add_timer : ℕ → ℕ → Option ℕ → Timer → Result Timer
add_timer timeout timerid none t = fault assertion
add_timer timeout timerid (some callback) t = ok (record {
  thread_start_flag = true;
  last_thread_time = t.last_thread_time;
  timer_vector =
      t.timer_vector
      ++ (record {
        timeout = timeout;
        timerid = timerid;
        last_signal_time = 0;
        callback = callback;
      })
        ∷ [];
})

-- The elements that `remove(begin, end, item)` moves to the front, in their order.
unfoldable pub others : TimerItem → List TimerItem → List TimerItem
others item [] = []
others item (x ∷ xs) = let rest = others item xs in if same_item x item then rest else x ∷ rest

-- `timer_vector.erase(remove(...))`: `remove` leaves what stood behind the moved elements, and
-- `erase` takes out the one element to which the result points, if it points to one.
unfoldable pub delete_timer : ℕ → ℕ → ℕ → Timer → Result Timer
delete_timer timeout timerid callback t =
    let item : TimerItem = record {
      timeout = timeout;
      timerid = timerid;
      last_signal_time = 0;
      callback = callback;
    } in
    let kept = others item t.timer_vector in
    if leb (length t.timer_vector) (length kept)
    then fault out_of_bounds
    else ok (record t { timer_vector = kept ++ drop (suc (length kept)) t.timer_vector })

-- `delta >= timeout`
unfoldable pub is_due : ℕ → TimerItem → Bool
is_due curr x = leb (x.last_signal_time + x.timeout) curr

abbrev pub signalled : ℕ → TimerItem → TimerItem
signalled curr x = record x { last_signal_time = curr }

-- The loop of `check_timeout`: the timers afterwards, and the calls of `handle_timeout` that it
-- makes, each as the callback and the timer's number.
unfoldable pub signal_due : ℕ → List TimerItem → List TimerItem × List (ℕ × ℕ)
signal_due curr [] = ([], [])
signal_due curr (x ∷ xs) =
    let (ys, calls) = signal_due curr xs in
    if is_due curr x
    then (signalled curr x ∷ ys, (x.callback, x.timerid) ∷ calls)
    else (x ∷ ys, calls)

-- The loop of the first call.
unfoldable pub start_all : ℕ → List TimerItem → List TimerItem
start_all curr [] = []
start_all curr (x ∷ xs) = signalled curr x ∷ start_all curr xs

-- `check_timeout` at the time `curr`
unfoldable pub check_timeout : ℕ → Timer → Timer × List (ℕ × ℕ)
check_timeout curr t =
    let (timers, calls) = signal_due curr t.timer_vector in
    if t.last_thread_time == 0
    then (record t { last_thread_time = curr; timer_vector = start_all curr t.timer_vector }, [])
    else (record t { timer_vector = timers }, calls)
