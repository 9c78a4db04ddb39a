-- ===== src/Timer/Tests.antt =====
-- core/timer.cpp with two timers.
use rabbitstreamer.Prelude.{ℕ, ◌≤◌, ◌+◌, ◌*◌, refl, inl, inr, [], ◌∷◌, arith, true}
use rabbitstreamer.Timer.{TimerItem, Timer}
use rabbitstreamer.Timer.Spacing.{run, calls_of, run_spacing}

abbrev item : ℕ → ℕ → TimerItem
item timerid last = record {
  timeout = 5000;
  timerid = timerid;
  last_signal_time = last;
  callback = 7;
}

-- The timers 0 and 1 of one callback, started at the time 1000.
abbrev two : Timer
two = record {
  thread_start_flag = true;
  last_thread_time = 1000;
  timer_vector = item 0 1000 ∷ (item 1 1000 ∷ []);
}

-- Timer 1 is checked four times up to the time 12000.
run_spacing_example :
    calls_of 7 1 (run (5900 ∷ (6000 ∷ (6500 ∷ (11000 ∷ [])))) two) * 5000 + 1000 ≤ 12000
run_spacing_example =
    run_spacing 7 1 5000 1000 12000 (5900 ∷ (6000 ∷ (6500 ∷ (11000 ∷ [])))) two (omega arith)
      (inr (refl, inl (refl, refl, refl, tt))) (omega arith) (omega arith)
