-- ===== src/BitrateCalculator/Tests.antt =====
-- core/bitrate_calculator.cpp after two seconds.
use rabbitstreamer.Prelude.{ℕ, ◌≡◌, ◌≤◌, ◌<◌, ◌+◌, ◌-◌, ◌*◌, some, ok, arith}
use rabbitstreamer.BitrateCalculator.{BitrateCalculator, Timeval, curr_ms, update_buffersize}
use rabbitstreamer.BitrateCalculator.Bounds.{update_buffersize_bounds}

abbrev at_12_s : Timeval
at_12_s = record { tv_sec = 12; tv_usec = 500 }

abbrev since_10_s : BitrateCalculator
since_10_s = record { recv_buffer_size = 100000; last_recv_msec = 10000 }

at_12000 : curr_ms at_12_s ≡ 12000
unfolding curr_ms
at_12000 = omega arith

update_buffersize_bounds_example :
    (rate : ℕ) × (update_buffersize (some at_12_s) 16384 since_10_s
      ≡ ok (some rate, record { recv_buffer_size = 0; last_recv_msec = curr_ms at_12_s }))
    × (rate * (1024 * (curr_ms at_12_s - 10000)) ≤ 1000 * (100000 + 16384))
    × (1000 * (100000 + 16384) < (rate + 1) * (1024 * (curr_ms at_12_s - 10000)))
update_buffersize_bounds_example =
    update_buffersize_bounds at_12_s 16384 since_10_s (omega (arith, at_12000))
      (omega (arith, at_12000)) (omega (arith, at_12000)) (omega arith)
