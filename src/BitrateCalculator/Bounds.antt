-- ===== src/BitrateCalculator/Bounds.antt =====
-- When the rate of core/bitrate_calculator.cpp is right, and when it cannot be computed.
use rabbitstreamer.Prelude.{
  ℕ, ◌+◌, ◌-◌, ◌*◌, ◌/◌, ◌%◌, ◌≤◌, ◌<◌, ◌≡◌, ◌≢◌, some, ok, fault, divided_by_zero, u32_mod,
  uint_max, sub32, add32_exact, sub32_exact, arith,
}
use rabbitstreamer.BitrateCalculator.{BitrateCalculator, Timeval, curr_ms, kbps, update_buffersize}

div_bounds : (n d : ℕ) → 0 < d → (n / d * d ≤ n) × (n < (n / d + 1) * d)
div_bounds n d h = grind arith

kbps_exact :
    (size delta : ℕ)
    → 0 < delta
    → delta < 4194304
    → size < 4294968
    → kbps size delta ≡ ok (1000 * size / (1024 * delta))
unfolding kbps
kbps_exact size delta some_time short small =
    let same : 1024 * delta % u32_mod ≡ 1024 * delta = omega arith in
    let same' : 1000 * size % u32_mod ≡ 1000 * size = omega arith in ground (arith, same, same')

curr_ms_bound : (tv : Timeval) → curr_ms tv ≤ uint_max
unfolding curr_ms
curr_ms_bound tv = omega arith

-- What is logged after more than a second and less than 4194304 ms, where less than 4294968 bytes
-- have come in, is the number of KiB per second rounded down, each of 1024 bytes: the bytes are at
-- least those of that rate, and less than those of a rate that is higher by one. It is no number
-- of kilobits, though the log calls it kbps. The count starts again at 0.
pub update_buffersize_bounds :
    (tv : Timeval) (size : ℕ) (c : BitrateCalculator)
    → c.last_recv_msec ≤ curr_ms tv
    → 1000 < curr_ms tv - c.last_recv_msec
    → curr_ms tv - c.last_recv_msec < 4194304
    → c.recv_buffer_size + size < 4294968
    → (rate : ℕ) × (update_buffersize (some tv) size c
        ≡ ok (some rate, record { recv_buffer_size = 0; last_recv_msec = curr_ms tv }))
      × (rate * (1024 * (curr_ms tv - c.last_recv_msec)) ≤ 1000 * (c.recv_buffer_size + size))
      × (1000 * (c.recv_buffer_size + size) < (rate + 1) * (1024 * (curr_ms tv - c.last_recv_msec)))
unfolding update_buffersize
update_buffersize_bounds tv size c order late early small =
    let total = c.recv_buffer_size + size in
    let delta = curr_ms tv - c.last_recv_msec in
    let (low, high) = div_bounds (1000 * total) (1024 * delta) (omega arith) in
    let computed : kbps total delta ≡ ok (1000 * total / (1024 * delta)) =
      kbps_exact total delta (omega arith) (omega arith) (omega arith) in
    (
      1000 * total / (1024 * delta),
      ground (
        arith,
        add32_exact c.recv_buffer_size size,
        sub32_exact (curr_ms tv) c.last_recv_msec order,
        curr_ms_bound tv,
        computed,
      ),
      low,
      high,
    )

-- Where the time since the last rate is a multiple of 4194304 ms, about seventy minutes, the
-- divisor wraps to 0 and the process divides by it, whatever has come in.
pub update_buffersize_divides :
    (tv : Timeval) (size k : ℕ) (c : BitrateCalculator)
    → sub32 (curr_ms tv) c.last_recv_msec ≡ k * 4194304
    → k ≢ 0
    → update_buffersize (some tv) size c ≡ fault divided_by_zero
unfolding update_buffersize kbps
update_buffersize_divides tv size k c e some_time =
    let zero_divisor : 1024 * sub32 (curr_ms tv) c.last_recv_msec % u32_mod ≡ 0 = omega arith in
    let late : 1000 < sub32 (curr_ms tv) c.last_recv_msec = omega arith in
    ground (arith, zero_divisor, late)
