-- ===== src/BitrateCalculator.antt =====
-- core/bitrate_calculator.h and core/bitrate_calculator.cpp (`RsBitrateCalculator`): the bit rate of
-- a connection, which is logged about once a second. All of its arithmetic is in `uint32_t`.
pub mod Bounds
mod Tests
use rabbitstreamer.Prelude.{
  ◌>>=◌, ℕ, ◌+◌, ◌-◌, ◌*◌, ◌/◌, ◌%◌, ltb, ◌==◌, if◌then◌else◌, Option, none, some, Result, ok,
  fault, divided_by_zero, u32_mod, add32, sub32,
}

pub record BitrateCalculator : Type 0 where
  pub recv_buffer_size : ℕ
  pub last_recv_msec : ℕ

-- The constructor.
abbrev pub fresh : BitrateCalculator
fresh = record { recv_buffer_size = 0; last_recv_msec = 0 }

-- `struct timeval`
pub record Timeval : Type 0 where
  pub tv_sec : ℕ
  pub tv_usec : ℕ

-- `curr_ms`
unfoldable pub curr_ms : Timeval → ℕ
curr_ms tv = (tv.tv_sec * 1000 + tv.tv_usec / 1000) % u32_mod

-- `1000 * recv_buffer_size / (1024 * delta_ms)`
unfoldable pub kbps : ℕ → ℕ → Result ℕ
kbps size delta_ms =
    let divisor = 1024 * delta_ms % u32_mod in
    if divisor == 0 then fault divided_by_zero else ok (1000 * size % u32_mod / divisor)

-- `update_buffersize`, where `none` says that `gettimeofday` fails: the rate that it logs, if any
unfoldable pub update_buffersize :
    Option Timeval → ℕ → BitrateCalculator → Result (Option ℕ × BitrateCalculator)
update_buffersize none size c =
    ok (none, record c { recv_buffer_size = add32 c.recv_buffer_size size })
update_buffersize (some tv) size c =
    let total = add32 c.recv_buffer_size size in
    let delta_ms = sub32 (curr_ms tv) c.last_recv_msec in
    let logged = kbps total delta_ms >>= λ rate.
    ok (some rate, record { recv_buffer_size = 0; last_recv_msec = curr_ms tv }) in
    if ltb 1000 delta_ms then logged else ok (none, record c { recv_buffer_size = total })
