-- ===== src/SystemTime.antt =====
-- core/system_time.h and core/system_time.cpp (`SystemTime`): the time of the process, which is read
-- from the system by `update_system_time_ms` only and kept in between. What `gettimeofday` gives,
-- in microseconds, is a parameter; that times are an `int64_t` is left out.
pub mod Laws
use rabbitstreamer.Prelude.{ℕ, ◌+◌, ◌-◌, ◌*◌, ◌/◌, ltb, ◌==◌, if◌then◌else◌, Option, none, some}

pub record SystemTime : Type 0 where
  pub system_time_us_cache : ℕ
  pub system_time_startup_time : ℕ

-- The initial values of the fields.
abbrev pub fresh : SystemTime
fresh = record { system_time_us_cache = 0; system_time_startup_time = 0 }

-- `kSystemTime_Resolution_us`
abbrev pub resolution_us : ℕ
resolution_us = 300 * 1000

-- `update_system_time_ms`, where `none` says that `gettimeofday` fails: what it returns, or `none`
-- for -1. A difference below 0 counts as 0.
unfoldable pub update_system_time_ms : Option ℕ → SystemTime → Option ℕ × SystemTime
update_system_time_ms none t = (none, t)
update_system_time_ms (some now_us) t =
    let diff = now_us - t.system_time_us_cache in
    let startup =
      if ltb (1000 * resolution_us) diff
      then t.system_time_startup_time + diff
      else t.system_time_startup_time in
    (
      some (now_us / 1000),
      if t.system_time_us_cache == 0
          then record { system_time_us_cache = now_us; system_time_startup_time = now_us }
          else record { system_time_us_cache = now_us; system_time_startup_time = startup },
    )

-- `get_system_time_ms`. What it returns is what the cache holds, also if the update fails.
unfoldable pub get_system_time_ms : Option ℕ → SystemTime → ℕ × SystemTime
get_system_time_ms now t =
    let t' = if t.system_time_us_cache == 0 then (update_system_time_ms now t).1 else t in
    (t'.system_time_us_cache / 1000, t')

unfoldable pub get_system_startup_time_ms : Option ℕ → SystemTime → ℕ × SystemTime
get_system_startup_time_ms now t =
    let t' = if t.system_time_startup_time == 0 then (update_system_time_ms now t).1 else t in
    (t'.system_time_startup_time / 1000, t')
