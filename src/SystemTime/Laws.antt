-- ===== src/SystemTime/Laws.antt =====
-- When the time of core/system_time.cpp moves.
use rabbitstreamer.Prelude.{
  ℕ, refl, ◌+◌, ◌*◌, ◌/◌, ◌≤◌, ◌≡◌, ◌≢◌, List, [], ◌∷◌, Option, none, some, arith,
}
use rabbitstreamer.SystemTime.{
  SystemTime, fresh, resolution_us, update_system_time_ms, get_system_time_ms,
  get_system_startup_time_ms,
}

-- The clock is updated at the given times, one after the other.
unfoldable pub updates : List ℕ → SystemTime → SystemTime
updates [] t = t
updates (now ∷ nows) t = updates nows (update_system_time_ms (some now) t).1

-- Each time is later than the one before, by five minutes at most.
abbrev pub Steady : ℕ → List ℕ → Type 0
Steady before [] = Unit {0}
Steady before (now ∷ nows) =
    (before ≤ now) × (now ≤ before + 1000 * resolution_us) × Steady now nows

updates-keep :
    (nows : List ℕ) (t : SystemTime)
    → t.system_time_us_cache ≢ 0
    → Steady t.system_time_us_cache nows
    → (updates nows t).system_time_startup_time ≡ t.system_time_startup_time
unfolding updates update_system_time_ms
updates-keep [] t set steady = refl
updates-keep (now ∷ nows) t set steady =
    let t' = (update_system_time_ms (some now) t).1 in
    let moved : t'.system_time_us_cache ≡ now = ground arith in
    let kept : t'.system_time_startup_time ≡ t.system_time_startup_time = ground arith in
    ground (arith, updates-keep nows t')

-- As long as the clock is updated every five minutes and the system's clock does not go back, the
-- time of the start stays the one at which the clock was first updated.
pub startup_time_lem :
    (first : ℕ) (nows : List ℕ)
    → first ≢ 0
    → Steady first nows
    → (get_system_startup_time_ms none (updates (first ∷ nows) fresh)).0 ≡ first / 1000
unfolding get_system_startup_time_ms updates update_system_time_ms
startup_time_lem first nows set steady =
    let t : SystemTime = record {
      system_time_us_cache = first;
      system_time_startup_time = first;
    } in
    let kept = updates-keep nows t set steady in ground (arith, kept)

-- Between two updates the clock stands still: once it has been set, what it returns is the time of
-- the last update, whatever the system's clock shows by then, and reading it changes nothing.
pub get_system_time_ms-update :
    (now_us : ℕ) (later : Option ℕ) (t : SystemTime)
    → now_us ≢ 0
    → get_system_time_ms later (update_system_time_ms (some now_us) t).1
      ≡ (now_us / 1000, (update_system_time_ms (some now_us) t).1)
unfolding get_system_time_ms update_system_time_ms
get_system_time_ms-update now_us later t set = ground arith
