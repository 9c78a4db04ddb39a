-- ===== src/Timer/Spacing.antt =====
-- How often `check_timeout` of core/timer.cpp can call a timer.
use rabbitstreamer.Prelude.{
  ◌≤◌, ◌⊎◌, leb, inr, All, ◌≢◌, ◌*◌, true, inl, Bool, ℕ, suc, refl, ◌+◌, ◌≡◌, ◌&&◌, ◌==◌, false,
  if◌then◌else◌, List, [], ◌∷◌, ◌++◌, arith,
}
use rabbitstreamer.Timer.{TimerItem, Timer, check_timeout}
use rabbitstreamer.Timer.Check.{check_timeout_lem, due_calls, restarted}

-- One check after the other, at the given times: all calls that are made.
unfoldable pub run : List ℕ → Timer → List (ℕ × ℕ)
run [] t = []
run (curr ∷ times) t = let (t', calls) = check_timeout curr t in calls ++ run times t'

module _ (callback timerid : ℕ) where
  -- How many of the calls are of this callback and number.
  unfoldable pub calls_of : List (ℕ × ℕ) → ℕ
  calls_of [] = 0
  calls_of ((c, i) ∷ calls) =
      let rest = calls_of calls in if c == callback && i == timerid then suc rest else rest

  abbrev pub is_it : TimerItem → Bool
  is_it y = y.callback == callback && y.timerid == timerid

  abbrev pub Lacks : List TimerItem → Type 0
  Lacks [] = Unit {0}
  Lacks (y ∷ ys) = (is_it y ≡ false) × Lacks ys

  -- One of the timers has the callback and the number; it has this timeout, and was called last at
  -- the time `last`.
  abbrev pub Only : ℕ → ℕ → List TimerItem → Type 0
  Only timeout last [] = ⊥
  Only timeout last (y ∷ ys) =
      ((is_it y ≡ true) × (y.timeout ≡ timeout) × (y.last_signal_time ≡ last) × Lacks ys)
      ⊎ ((is_it y ≡ false) × Only timeout last ys)

  calls_of-append : (l k : List (ℕ × ℕ)) → calls_of (l ++ k) ≡ calls_of l + calls_of k
  unfolding calls_of
  calls_of-append [] k = omega arith
  calls_of-append (c ∷ l) k = ground (arith, calls_of-append l k)

  restarted-Lacks : (curr : ℕ) (xs : List TimerItem) → Lacks xs → Lacks (restarted curr xs)
  unfolding restarted
  restarted-Lacks curr [] h = tt
  restarted-Lacks curr (z ∷ xs) h = ground (arith, restarted-Lacks curr xs h.1)

  calls_of-Lacks : (curr : ℕ) (xs : List TimerItem) → Lacks xs → calls_of (due_calls curr xs) ≡ 0
  unfolding calls_of due_calls
  calls_of-Lacks curr [] h = refl
  calls_of-Lacks curr (z ∷ xs) h = ground (arith, calls_of-Lacks curr xs h.1)

  abbrev due : ℕ → ℕ → ℕ → Bool
  due timeout last curr = leb (last + timeout) curr

  restarted-Only :
      (timeout last curr : ℕ) (xs : List TimerItem)
      → Only timeout last xs
      → Only timeout (if due timeout last curr then curr else last) (restarted curr xs)
  unfolding restarted
  restarted-Only timeout last curr [] h = h
  restarted-Only timeout last curr (y ∷ xs) (inl h) =
      inl (ground (arith, restarted-Lacks curr xs h.3))
  restarted-Only timeout last curr (y ∷ xs) (inr h) =
      inr (ground (arith, restarted-Only timeout last curr xs h.1))

  calls_of-Only :
      (timeout last curr : ℕ) (xs : List TimerItem)
      → Only timeout last xs
      → calls_of (due_calls curr xs) ≡ (if due timeout last curr then 1 else 0)
  unfolding calls_of due_calls
  calls_of-Only timeout last curr [] h = absurd h
  calls_of-Only timeout last curr (y ∷ xs) (inl h) = ground (arith, calls_of-Lacks curr xs h.3)
  calls_of-Only timeout last curr (y ∷ xs) (inr h) =
      ground (arith, calls_of-Only timeout last curr xs h.1)

  suc_mul : (n t : ℕ) → suc n * t ≡ n * t + t
  suc_mul n t = grind arith

  -- Once the timers have been started, a timer that was called last at a given time is called again
  -- by any number of checks at most as often as its timeout fits between that time and the latest
  -- of the checks, whatever their times are and whatever other timers there are.
  pub run_spacing :
      (timeout last hi : ℕ) (times : List ℕ) (t : Timer)
      → t.last_thread_time ≢ 0
      → Only timeout last t.timer_vector
      → All (λ curr. curr ≤ hi) times
      → last ≤ hi
      → calls_of (run times t) * timeout + last ≤ hi
  unfolding run
  run_spacing timeout last hi [] t started only below within = unfold calls_of in omega arith
  run_spacing timeout last hi (curr ∷ times) t started only below within =
      let t' = record t { timer_vector = restarted curr t.timer_vector } in
      let last' = if due timeout last curr then curr else last in
      let rest =
        run_spacing timeout last' hi times t' started
          (restarted-Only timeout last curr t.timer_vector only) below.1
          (ground (arith, below.0)) in
      rw ((check_timeout_lem curr t).1 started) (
        ground (
          arith,
          rest,
          calls_of-append (due_calls curr t.timer_vector) (run times t'),
          calls_of-Only timeout last curr t.timer_vector only,
          suc_mul (calls_of (run times t')) timeout,
        ))
