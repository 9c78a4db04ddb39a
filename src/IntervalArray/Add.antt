-- ===== src/IntervalArray/Add.antt =====
-- `AddInterval` of core/interval_array.h: it ends, keeps the array as `Verify` wants it, and adds
-- exactly the blocks of the interval.
use rabbitstreamer.Prelude.{
  ℕ, zero, suc, ◌+◌, ◌-◌, ◌≤◌, ◌<◌, ◌≡◌, refl, true, ◌||◌, [], ◌∷◌, length, uint_max, add32_exact,
  sub32_exact, Result, ok, fault, dec_lt, ◌∙◌, sym, ap, arith,
}
use rabbitstreamer.IntervalArray.{
  BlockInterval, IntervalArray, max_validsize, safe_insert, Scan, done, again, pass, next_after,
  add_scan, add_loop, add_interval,
}
use rabbitstreamer.IntervalArray.Queries.{find_block}
use rabbitstreamer.IntervalArray.Invariant.{
  inside, covers, Apart, IsVerified, Apart-mono, end_of_exact, covers_below, find_block-eq-covers,
}

-- What a scan for `[s, s + n)` over `xs` leaves, as far as the block `b` can tell: an array with
-- the interval added, or a smaller problem with the same answer.
abbrev Grows : ℕ → ℕ → IntervalArray → ℕ → ℕ → Scan → Type 0
Grows b lo xs s n (done ys) =
    Apart lo ys × (length ys ≤ suc (length xs)) × (covers ys b ≡ (covers xs b || inside s n b))
Grows b lo xs s n (again ys s' n') =
    Apart lo ys
    × (lo ≤ s')
    × (0 < n')
    × (s' + n' ≤ uint_max)
    × (suc (length ys) ≡ length xs)
    × ((covers ys b || inside s' n' b) ≡ (covers xs b || inside s n b))

-- The loop passes an entry that ends below the interval.
pass-Grows :
    (b lo : ℕ) (x : BlockInterval) (xs : IntervalArray) (s n : ℕ) (r : Scan)
    → Apart lo (x ∷ xs)
    → Grows b (suc (x.start + x.size)) xs s n r
    → Grows b lo (x ∷ xs) s n (pass x r)
unfolding pass covers
pass-Grows b lo x xs s n (done ys) a g = ground arith
pass-Grows b lo x xs s n (again ys s' n') a g = ground arith

next_after_gap :
    (lo : ℕ) (xs : IntervalArray) (e : ℕ) → Apart lo xs → next_after xs e ≡ true → Apart (suc e) xs
unfolding next_after
next_after_gap lo [] e a h = tt
next_after_gap lo (y ∷ ys) e a h = ground arith

module _ (b validsize lo : ℕ) (x : BlockInterval) (xs : IntervalArray) (s n : ℕ)
    (a : Apart lo (x ∷ xs)) (above : lo ≤ s) (pos : 0 < n) (fits : s + n ≤ uint_max)
    (room : validsize < max_validsize) where
  add_before : s < x.start → Grows b lo (x ∷ xs) s n (add_scan validsize (x ∷ xs) s n)
  unfolding add_scan safe_insert covers
  add_before h = ground (
    arith,
    end_of_exact x a.2,
    add32_exact s n fits,
    add32_exact x.size (x.start - s),
    sub32_exact x.start s,
    covers_below (suc (x.start + x.size)) xs b a.3,
    Apart-mono lo (suc (x.start + x.size)) xs,
  )

  add_touching :
      x.start ≤ s → s ≤ x.start + x.size → Grows b lo (x ∷ xs) s n (add_scan validsize (x ∷ xs) s n)
  unfolding add_scan next_after covers
  add_touching h k = ground (
    arith,
    end_of_exact x a.2,
    add32_exact s n fits,
    add32_exact n (s - x.start),
    sub32_exact s x.start,
    sub32_exact (s + n) x.start,
    next_after_gap (suc (x.start + x.size)) xs (s + n) a.3,
  )

  add_scan-beyond :
      x.start + x.size < s → add_scan validsize (x ∷ xs) s n ≡ pass x (add_scan validsize xs s n)
  unfolding add_scan
  add_scan-beyond h = ground (arith, end_of_exact x a.2)

-- The scan adds the interval, or drops an entry and leaves the union to a recursive call.
add_scan-Grows :
    (b validsize lo : ℕ) (xs : IntervalArray) (s n : ℕ)
    → Apart lo xs
    → lo ≤ s
    → 0 < n
    → s + n ≤ uint_max
    → validsize < max_validsize
    → Grows b lo xs s n (add_scan validsize xs s n)
add_scan-Grows b validsize lo [] s n a above pos fits room =
    unfold add_scan safe_insert covers in ground arith
add_scan-Grows b validsize lo (x ∷ xs) s n a above pos fits room = elim (dec_lt s x.start) [
  | yes h ↦ add_before b validsize lo x xs s n a above pos fits room h
  | no h ↦ elim (dec_lt (x.start + x.size) s) [
    | yes k ↦ rw (add_scan-beyond b validsize lo x xs s n a above pos fits room k) (
        pass-Grows b lo x xs s n (add_scan validsize xs s n) a
          (add_scan-Grows b validsize (suc (x.start + x.size)) xs s n a.3 k pos fits room))
    | no k ↦ add_touching b validsize lo x xs s n a above pos fits room (omega arith) (omega arith)
  ]
]

-- What `AddInterval` leaves, as far as the block `b` can tell.
abbrev Added : ℕ → ℕ → IntervalArray → ℕ → ℕ → Result IntervalArray → Type 0
Added b lo xs s n (ok ys) =
    Apart lo ys × (length ys ≤ suc (length xs)) × (covers ys b ≡ (covers xs b || inside s n b))
Added b lo xs s n (fault e) = ⊥

-- A recursive call that adds the same blocks to a smaller array.
Added-again :
    (b lo : ℕ) (xs ys : IntervalArray) (s n s' n' : ℕ) (r : Result IntervalArray)
    → Grows b lo xs s n (again ys s' n')
    → Added b lo ys s' n' r
    → Added b lo xs s n r
Added-again b lo xs ys s n s' n' (ok zs) g h = ground arith
Added-again b lo xs ys s n s' n' (fault e) g h = h

-- One round of the recursion, by what the scan ends in.
module _ (fuel : ℕ) (xs : IntervalArray) (s n : ℕ) (some_block : s < uint_max) (pos : 0 < n) where
  add_loop-done :
      (ys : IntervalArray)
      → add_scan (length xs) xs s n ≡ done ys
      → add_loop (suc fuel) xs s n ≡ ok ys
  unfolding add_loop
  add_loop-done ys e = ground arith

  add_loop-again :
      (ys : IntervalArray) (s' n' : ℕ)
      → add_scan (length xs) xs s n ≡ again ys s' n'
      → add_loop (suc fuel) xs s n ≡ add_loop fuel ys s' n'
  unfolding add_loop
  add_loop-again ys s' n' e = ground arith

add_loop-Added :
    (b fuel lo : ℕ) (xs : IntervalArray) (s n : ℕ)
    → Apart lo xs
    → lo ≤ s
    → 0 < n
    → s + n ≤ uint_max
    → length xs < max_validsize
    → length xs < fuel
    → Added b lo xs s n (add_loop fuel xs s n)
add_loop-Added b zero lo xs s n a above pos fits room enough = absurd (omega arith)
add_loop-Added b (suc fuel) lo xs s n a above pos fits room enough =
    by_scan (add_scan (length xs) xs s n) refl
      (add_scan-Grows b (length xs) lo xs s n a above pos fits room)
      (λ ys s' n' g. add_loop-Added b fuel lo ys s' n' g.0 g.1 g.2 g.3 (omega arith) (omega arith))
  where
    by_scan :
        (r : Scan)
        → add_scan (length xs) xs s n ≡ r
        → Grows b lo xs s n r
        → ((ys : IntervalArray) (s' n' : ℕ)
            → Grows b lo xs s n (again ys s' n')
            → Added b lo ys s' n' (add_loop fuel ys s' n'))
        → Added b lo xs s n (add_loop (suc fuel) xs s n)
    by_scan (done ys) e g ih = rw (add_loop-done fuel xs s n (omega arith) pos ys e) g
    by_scan (again ys s' n') e g ih =
        rw (add_loop-again fuel xs s n (omega arith) pos ys s' n' e)
          (Added-again b lo xs ys s n s' n' (add_loop fuel ys s' n') g (ih ys s' n' g))

add_interval-Added :
    (b : ℕ) (xs : IntervalArray) (s n : ℕ)
    → IsVerified xs
    → s + n ≤ uint_max
    → length xs < max_validsize
    → Added b 0 xs s n (add_interval xs s n)
unfolding add_interval
add_interval-Added b xs s n a fits room = elim (dec_lt 0 n) [
  | yes pos ↦
      add_loop-Added b (suc (length xs)) 0 xs s n a (omega arith) pos fits room (omega arith)
  | no zero_size ↦ unfold add_loop in ground arith
]

Added-ok :
    (b lo : ℕ) (xs : IntervalArray) (s n : ℕ) (r : Result IntervalArray)
    → Added b lo xs s n r
    → (ys : IntervalArray) × (r ≡ ok ys)
Added-ok b lo xs s n (ok ys) h = (ys, refl)
Added-ok b lo xs s n (fault e) h = absurd h

-- Adding an interval that does not pass the largest `uint32_t` to a verified array with a free
-- place ends, leaves a verified array with at most one entry more, and a block is found
-- afterwards exactly if it was found before or lies in the interval.
pub add_interval_lem :
    (xs : IntervalArray) (s n : ℕ)
    → IsVerified xs
    → s + n ≤ uint_max
    → length xs < max_validsize
    → (ys : IntervalArray) × (add_interval xs s n ≡ ok ys)
      × IsVerified ys
      × (length ys ≤ suc (length xs))
      × ((b : ℕ) → find_block ys b ≡ (find_block xs b || inside s n b))
add_interval_lem xs s n a fits room =
    let (ys, e) =
      Added-ok 0 0 xs s n (add_interval xs s n) (add_interval-Added 0 xs s n a fits room) in
    let at = λ (b : ℕ). rw e at (add_interval-Added b xs s n a fits room) in
    (
      ys,
      e,
      (at 0).0,
      (at 0).1,
      λ b.
          find_block-eq-covers 0 ys b (at 0).0
          ∙ (at b).2
          ∙ ap (λ c. c || inside s n b) (sym (find_block-eq-covers 0 xs b a)),
    )
