-- ===== src/IntervalArray/Delete.antt =====
-- `DelInterval` of core/interval_array.h: it ends, keeps the array as `Verify` wants it, and which
-- blocks it removes. It stops at an entry that starts where the interval does and ends in it.
mod Pass
use Pass.{straddling, straddling-le, after, Shrinks, del_scan-Shrinks}
unfoldable pub use Pass.{deleted_size}
use rabbitstreamer.Prelude.{
  sym, ap, ◌∙◌, zero, ◌*◌, fault, ok, false, true, Result, ℕ, suc, ◌+◌, ◌≤◌, ◌<◌, ◌≡◌, refl, Bool,
  ◌&&◌, not, [], ◌∷◌, ltb, leb, ◌==◌, if◌then◌else◌, length, uint_max, add32_exact, sub32_exact,
  arith,
}
use rabbitstreamer.IntervalArray.{
  del_loop, del_interval, BlockInterval, IntervalArray, max_validsize, safe_insert, Scan, done,
  again, pass, del_scan,
}
use rabbitstreamer.IntervalArray.Queries.{find_block}
use rabbitstreamer.IntervalArray.Invariant.{
  IsVerified, find_block-eq-covers, inside, covers, Apart, Apart-mono, end_of_exact, covers_below,
}

-- What `DelInterval` leaves, as far as the block `b` can tell.
abbrev Removed : ℕ → ℕ → IntervalArray → ℕ → ℕ → Result IntervalArray → Type 0
Removed b lo xs s n (ok ys) =
    Apart lo ys × (length ys ≤ suc (length xs)) × (covers ys b ≡ after b xs s n)
Removed b lo xs s n (fault e) = ⊥

Removed-again :
    (b lo : ℕ) (xs ys : IntervalArray) (s n s' n' : ℕ) (r : Result IntervalArray)
    → Shrinks b lo xs s n (again ys s' n')
    → Removed b lo ys s n r
    → Removed b lo xs s n r
Removed-again b lo xs ys s n s' n' (ok zs) g h = ground arith
Removed-again b lo xs ys s n s' n' (fault e) g h = h

module _ (fuel : ℕ) (xs : IntervalArray) (s n : ℕ) where
  del_loop-done :
      (ys : IntervalArray)
      → del_scan (length xs) xs s n ≡ done ys
      → del_loop (suc fuel) xs s n ≡ ok ys
  unfolding del_loop
  del_loop-done ys e = ground arith

  del_loop-again :
      (ys : IntervalArray) (s' n' : ℕ)
      → del_scan (length xs) xs s n ≡ again ys s' n'
      → s' ≡ s
      → n' ≡ n
      → del_loop (suc fuel) xs s n ≡ del_loop fuel ys s n
  unfolding del_loop
  del_loop-again ys s' n' e p q = ground arith

del_loop-Removed :
    (b fuel lo : ℕ) (xs : IntervalArray) (s n : ℕ)
    → Apart lo xs
    → 0 < n
    → s + n ≤ uint_max
    → length xs < max_validsize
    → length xs + straddling s xs < fuel
    → Removed b lo xs s n (del_loop fuel xs s n)
del_loop-Removed b zero lo xs s n a pos fits room enough = absurd (omega arith)
del_loop-Removed b (suc fuel) lo xs s n a pos fits room enough =
    by_scan (del_scan (length xs) xs s n) refl
      (del_scan-Shrinks b (length xs) lo xs s n a pos fits room)
      (λ ys s' n' g. del_loop-Removed b fuel lo ys s n g.0 pos fits (omega arith) (omega arith))
  where
    by_scan :
        (r : Scan)
        → del_scan (length xs) xs s n ≡ r
        → Shrinks b lo xs s n r
        → ((ys : IntervalArray) (s' n' : ℕ)
            → Shrinks b lo xs s n (again ys s' n')
            → Removed b lo ys s n (del_loop fuel ys s n))
        → Removed b lo xs s n (del_loop (suc fuel) xs s n)
    by_scan (done ys) e g ih = rw (del_loop-done fuel xs s n ys e) g
    by_scan (again ys s' n') e g ih =
        rw (del_loop-again fuel xs s n ys s' n' e g.1 g.2)
          (Removed-again b lo xs ys s n s' n' (del_loop fuel ys s n) g (ih ys s' n' g))

del_interval-Removed :
    (b : ℕ) (xs : IntervalArray) (s n : ℕ)
    → IsVerified xs
    → 0 < n
    → s + n ≤ uint_max
    → length xs < max_validsize
    → Removed b 0 xs s n (del_interval xs s n)
unfolding del_interval
del_interval-Removed b xs s n a pos fits room =
    let positive : (n == 0) ≡ false = ground arith in
    rw positive (
      del_loop-Removed b (suc (2 * length xs)) 0 xs s n a pos fits room
        (omega (arith, straddling-le s xs)))

Removed-ok :
    (b lo : ℕ) (xs : IntervalArray) (s n : ℕ) (r : Result IntervalArray)
    → Removed b lo xs s n r
    → (ys : IntervalArray) × (r ≡ ok ys)
Removed-ok b lo xs s n (ok ys) h = (ys, refl)
Removed-ok b lo xs s n (fault e) h = absurd h

-- Deleting an interval of at least one block, that does not pass the largest `uint32_t`, from a
-- verified array with a free place ends and leaves a verified array with at most one entry more.
-- A block is found afterwards exactly if it was found before and is not one of the
-- `deleted_size` blocks from the interval's start on.
pub del_interval_lem :
    (xs : IntervalArray) (s n : ℕ)
    → IsVerified xs
    → 0 < n
    → s + n ≤ uint_max
    → length xs < max_validsize
    → (ys : IntervalArray) × (del_interval xs s n ≡ ok ys)
      × IsVerified ys
      × (length ys ≤ suc (length xs))
      × ((b : ℕ) → find_block ys b ≡ (find_block xs b && not (inside s (deleted_size xs s n) b)))
del_interval_lem xs s n a pos fits room =
    let (ys, e) =
      Removed-ok 0 0 xs s n (del_interval xs s n) (del_interval-Removed 0 xs s n a pos fits room) in
    let at = λ (b : ℕ). rw e at (del_interval-Removed b xs s n a pos fits room) in
    (
      ys,
      e,
      (at 0).0,
      (at 0).1,
      λ b.
          find_block-eq-covers 0 ys b (at 0).0
          ∙ (at b).2
          ∙ ap (λ c. c && not (inside s (deleted_size xs s n) b))
              (sym (find_block-eq-covers 0 xs b a)),
    )

-- No entry starts with the interval and ends before it does.
unfoldable pub none_short_at : IntervalArray → ℕ → ℕ → Bool
none_short_at [] s n = true
none_short_at (x ∷ xs) s n =
    not (x.start == s && ltb (x.start + x.size) (s + n)) && none_short_at xs s n

deleted_size_whole :
    (xs : IntervalArray) (s n : ℕ) → none_short_at xs s n ≡ true → deleted_size xs s n ≡ n
unfolding none_short_at deleted_size
deleted_size_whole [] s n h = refl
deleted_size_whole (x ∷ xs) s n h = ground (arith, deleted_size_whole xs s n)

-- Where no entry starts at the interval's start and ends before its end, `DelInterval` removes the
-- whole interval: under the conditions of the general statement, a block is found afterwards
-- exactly if it was found before and lies outside the interval.
pub del_interval_whole :
    (xs : IntervalArray) (s n : ℕ)
    → IsVerified xs
    → 0 < n
    → s + n ≤ uint_max
    → length xs < max_validsize
    → none_short_at xs s n ≡ true
    → (ys : IntervalArray) × (del_interval xs s n ≡ ok ys)
      × IsVerified ys
      × ((b : ℕ) → find_block ys b ≡ (find_block xs b && not (inside s n b)))
del_interval_whole xs s n a pos fits room short =
    let (ys, e, v, l, f) = del_interval_lem xs s n a pos fits room in
    (ys, e, v, rw (deleted_size_whole xs s n short) at f)
