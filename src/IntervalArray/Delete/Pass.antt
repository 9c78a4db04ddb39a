-- ===== src/IntervalArray/Delete/Pass.antt =====
-- One pass of the loop of `DelInterval` in core/interval_array.h.
use rabbitstreamer.Prelude.{
  dec_lt, ℕ, suc, ◌+◌, ◌≤◌, ◌<◌, ◌≡◌, refl, Bool, ◌&&◌, not, [], ◌∷◌, ltb, leb, ◌==◌, if◌then◌else◌,
  length, uint_max, add32_exact, sub32_exact, arith,
}
use rabbitstreamer.IntervalArray.{
  BlockInterval, IntervalArray, max_validsize, safe_insert, Scan, done, again, pass, del_scan,
}
use rabbitstreamer.IntervalArray.Invariant.{
  inside, covers, Apart, Apart-mono, end_of_exact, covers_below,
}

-- How many blocks from `s` on the call removes: all `n`, but where an entry starts at `s` and
-- ends no later than the interval, only those of this entry.
unfoldable pub deleted_size : IntervalArray → ℕ → ℕ → ℕ
deleted_size [] s n = n
deleted_size (x ∷ xs) s n =
    if x.start == s && leb (x.start + x.size) (s + n) then x.size else deleted_size xs s n

-- The entries that start before `s` and end after it.
unfoldable pub straddling : ℕ → IntervalArray → ℕ
straddling s [] = 0
straddling s (x ∷ xs) =
    (if ltb x.start s && ltb s (x.start + x.size) then 1 else 0) + straddling s xs

pub straddling-le : (s : ℕ) (xs : IntervalArray) → straddling s xs ≤ length xs
unfolding straddling
straddling-le s [] = omega arith
straddling-le s (x ∷ xs) = ground (arith, straddling-le s xs)

pub deleted_size_above :
    (lo : ℕ) (xs : IntervalArray) (s n : ℕ) → Apart lo xs → s < lo → deleted_size xs s n ≡ n
unfolding deleted_size
deleted_size_above lo [] s n a h = refl
deleted_size_above lo (x ∷ xs) s n a h =
    ground (arith, deleted_size_above (suc (x.start + x.size)) xs s n a.3)

-- The answer for the block `b` that the call is to give.
abbrev pub after : ℕ → IntervalArray → ℕ → ℕ → Bool
after b xs s n = covers xs b && not (inside s (deleted_size xs s n) b)

-- What a scan leaves, as far as the block `b` can tell.
abbrev pub Shrinks : ℕ → ℕ → IntervalArray → ℕ → ℕ → Scan → Type 0
Shrinks b lo xs s n (done ys) =
    Apart lo ys × (length ys ≤ suc (length xs)) × (covers ys b ≡ after b xs s n)
Shrinks b lo xs s n (again ys s' n') =
    Apart lo ys
    × (s' ≡ s)
    × (n' ≡ n)
    × (length ys ≤ length xs)
    × (length ys + straddling s ys < length xs + straddling s xs)
    × (after b ys s n ≡ after b xs s n)

pass-Shrinks :
    (b lo : ℕ) (x : BlockInterval) (xs : IntervalArray) (s n : ℕ) (r : Scan)
    → Apart lo (x ∷ xs)
    → x.start + x.size ≤ s
    → Shrinks b (suc (x.start + x.size)) xs s n r
    → Shrinks b lo (x ∷ xs) s n (pass x r)
unfolding pass covers deleted_size straddling
pass-Shrinks b lo x xs s n (done ys) a h g = ground arith
pass-Shrinks b lo x xs s n (again ys s' n') a h g = ground arith

module _ (b validsize lo : ℕ) (x : BlockInterval) (xs : IntervalArray) (s n : ℕ)
    (a : Apart lo (x ∷ xs)) (pos : 0 < n) (fits : s + n ≤ uint_max)
    (room : validsize < max_validsize) where
  del_before : s < x.start → Shrinks b lo (x ∷ xs) s n (del_scan validsize (x ∷ xs) s n)
  unfolding del_scan covers deleted_size straddling
  del_before h = ground (
    arith,
    end_of_exact x a.2,
    add32_exact s n fits,
    sub32_exact (x.start + x.size) (s + n),
    covers_below (suc (x.start + x.size)) xs b a.3,
    Apart-mono lo (suc (x.start + x.size)) xs,
    deleted_size_above (suc (x.start + x.size)) xs s n a.3,
  )

  del_at : x.start ≡ s → Shrinks b lo (x ∷ xs) s n (del_scan validsize (x ∷ xs) s n)
  unfolding del_scan covers deleted_size straddling
  del_at h = ground (
    arith,
    end_of_exact x a.2,
    add32_exact s n fits,
    sub32_exact (s + n) x.start,
    sub32_exact x.size n,
    covers_below (suc (x.start + x.size)) xs b a.3,
    Apart-mono lo (suc (x.start + x.size)) xs,
    deleted_size_above (suc (x.start + x.size)) xs s n a.3,
  )

  del_across :
      x.start < s
      → s < x.start + x.size
      → Shrinks b lo (x ∷ xs) s n (del_scan validsize (x ∷ xs) s n)
  unfolding del_scan safe_insert covers deleted_size straddling
  del_across h k = ground (
    arith,
    end_of_exact x a.2,
    add32_exact s n fits,
    sub32_exact s x.start,
    sub32_exact (x.start + x.size) (s + n),
    covers_below (suc (x.start + x.size)) xs b a.3,
    Apart-mono (suc s) (suc (x.start + x.size)) xs,
    deleted_size_above (suc (x.start + x.size)) xs s n a.3,
  )

  del_scan-beyond :
      x.start + x.size ≤ s → del_scan validsize (x ∷ xs) s n ≡ pass x (del_scan validsize xs s n)
  unfolding del_scan
  del_scan-beyond h = ground (arith, end_of_exact x a.2)

-- The scan gives the answer, or leaves it to a recursive call on a simpler array.
pub del_scan-Shrinks :
    (b validsize lo : ℕ) (xs : IntervalArray) (s n : ℕ)
    → Apart lo xs
    → 0 < n
    → s + n ≤ uint_max
    → validsize < max_validsize
    → Shrinks b lo xs s n (del_scan validsize xs s n)
del_scan-Shrinks b validsize lo [] s n a pos fits room =
    unfold del_scan covers deleted_size in ground arith
del_scan-Shrinks b validsize lo (x ∷ xs) s n a pos fits room = elim (dec_lt s x.start) [
  | yes h ↦ del_before b validsize lo x xs s n a pos fits room h
  | no h ↦ elim (dec_lt s (x.start + x.size)) [
    | no k ↦ rw (del_scan-beyond b validsize lo x xs s n a pos fits room (omega arith)) (
        pass-Shrinks b lo x xs s n (del_scan validsize xs s n) a (omega arith)
          (del_scan-Shrinks b validsize (suc (x.start + x.size)) xs s n a.3 pos fits room))
    | yes k ↦ elim (dec_lt x.start s) [
      | yes m ↦ del_across b validsize lo x xs s n a pos fits room m k
      | no m ↦ del_at b validsize lo x xs s n a pos fits room (omega arith)
    ]
  ]
]
