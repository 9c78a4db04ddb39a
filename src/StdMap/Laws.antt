-- ===== src/StdMap/Laws.antt =====
-- What `find` sees after each change of a `std::map`.
use rabbitstreamer.Prelude.{
  ℕ, suc, ◌≤◌, ◌<◌, ◌≡◌, refl, true, ◌==◌, if◌then◌else◌, [], ◌∷◌, none, some, arith,
}
use mathlib.Core.Option
use rabbitstreamer.StdMap.{StdMap, find, insert, erase, update}

module _ {K V : Type 0} (rank : K → ℕ) where
  -- The ranks rise, from `lo` on.
  abbrev pub IsSorted : ℕ → StdMap K V → Type 0
  IsSorted lo [] = Unit {0}
  IsSorted lo ((k, v) ∷ m) = (lo ≤ rank k) × IsSorted (suc (rank k)) m

  pub find_below :
      (lo : ℕ) (k : K) (m : StdMap K V) → IsSorted lo m → rank k < lo → find rank k m ≡ none
  unfolding find
  find_below lo k [] s h = refl
  find_below lo k ((j, v) ∷ m) s h = ground arith

  -- A lookup depends on the rank of the key only.
  pub find_same : (k j : K) (m : StdMap K V) → rank j ≡ rank k → find rank j m ≡ find rank k m
  unfolding find
  find_same k j [] e = refl
  find_same k j ((i, v) ∷ m) e = ground (arith, find_same k j m e)

  pub insert-IsSorted :
      (lo : ℕ) (k : K) (v : V) (m : StdMap K V)
      → IsSorted lo m
      → lo ≤ rank k
      → IsSorted lo (insert rank k v m).0
  unfolding insert
  insert-IsSorted lo k v [] s h = ground arith
  insert-IsSorted lo k v ((j, w) ∷ m) s h = ground (arith, insert-IsSorted (suc (rank j)) k v m s.1)

  -- A new entry is found under every equivalent key, and nothing else changes.
  pub find-insert :
      (lo : ℕ) (k j : K) (v : V) (m : StdMap K V)
      → IsSorted lo m
      → find rank k m ≡ none
      → find rank j (insert rank k v m).0 ≡ (if rank j == rank k then some v else find rank j m)
  unfolding find insert
  find-insert lo k j v [] s h = ground arith
  find-insert lo k j v ((i, w) ∷ m) s h = ground (arith, find-insert (suc (rank i)) k j v m s.1)

  pub insert_new :
      (k : K) (v : V) (m : StdMap K V) → find rank k m ≡ none → (insert rank k v m).1 ≡ true
  unfolding find insert
  insert_new k v [] h = refl
  insert_new k v ((i, w) ∷ m) h = ground (arith, insert_new k v m)

  pub update-IsSorted :
      (lo : ℕ) (k : K) (f : V → V) (m : StdMap K V)
      → IsSorted lo m
      → IsSorted lo (update rank k f m)
  unfolding update
  update-IsSorted lo k f [] s = tt
  update-IsSorted lo k f ((j, v) ∷ m) s = ground (arith, update-IsSorted (suc (rank j)) k f m s.1)

  pub find-update :
      (lo : ℕ) (k j : K) (f : V → V) (m : StdMap K V)
      → IsSorted lo m
      → find rank j (update rank k f m)
        ≡ (if rank j == rank k then Option.map f (find rank j m) else find rank j m)
  unfolding find update
  find-update lo k j f [] s = ground arith
  find-update lo k j f ((i, v) ∷ m) s = ground (arith, find-update (suc (rank i)) k j f m s.1)

  pub IsSorted-mono : (lo hi : ℕ) (m : StdMap K V) → IsSorted hi m → lo ≤ hi → IsSorted lo m
  IsSorted-mono lo hi [] s h = tt
  IsSorted-mono lo hi ((j, v) ∷ m) s h = ground arith

  pub erase-IsSorted :
      (lo : ℕ) (k : K) (m : StdMap K V) → IsSorted lo m → IsSorted lo (erase rank k m)
  unfolding erase
  erase-IsSorted lo k [] s = tt
  erase-IsSorted lo k ((j, v) ∷ m) s =
      ground (arith, erase-IsSorted (suc (rank j)) k m s.1, IsSorted-mono lo (suc (rank j)) m s.1)

  pub find-erase :
      (lo : ℕ) (k j : K) (m : StdMap K V)
      → IsSorted lo m
      → find rank j (erase rank k m) ≡ (if rank j == rank k then none else find rank j m)
  unfolding find erase
  find-erase lo k j [] s = ground arith
  find-erase lo k j ((i, v) ∷ m) s =
      ground (arith, find-erase (suc (rank i)) k j m s.1, find_below (suc (rank i)) j m s.1)

  pub erase_absent : (k : K) (m : StdMap K V) → find rank k m ≡ none → erase rank k m ≡ m
  unfolding find erase
  erase_absent k [] e = refl
  erase_absent k ((j, v) ∷ m) e = ground (arith, erase_absent k m)
