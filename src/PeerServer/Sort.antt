-- ===== src/PeerServer/Sort.antt =====
-- The order in which `send_push_list` of protocol/sp/sp_np_connector.cpp answers: that of `std::sort`.
use rabbitstreamer.Prelude.{
  true, length, false, ℕ, refl, ◌+◌, ◌≤◌, ◌≡◌, leb, ◌==◌, if◌then◌else◌, List, [], ◌∷◌, dec_lt,
  arith,
}
use rabbitstreamer.PeerServer.{insert_sorted, sort}

-- No number is above the one behind it, and none is below `lo`.
pub data Ascends : ℕ → List ℕ → Type 0 where
  end : (lo : ℕ) → Ascends lo []
  next : (lo x : ℕ) (xs : List ℕ) → lo ≤ x → Ascends x xs → Ascends lo (x ∷ xs)

-- How often a number stands in a list.
unfoldable pub occurrences : ℕ → List ℕ → ℕ
occurrences v [] = 0
occurrences v (x ∷ xs) = (if v == x then 1 else 0) + occurrences v xs

insert_sorted-Ascends :
    (lo x : ℕ) (xs : List ℕ) → lo ≤ x → Ascends lo xs → Ascends lo (insert_sorted x xs)
unfolding insert_sorted
insert_sorted-Ascends lo x [] h _ = next lo x [] h (end x)
insert_sorted-Ascends lo x (y ∷ ys) h (next _ _ _ k s) = elim (dec_lt y x) [
  | yes g ↦
      let e : leb x y ≡ false = ground arith in
      rw e (next lo y (insert_sorted x ys) k (insert_sorted-Ascends y x ys (omega arith) s))
  | no g ↦
      let e : leb x y ≡ true = ground arith in
      rw e (next lo x (y ∷ ys) h (next x y ys (omega arith) s))
]

sort-Ascends : (xs : List ℕ) → Ascends 0 (sort xs)
unfolding sort
sort-Ascends [] = end 0
sort-Ascends (x ∷ xs) = insert_sorted-Ascends 0 x (sort xs) (omega arith) (sort-Ascends xs)

occurrences-insert_sorted :
    (v x : ℕ) (xs : List ℕ) → occurrences v (insert_sorted x xs) ≡ occurrences v (x ∷ xs)
unfolding insert_sorted occurrences
occurrences-insert_sorted v x [] = refl
occurrences-insert_sorted v x (y ∷ ys) = ground (arith, occurrences-insert_sorted v x ys)

occurrences-sort : (xs : List ℕ) (v : ℕ) → occurrences v (sort xs) ≡ occurrences v xs
unfolding sort occurrences
occurrences-sort [] v = refl
occurrences-sort (x ∷ xs) v =
    omega (arith, occurrences-insert_sorted v x (sort xs), occurrences-sort xs v)

-- What `sort` returns is in ascending order, and every number stands in it as often as before.
pub sort_lem :
    (xs : List ℕ) → Ascends 0 (sort xs) × ((v : ℕ) → occurrences v (sort xs) ≡ occurrences v xs)
sort_lem xs = (sort-Ascends xs, occurrences-sort xs)

-- A list of one number is left as it is.
pub sort_short : (xs : List ℕ) (n : ℕ) → n ≤ 1 → length xs ≡ n → sort xs ≡ xs
unfolding sort insert_sorted
sort_short [] n h e = refl
sort_short (x ∷ []) n h e = refl
sort_short (x ∷ (y ∷ ys)) n h e = absurd (omega arith)
