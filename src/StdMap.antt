-- ===== src/StdMap.antt =====
-- `std::map` as the program uses it: a sequence of entries in the order of their keys. A key is
-- compared by its rank, a number, which says where `operator<` puts it.
pub mod Laws
use rabbitstreamer.Prelude.{
  ℕ, zero, suc, ◌+◌, ◌*◌, ◌^◌, Bool, true, false, ◌&&◌, ltb, leb, ◌==◌, if◌then◌else◌, List, [],
  ◌∷◌, Option, none, some,
}

abbrev pub StdMap : Type 0 → Type 0 → Type 0
StdMap K V = List (K × V)

-- `tolower`, for the bytes of ASCII
unfoldable pub to_lower : ℕ → ℕ
to_lower c = if leb b'A' c && leb c b'Z' then c + 32 else c

-- `strncasecmp(a, b, n) < 0` exactly if the rank of `a` is the smaller one, and equal ranks mean 0:
-- the first `n` bytes as the digits of a number, no letter told from its capital, and zeros from
-- the end of the text on.
unfoldable pub case_rank : ℕ → List ℕ → ℕ
case_rank zero s = 0
case_rank (suc n) [] = 0
case_rank (suc n) (c ∷ s) =
    let rest = case_rank n s in if c == 0 then 0 else to_lower c * 256 ^ n + rest

module _ {K V : Type 0} (rank : K → ℕ) where
  unfoldable pub find : K → StdMap K V → Option V
  find k [] = none
  find k ((j, v) ∷ m) =
      if ltb (rank j) (rank k) then find k m else if ltb (rank k) (rank j) then none else some v

  -- The map, and whether the entry is new. An entry with an equivalent key stays as it is.
  unfoldable pub insert : K → V → StdMap K V → StdMap K V × Bool
  insert k v [] = ((k, v) ∷ [], true)
  insert k v ((j, w) ∷ m) =
      let (m', new) = insert k v m in
      if ltb (rank j) (rank k)
      then ((j, w) ∷ m', new)
      else if ltb (rank k) (rank j)
      then ((k, v) ∷ (j, w) ∷ m, true)
      else ((j, w) ∷ m, false)

  unfoldable pub erase : K → StdMap K V → StdMap K V
  erase k [] = []
  erase k ((j, v) ∷ m) =
      if ltb (rank j) (rank k)
      then (j, v) ∷ erase k m
      else if ltb (rank k) (rank j)
      then (j, v) ∷ m
      else m

  -- A change of the object that the entry of `k` points to.
  unfoldable pub update : K → (V → V) → StdMap K V → StdMap K V
  update k f [] = []
  update k f ((j, v) ∷ m) =
      if ltb (rank j) (rank k)
      then (j, v) ∷ update k f m
      else if ltb (rank k) (rank j)
      then (j, v) ∷ m
      else (j, f v) ∷ m
