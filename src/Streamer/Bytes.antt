-- ===== src/Streamer/Bytes.antt =====
-- The bytes of an unsigned number in memory, lowest first, as `memcpy` in core/streamer.h moves them.
use rabbitstreamer.Prelude.{
  ℕ, zero, suc, ◌+◌, ◌*◌, ◌/◌, ◌%◌, ◌^◌, ◌<◌, ◌≡◌, refl, List, [], ◌∷◌, length, ap, arith,
}

unfoldable pub le : ℕ → ℕ → List ℕ
le zero v = []
le (suc w) v = (v % 256) ∷ le w (v / 256)

unfoldable pub from_le : List ℕ → ℕ
from_le [] = 0
from_le (b ∷ bs) = b + 256 * from_le bs

pub length-le : (w v : ℕ) → length (le w v) ≡ w
unfolding le
length-le zero v = refl
length-le (suc w) v = ap suc (length-le w (v / 256))

pub from_le-le_1 : (v : ℕ) → v < 2 ^ 8 → from_le (le 1 v) ≡ v
unfolding le from_le
from_le-le_1 v h = omega arith

pub from_le-le_2 : (v : ℕ) → v < 2 ^ 16 → from_le (le 2 v) ≡ v
unfolding le from_le
from_le-le_2 v h = omega arith

pub from_le-le_4 : (v : ℕ) → v < 2 ^ 32 → from_le (le 4 v) ≡ v
unfolding le from_le
from_le-le_4 v h = omega arith

pub from_le-le_8 : (v : ℕ) → v < 2 ^ 64 → from_le (le 8 v) ≡ v
unfolding le from_le
from_le-le_8 v h = omega arith
