-- ===== src/Uuid.antt =====
-- `generate_uuid` of protocol/tracker/tracker_np_connector.cpp and of
-- protocol/tracker/tracker_sp_connector.cpp, which are the same: four calls of `rand`, printed by
-- `sprintf` into an array of seventeen bytes. What `rand` returns is a parameter.
pub mod Laws
use rabbitstreamer.Prelude.{
  ◌-◌, ℕ, zero, suc, ◌+◌, ◌%◌, ◌/◌, max, ltb, leb, ◌==◌, if◌then◌else◌, List, [], ◌∷◌, ◌++◌, length,
  Result, ok, fault, out_of_bounds,
}
use rabbitstreamer.CoreStruct.{uuid_length}

-- The character of a digit of `%x`.
unfoldable pub hex_digit : ℕ → ℕ
hex_digit d = if ltb d 10 then b'0' + d else b'a' + d - 10

-- The last `width` digits of a number, the highest first.
unfoldable pub hex : ℕ → ℕ → List ℕ
hex zero v = []
hex (suc width) v = hex width (v / 16) ++ hex_digit (v % 16) ∷ []

-- How many digits a number has, up to a bound.
unfoldable pub digit_count : ℕ → ℕ → ℕ
digit_count zero v = 0
digit_count (suc bound) v = let rest = digit_count bound (v / 16) in if v == 0 then 0 else suc rest

-- `%04x` of an `int`, which has eight digits at most: four digits, or more if it takes more.
unfoldable pub format_04x : ℕ → List ℕ
format_04x v = hex (max 4 (digit_count 8 v)) v

-- What `sprintf` writes before the final zero.
unfoldable pub uuid_text : (ℕ → ℕ) → List ℕ
uuid_text rand =
    format_04x (rand 0) ++ (format_04x (rand 1) ++ (format_04x (rand 2) ++ format_04x (rand 3)))

-- `generate_uuid`. `str_` has room for `UUID_LENGTH` bytes and the final zero.
unfoldable pub generate_uuid : (ℕ → ℕ) → Result (List ℕ)
generate_uuid rand =
    if leb (length (uuid_text rand)) uuid_length then ok (uuid_text rand) else fault out_of_bounds
