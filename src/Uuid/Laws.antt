-- ===== src/Uuid/Laws.antt =====
-- When the text that `generate_uuid` prints fits into its array.
use rabbitstreamer.Prelude.{
  inl, inr, dec_lt, List, ℕ, zero, suc, refl, ◌+◌, ◌/◌, ◌%◌, ◌^◌, ◌≤◌, ◌<◌, ◌≡◌, ◌⊎◌, max, [], ◌∷◌,
  length, length-append, ok, fault, out_of_bounds, arith,
}
use rabbitstreamer.CoreStruct.{uuid_length}
use rabbitstreamer.Uuid.{hex_digit, hex, digit_count, format_04x, uuid_text, generate_uuid}

length-hex : (width v : ℕ) → length (hex width v) ≡ width
unfolding hex
length-hex zero v = refl
length-hex (suc width) v =
    omega (
      arith,
      length-append (hex width (v / 16)) (hex_digit (v % 16) ∷ []),
      length-hex width (v / 16),
    )

digit_count_small : (v : ℕ) → v < 2 ^ 16 → digit_count 8 v ≤ 4
unfolding digit_count
digit_count_small v h = ground arith

digit_count_large : (v : ℕ) → 2 ^ 16 ≤ v → 5 ≤ digit_count 8 v
unfolding digit_count
digit_count_large v h = ground arith

length-format_04x_small : (v : ℕ) → v < 2 ^ 16 → length (format_04x v) ≡ 4
unfolding format_04x
length-format_04x_small v h =
    omega (arith, length-hex (max 4 (digit_count 8 v)) v, digit_count_small v h)

length-format_04x_large : (v : ℕ) → 2 ^ 16 ≤ v → 5 ≤ length (format_04x v)
unfolding format_04x
length-format_04x_large v h =
    omega (arith, length-hex (max 4 (digit_count 8 v)) v, digit_count_large v h)

length-format_04x_le : (v : ℕ) → 4 ≤ length (format_04x v)
unfolding format_04x
length-format_04x_le v = omega (arith, length-hex (max 4 (digit_count 8 v)) v)

length-uuid_text :
    (rand : ℕ → ℕ)
    → length (uuid_text rand)
      ≡ length (format_04x (rand 0))
        + length (format_04x (rand 1))
        + length (format_04x (rand 2))
        + length (format_04x (rand 3))
unfolding uuid_text
length-uuid_text rand = omega (arith, length-append {0})

-- The four calls of `rand` return less than 65536.
pub record IsSmall (rand : ℕ → ℕ) : Type 0 where
  pub first : rand 0 < 2 ^ 16
  pub second : rand 1 < 2 ^ 16
  pub third : rand 2 < 2 ^ 16
  pub fourth : rand 3 < 2 ^ 16

pub generate_uuid_small :
    (rand : ℕ → ℕ)
    → IsSmall rand
    → (generate_uuid rand ≡ ok (uuid_text rand)) × (length (uuid_text rand) ≡ uuid_length)
unfolding generate_uuid
generate_uuid_small rand s =
    let sized : length (uuid_text rand) ≡ uuid_length = omega (
      arith,
      length-uuid_text rand,
      length-format_04x_small (rand 0) s.first,
      length-format_04x_small (rand 1) s.second,
      length-format_04x_small (rand 2) s.third,
      length-format_04x_small (rand 3) s.fourth,
    ) in
    (ground (arith, sized), sized)

-- What it makes is the text.
pub generate_uuid_text :
    (rand : ℕ → ℕ) (uuid : List ℕ) → generate_uuid rand ≡ ok uuid → uuid_text rand ≡ uuid
unfolding generate_uuid
generate_uuid_text rand uuid e = ground (arith, e)

-- One of the four calls of `rand` returns 65536 or more.
abbrev pub IsLarge : (ℕ → ℕ) → Type 0
IsLarge rand = (2 ^ 16 ≤ rand 0) ⊎ ((2 ^ 16 ≤ rand 1) ⊎ ((2 ^ 16 ≤ rand 2) ⊎ (2 ^ 16 ≤ rand 3)))

pub IsSmall-or_IsLarge : (rand : ℕ → ℕ) → IsSmall rand ⊎ IsLarge rand
IsSmall-or_IsLarge rand = elim (dec_lt (rand 0) (2 ^ 16)) [
  | no h0 ↦ inr (inl (omega arith))
  | yes h0 ↦ elim (dec_lt (rand 1) (2 ^ 16)) [
    | no h1 ↦ inr (inr (inl (omega arith)))
    | yes h1 ↦ elim (dec_lt (rand 2) (2 ^ 16)) [
      | no h2 ↦ inr (inr (inr (inl (omega arith))))
      | yes h2 ↦ elim (dec_lt (rand 3) (2 ^ 16)) [
        | no h3 ↦ inr (inr (inr (inr (omega arith))))
        | yes h3 ↦ inl (record { first = h0; second = h1; third = h2; fourth = h3 })
      ]
    ]
  ]
]

-- As soon as one of the four calls of `rand` returns 65536 or more, `generate_uuid` writes past the
-- end of its array.
pub generate_uuid_overflows :
    (rand : ℕ → ℕ) → IsLarge rand → generate_uuid rand ≡ fault out_of_bounds
unfolding generate_uuid
generate_uuid_overflows rand large = ground (
  arith,
  length-uuid_text rand,
  length-format_04x_le (rand 0),
  length-format_04x_le (rand 1),
  length-format_04x_le (rand 2),
  length-format_04x_le (rand 3),
  length-format_04x_large (rand 0),
  length-format_04x_large (rand 1),
  length-format_04x_large (rand 2),
  length-format_04x_large (rand 3),
)
