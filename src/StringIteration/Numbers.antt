-- ===== src/StringIteration/Numbers.antt =====
-- src/config/string_iteration.h: `try_read_number` on decimal digits.
use keymapper.Prelude.{
  ℕ, ◌+◌, ◌-◌, ◌*◌, ◌%◌, ◌<◌, ◌≤◌, pos, ◌≡◌, refl, List, [], ◌∷◌, ◌++◌, some, map, arith, All, true,
  false,
}
use keymapper.StringIteration.{
  Text, is_digit, starts_with_digit, read_digits, try_read_number, int_of_bits,
}

-- The bytes of decimal digits.
abbrev pub digits : List ℕ → Text
digits ds = map (λ (d : ℕ). 48 + d) ds

abbrev pub value : ℕ → List ℕ → ℕ
value n [] = n
value n (d ∷ ds) = value (n * 10 + d) ds

is_digit-digit : (d : ℕ) → d < 10 → is_digit (48 + d) ≡ true
is_digit-digit d h = ground arith

digit-value : (d : ℕ) → 48 + d - 48 ≡ d
digit-value d = omega arith

value_le : (n : ℕ) (ds : List ℕ) → n ≤ value n ds
value_le n [] = omega arith
value_le n (d ∷ ds) = omega (arith, value_le (n * 10 + d) ds)

-- A number that an `int` holds does not wrap around.
in_range :
    (n d : ℕ) (ds : List ℕ) → value n (d ∷ ds) < 2147483648 → (n * 10 + d) % 4294967296 ≡ n * 10 + d
in_range n d ds h = omega (arith, value_le (n * 10 + d) ds, h)

read_digits-digits :
    (ds : List ℕ) (n : ℕ) (rest : Text)
    → All (λ (d : ℕ). d < 10) ds
    → starts_with_digit rest ≡ false
    → value n ds < 2147483648
    → read_digits n (digits ds ++ rest) ≡ (value n ds, rest)
unfolding read_digits
read_digits-digits [] n [] h r l = refl
read_digits-digits [] n (c ∷ rest) h r l = ground (arith, r)
read_digits-digits (d ∷ ds) n rest h r l =
    rw (is_digit-digit d h.0, digit-value d, in_range n d ds l)
      (read_digits-digits ds (n * 10 + d) rest h.1 r l)

int_of_bits-pos : (n : ℕ) → n < 2147483648 → int_of_bits n ≡ pos n
int_of_bits-pos n h = ground arith

-- From the digits of a number that an `int` holds, with no further digit behind them, `try_read_number`
-- reads the number that they write in the decimal system, and leaves what is behind them.
pub try_read_number-digits :
    (d : ℕ) (ds : List ℕ) (rest : Text)
    → All (λ (x : ℕ). x < 10) (d ∷ ds)
    → starts_with_digit rest ≡ false
    → value 0 (d ∷ ds) < 2147483648
    → try_read_number (digits (d ∷ ds) ++ rest) ≡ some (pos (value 0 (d ∷ ds)), rest)
unfolding try_read_number
try_read_number-digits d ds rest h r l =
    rw
      (
        is_digit-digit d h.0,
        read_digits-digits (d ∷ ds) 0 rest h r l,
        int_of_bits-pos (value 0 (d ∷ ds)) l,
      )
      refl
