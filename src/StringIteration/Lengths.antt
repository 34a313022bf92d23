-- ===== src/StringIteration/Lengths.antt =====
-- src/config/string_iteration.h: how much the functions leave of a text.
use keymapper.Prelude.{
  ℕ, ◌+◌, ◌*◌, ◌-◌, ◌%◌, ℤ, ◌≡◌, ap, ◌<◌, ◌≤◌, false, [], ◌∷◌, Option, some, arith, length,
  is_empty, option_rule,
}
use keymapper.StringIteration.{
  Text, skip, skip_until, skip_comment, drop_spaces, skip_space, read_ident, read_digits,
  try_read_number, try_read_timeout,
}
use keymapper.StringIteration.Skips.{skip_iff}

pub skip_char_lt :
    (text : Text) (c : ℕ) (rest : Text) → skip text (c ∷ []) ≡ some rest → length rest < length text
skip_char_lt text c rest h = omega (arith, ap length ((skip_iff text (c ∷ []) rest).0 h))

skip_le : (text str rest : Text) → skip text str ≡ some rest → length rest ≤ length text
unfolding skip
skip_le text [] rest h = ground (arith, h)
skip_le [] (s ∷ str) rest h = cc
skip_le (c ∷ text) (s ∷ str) rest h = ground (arith, skip_le text str rest)

pub skip_until_lt :
    (text : Text) (c : ℕ) (rest : Text)
    → skip_until text (c ∷ []) ≡ some rest
    → length rest < length text
unfolding skip_until
skip_until_lt [] c rest h = cc
skip_until_lt (x ∷ text) c rest h =
    ground (arith, skip_char_lt (x ∷ text) c rest, skip_until_lt text c rest)

drop_spaces_le : (text : Text) → length (drop_spaces text) ≤ length text
drop_spaces_le [] = omega arith
drop_spaces_le (c ∷ text) = ground (arith, drop_spaces_le text)

skip_comment_le : (text : Text) → length (skip_comment text).1 ≤ length text
unfolding skip_comment
skip_comment_le [] = omega arith
skip_comment_le (c ∷ text) = ground arith

pub skip_space_le : (text : Text) → length (skip_space text).1 ≤ length text
unfolding skip_space
skip_space_le text = omega (arith, drop_spaces_le text, skip_comment_le (drop_spaces text))

read_ident_le : (text : Text) → length (read_ident text).1 ≤ length text
unfolding read_ident
read_ident_le [] = omega arith
read_ident_le (c ∷ text) = ground (arith, read_ident_le text)

pub read_ident_lt :
    (text : Text) → is_empty (read_ident text).0 ≡ false → length (read_ident text).1 < length text
unfolding read_ident
read_ident_lt [] h = cc
read_ident_lt (c ∷ text) h = ground (arith, read_ident_le text, h)

read_digits_le : (number : ℕ) (text : Text) → length (read_digits number text).1 ≤ length text
unfolding read_digits
read_digits_le number [] = omega arith
read_digits_le number (c ∷ text) =
    ground (arith, read_digits_le ((number * 10 + (c - 48)) % 4294967296) text)

try_read_number_lt :
    (text : Text) (number : ℤ) (rest : Text)
    → try_read_number text ≡ some (number, rest)
    → length rest < length text
unfolding try_read_number read_digits
try_read_number_lt [] number rest h = cc
try_read_number_lt (c ∷ text) number rest h =
    ground (arith, h, read_digits_le ((0 * 10 + (c - 48)) % 4294967296) text)

pub try_read_timeout_lt :
    (text : Text) (timeout : ℕ) (rest : Text)
    → try_read_timeout text ≡ some (timeout, rest)
    → length rest < length text
unfolding try_read_timeout
try_read_timeout_lt text timeout rest =
    option_rule Left (try_read_number text) (λ _ e. cc)
      (λ found read.
        option_rule Left (skip found.1 (109 ∷ 115 ∷ [])) (λ _ e. cc)
          (λ left skipped e. omega (
            arith,
            try_read_number_lt text found.0 found.1 read,
            skip_le found.1 (109 ∷ 115 ∷ []) left skipped,
            same left e,
          )))
  where
    Left : Option (ℕ × Text) → Type 0
    Left o = o ≡ some (timeout, rest) → length rest < length text

    same :
        {t : ℕ} (left : Text)
        → ◌≡◌ {A = Option (ℕ × Text)} (some (t, left)) (some (timeout, rest))
        → length left ≡ length rest
    same left e = cc
