-- ===== src/StringIteration.antt =====
-- src/config/string_iteration.h: reading a text from its front. A text is its bytes, `*it` with `end`
-- is what is left of it, and a function that moves `*it` returns what is left after it. `none` stands
-- for `false` where the iterator is then unchanged, and for the exception where one is thrown.
pub mod Skips
pub mod Strings
pub mod Numbers
pub mod Lengths
pub mod Commands
pub mod Tokens
pub mod Nesting
mod Tests
use keymapper.Prelude.{
  ℕ, zero, suc, ◌+◌, ◌-◌, ◌*◌, ◌%◌, ℤ, pos, negsuc, ltb, Bool, true, false, ◌&&◌, ◌||◌, List, [],
  ◌∷◌, Option, none, some, ◌==◌, leb, if◌then◌else◌, length, is_empty, negate, drop_last,
}
use keymapper.Timeout.{duration_to_timeout}

abbrev pub Text : Type 0
Text = List ℕ

-- `'`
abbrev pub single_quote : ℕ
single_quote = 39

-- `"`
abbrev pub double_quote : ℕ
double_quote = 34

-- `#`
abbrev pub comment_mark : ℕ
comment_mark = 35

-- `std::isspace` in the C locale.
abbrev pub is_space : ℕ → Bool
is_space c = c == 32 || (leb 9 c && leb c 13)

abbrev pub is_digit : ℕ → Bool
is_digit c = leb 48 c && leb c 57

-- `std::isalnum` in the C locale.
abbrev pub is_alnum : ℕ → Bool
is_alnum c = is_digit c || ((leb 65 c && leb c 90) || (leb 97 c && leb c 122))

unfoldable pub skip : Text → Text → Option Text
skip text [] = some text
skip [] (s ∷ str) = none
skip (c ∷ text) (s ∷ str) = let rest = skip text str in if s == c then rest else none

unfoldable pub skip_until : Text → Text → Option Text
skip_until [] str = none
skip_until (c ∷ text) str = elim (skip (c ∷ text) str) [
  | some rest ↦ some rest
  | none ↦ skip_until text str
]

unfoldable pub skip_comment : Text → Bool × Text
skip_comment [] = (false, [])
skip_comment (c ∷ text) = if c == comment_mark then (true, []) else (false, c ∷ text)

abbrev pub drop_spaces : Text → Text
drop_spaces [] = []
drop_spaces (c ∷ text) = if is_space c then drop_spaces text else c ∷ text

abbrev starts_with_space : Text → Bool
starts_with_space [] = false
starts_with_space (c ∷ text) = is_space c

unfoldable pub skip_space : Text → Bool × Text
skip_space text = let r = skip_comment (drop_spaces text) in (starts_with_space text || r.0, r.1)

-- The text up to the new end.
unfoldable pub trim_comment : Text → Bool × Text
trim_comment [] = (false, [])
trim_comment (c ∷ text) =
    let r = trim_comment text in if c == comment_mark then (true, []) else (r.0, c ∷ r.1)

-- The text up to the new end: without the spaces behind the last other byte.
unfoldable pub trim_space : Text → Text
trim_space [] = []
trim_space (c ∷ text) =
    let rest = trim_space text in if is_empty rest && is_space c then [] else c ∷ rest

abbrev pub is_ident : ℕ → Bool
is_ident c = is_alnum c || (c == 95 || c == 45)

-- What is skipped, and what is left.
unfoldable pub read_ident : Text → Text × Text
read_ident [] = ([], [])
read_ident (c ∷ text) =
    let r = read_ident text in if is_ident c then (c ∷ r.0, r.1) else ([], c ∷ text)

unfoldable pub skip_ident : Text → Bool × Text
skip_ident text = let r = read_ident text in (negate (is_empty r.0), r.1)

abbrev pub take : ℕ → Text → Text
take zero text = []
take (suc n) [] = []
take (suc n) (c ∷ text) = c ∷ take n text

-- `std::string(begin, std::prev(it))`
abbrev pub before_last : Text → Text → Text
before_last begin it = take (length begin - length it - 1) begin

-- From behind the opening quote on: what the string holds, and what is left.
unfoldable pub read_quoted : ℕ → Text → Option (Text × Text)
read_quoted quote begin = elim (skip_until begin (quote ∷ [])) [
  | none ↦ none
  | some it ↦ some (before_last begin it, it)
]

-- `none` where the exception is thrown.
unfoldable pub read_string : Text → Option (Text × Text)
read_string text = elim (skip text (single_quote ∷ [])) [
  | some begin ↦ read_quoted single_quote begin
  | none ↦ elim (skip text (double_quote ∷ [])) [
    | some begin ↦ read_quoted double_quote begin
    | none ↦ none
  ]
]

unfoldable pub read_value : Text → Option (Text × Text)
read_value text = elim (skip text (single_quote ∷ [])) [
  | some begin ↦ read_quoted single_quote begin
  | none ↦ elim (skip text (double_quote ∷ [])) [
    | some begin ↦ read_quoted double_quote begin
    | none ↦ some (read_ident text)
  ]
]

abbrev skipped : Option Text → Option (Bool × Text)
skipped none = none
skipped (some text) = some (true, text)

unfoldable pub skip_string : Text → Option (Bool × Text)
skip_string [] = some (false, [])
skip_string (c ∷ text) =
    if c == single_quote || c == double_quote
    then skipped (skip_until text (c ∷ []))
    else some (false, c ∷ text)

-- The loop of `try_read_number`. The number is the 32 bits of an `int`, which wraps around where it
-- overflows, as the machine's addition and multiplication do.
unfoldable pub read_digits : ℕ → Text → ℕ × Text
read_digits number [] = (number, [])
read_digits number (c ∷ text) =
    let rest = read_digits ((number * 10 + (c - 48)) % 4294967296) text in
    if is_digit c then rest else (number, c ∷ text)

abbrev pub starts_with_digit : Text → Bool
starts_with_digit [] = false
starts_with_digit (c ∷ text) = is_digit c

-- The bits of an `int` in two's complement.
abbrev pub int_of_bits : ℕ → ℤ
int_of_bits n = if ltb n 2147483648 then pos n else negsuc (4294967295 - n)

unfoldable pub try_read_number : Text → Option (ℤ × Text)
try_read_number text =
    let r = read_digits 0 text in
    if starts_with_digit text then some (int_of_bits r.0, r.1) else none

-- A duration of less than nothing is the shortest timeout.
abbrev at_least_zero : ℤ → ℕ
at_least_zero (pos n) = n
at_least_zero (negsuc n) = 0

-- src/runtime/Timeout.h: a number of milliseconds.
unfoldable pub try_read_timeout : Text → Option (ℕ × Text)
try_read_timeout text = elim (try_read_number text) [
  | none ↦ none
  | some (number, rest) ↦ elim (skip rest (109 ∷ 115 ∷ [])) [
    | none ↦ none
    | some rest' ↦ some (duration_to_timeout (at_least_zero number), rest')
  ]
]
