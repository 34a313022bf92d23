-- ===== src/StringIteration/Commands.antt =====
-- src/config/string_iteration.h: the functions that look past strings and commands. Their loops run on
-- fuel, a round more than the text has characters, since a round that goes on shortens the text.
use keymapper.Prelude.{
  ℕ, zero, suc, ◌-◌, ◌%◌, Bool, ◌||◌, [], ◌∷◌, Option, none, some, ◌==◌, ltb, if◌then◌else◌, length,
}
use keymapper.StringIteration.{
  Text, single_quote, double_quote, skip, skip_until, skip_comment, before_last,
}

-- Whether what is looked for has been passed, with the text behind it, or what is thrown.
pub data Search : Type 0 where
  found : Text → Search
  missing unterminated_string unterminated_command out_of_fuel : Search

abbrev pub is_quote : ℕ → Bool
is_quote c = c == double_quote || c == single_quote

-- The string at the front, if there is one. `none` where the exception is thrown.
unfoldable pub skip_quoted : Text → Option Text
skip_quoted [] = some []
skip_quoted (c ∷ text) = if is_quote c then skip_until text (c ∷ []) else some (c ∷ text)

abbrev advance : (Text → Search) → Text → Search
advance next [] = missing
advance next (c ∷ text) = next text

-- What a round does behind a string and a command.
unfoldable pub search_at : (Text → Search) → Text → Text → Search
search_at next str text = elim (skip text str) [ some rest ↦ found rest | none ↦ advance next text ]

-- `missing` where no command is in front.
abbrev pub behind_command : (Text → Search) → Text → Search → Search
behind_command search text missing = search text
behind_command search text (found rest) = search rest
behind_command search text unterminated_string = unterminated_string
behind_command search text unterminated_command = unterminated_command
behind_command search text out_of_fuel = out_of_fuel

abbrev pub search_round : (Text → Search) → (Text → Search) → Text → Option Text → Search
search_round next command str none = unterminated_string
search_round next command str (some text) = behind_command (search_at next str) text (command text)

unfoldable pub search_loop : ℕ → (Text → Search) → Text → Text → Search
search_loop zero command str text = out_of_fuel
search_loop (suc fuel) command str text =
    search_round (search_loop fuel command str) command str (skip_quoted (skip_comment text).1)

-- Without `skip_in_terminal_commands`.
abbrev pub skip_until_not_in_string : Text → Text → Search
skip_until_not_in_string text str = search_loop (suc (length text)) (λ _. missing) str text

-- A round of the loop over brackets: the level and the text to go on with, or how it ends.
pub data Round : Type 0 where
  go_on : ℕ → Text → Round
  finished : Search → Round

-- At a closing bracket, which `level` still counts.
abbrev pub close_level : ℕ → Text → Round
close_level level next_close =
    if level - 1 == 0 then finished (found next_close) else go_on (level - 1) next_close

abbrev pub open_or_close : ℕ → Text → Search → Round
open_or_close level next_close (found next_open) =
    if ltb (length next_close) (length next_open)
    then go_on (suc level) next_open
    else close_level level next_close
open_or_close level next_close missing = close_level level next_close
open_or_close level next_close unterminated_string = finished unterminated_string
open_or_close level next_close unterminated_command = finished unterminated_command
open_or_close level next_close out_of_fuel = finished out_of_fuel

-- From what the searches for the next closing and the next opening bracket give.
abbrev pub nested_round : ℕ → Search → Search → Round
nested_round level (found next_close) next_open = open_or_close level next_close next_open
nested_round level missing next_open = finished missing
nested_round level unterminated_string next_open = finished unterminated_string
nested_round level unterminated_command next_open = finished unterminated_command
nested_round level out_of_fuel next_open = finished out_of_fuel

abbrev pub after_round : (ℕ → Text → Search) → Round → Search
after_round next (go_on level text) = next level text
after_round next (finished search) = search

-- The loop of `skip_arglist` and of `skip_terminal_command`, `missing` where it breaks.
unfoldable pub skip_nested : ℕ → ℕ → ℕ → ℕ → Text → Search
skip_nested opening closing zero level text = out_of_fuel
skip_nested opening closing (suc fuel) level text = after_round (skip_nested opening closing fuel) (
    nested_round level (skip_until_not_in_string text (closing ∷ []))
      (skip_until_not_in_string text (opening ∷ [])))

-- Between `[` and `]`.
unfoldable pub skip_arglist : Text → Search
skip_arglist text = elim (skip text (91 ∷ [])) [
  | none ↦ missing
  | some rest ↦ skip_nested 91 93 (suc (length rest)) 1 rest
]

abbrev arglists_round : (Text → Search) → Search → Search → Search
arglists_round next so_far (found rest) = next rest
arglists_round next so_far missing = so_far
arglists_round next so_far unterminated_string = unterminated_string
arglists_round next so_far unterminated_command = unterminated_command
arglists_round next so_far out_of_fuel = out_of_fuel

-- With what is to be returned where no argument list follows.
unfoldable pub arglists_loop : ℕ → Search → Text → Search
arglists_loop zero so_far text = out_of_fuel
arglists_loop (suc fuel) so_far text =
    arglists_round (λ rest. arglists_loop fuel (found rest) rest) so_far (skip_arglist text)

unfoldable pub skip_arglists : Text → Search
skip_arglists text = arglists_loop (suc (length text)) missing text

abbrev pub or_unterminated : Search → Search
or_unterminated missing = unterminated_command
or_unterminated (found rest) = found rest
or_unterminated unterminated_string = unterminated_string
or_unterminated unterminated_command = unterminated_command
or_unterminated out_of_fuel = out_of_fuel

-- From `$(` to `)`.
unfoldable pub skip_terminal_command : Text → Search
skip_terminal_command text = elim (skip text (36 ∷ 40 ∷ [])) [
  | none ↦ missing
  | some rest ↦ or_unterminated (skip_nested 40 41 (suc (length rest)) 1 rest)
]

-- With `skip_in_terminal_commands`.
unfoldable pub skip_until_not_in_command : Text → Text → Search
skip_until_not_in_command text str = search_loop (suc (length text)) skip_terminal_command str text

-- The number of backslashes at the end of a text.
abbrev backslashes : ℕ → Text → ℕ
backslashes count [] = count
backslashes count (c ∷ text) =
    let more = backslashes (suc count) text in
    let reset = backslashes 0 text in if c == 92 then more else reset

-- `begin` is the whole text: `prev` stops at the character in front of the backslashes.
unfoldable pub regular_expression_loop : ℕ → Text → Text → Text
regular_expression_loop zero begin text = text
regular_expression_loop (suc fuel) begin text = elim (skip_until text (47 ∷ [])) [
  | none ↦ text
  | some it ↦
      let again = regular_expression_loop fuel begin it in
      if backslashes 0 (before_last begin it) % 2 == 0 then it else again
]

abbrev skip_flag : Text → Option Text → Text
skip_flag text none = text
skip_flag text (some rest) = rest

unfoldable pub skip_regular_expression : Text → Option Text
skip_regular_expression begin = elim (skip begin (47 ∷ [])) [
  | none ↦ none
  | some text ↦
      let it = regular_expression_loop (suc (length text)) begin text in
      some (skip_flag it (skip it (105 ∷ [])))
]
