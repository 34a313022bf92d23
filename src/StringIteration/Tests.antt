-- ===== src/StringIteration/Tests.antt =====
-- Texts as a configuration has them.
use keymapper.Prelude.{pos, List, ◌≡◌, refl, inl, true, some, [], ◌∷◌, ◌++◌, contains, ◌↔◌, arith}
use keymapper.StringIteration.{
  Text, single_quote, skip, skip_until, read_string, try_read_number, skip_space, trim_space,
  try_read_timeout, read_digits, skip_comment,
}
use keymapper.Timeout.{duration_to_timeout}
use keymapper.StringIteration.Skips.{skip_iff}
use keymapper.StringIteration.Strings.{read_string-quoted}
use keymapper.StringIteration.Tokens.{Token, WellFormed, char, quoted, show}
use keymapper.StringIteration.Commands.{
  arglists_loop, found, missing, regular_expression_loop, search_at, search_loop, skip_arglist,
  skip_arglists, skip_nested, skip_quoted, skip_regular_expression, skip_terminal_command,
  skip_until_not_in_command, unterminated_string,
}
use keymapper.StringIteration.Nesting.{skip_arglist-matching, skip_terminal_command-matching}
use keymapper.StringIteration.Numbers.{digits, try_read_number-digits}

-- `ab`
abbrev body : Text
body = 97 ∷ 98 ∷ []

-- ` = x`
abbrev rest : Text
rest = 32 ∷ 61 ∷ 32 ∷ 120 ∷ []

-- `  # x`
spaces_and_comment : skip_space (32 ∷ 32 ∷ 35 ∷ 32 ∷ 120 ∷ []) ≡ (true, [])
unfolding skip_space skip_comment
spaces_and_comment = refl

-- `a b `
trailing_space : trim_space (97 ∷ 32 ∷ 98 ∷ 32 ∷ []) ≡ 97 ∷ 32 ∷ 98 ∷ []
unfolding trim_space
trailing_space = refl

-- `250ms`
timeout : try_read_timeout (50 ∷ 53 ∷ 48 ∷ 109 ∷ 115 ∷ []) ≡ some (250, [])
unfolding try_read_timeout try_read_number read_digits skip duration_to_timeout
timeout = refl

skip_iff_example : (skip (body ++ rest) body ≡ some rest) ↔ (body ++ rest ≡ body ++ rest)
skip_iff_example = skip_iff (body ++ rest) body rest

read_string-quoted_example :
    read_string (single_quote ∷ body ++ single_quote ∷ rest) ≡ some (body, rest)
unfolding contains
read_string-quoted_example = read_string-quoted single_quote body rest (inl refl) refl

try_read_number-digits_example :
    try_read_number (digits (2 ∷ 5 ∷ 0 ∷ []) ++ rest) ≡ some (pos 250, rest)
try_read_number-digits_example =
    try_read_number-digits 2 (5 ∷ 0 ∷ []) rest (omega arith, (omega arith, (omega arith, tt))) refl
      (omega arith)

-- `a ")" (b)) x`
abbrev command : List Token
command =
    char 97
    ∷ char 32
    ∷ quoted 34 (41 ∷ [])
    ∷ char 32
    ∷ char 40
    ∷ char 98
    ∷ char 41
    ∷ char 41
    ∷ char 32
    ∷ char 120
    ∷ []

command-WellFormed : WellFormed command
unfolding contains
command-WellFormed = (
  refl,
  (refl, (refl, (refl, (refl, (refl, (refl, (refl, (refl, (refl, (refl, (refl, tt))))))))))),
)

skip_terminal_command-matching_example :
    skip_terminal_command (36 ∷ 40 ∷ show command) ≡ found (32 ∷ 120 ∷ [])
skip_terminal_command-matching_example = skip_terminal_command-matching command command-WellFormed

-- `a '[' [b]] x`
abbrev arguments : List Token
arguments =
    char 97
    ∷ char 32
    ∷ quoted 39 (91 ∷ [])
    ∷ char 32
    ∷ char 91
    ∷ char 98
    ∷ char 93
    ∷ char 93
    ∷ char 32
    ∷ char 120
    ∷ []

arguments-WellFormed : WellFormed arguments
unfolding contains
arguments-WellFormed = (
  refl,
  (refl, (refl, (refl, (refl, (refl, (refl, (refl, (refl, (refl, (refl, (refl, tt))))))))))),
)

skip_arglist-matching_example : skip_arglist (91 ∷ show arguments) ≡ found (32 ∷ 120 ∷ [])
skip_arglist-matching_example = skip_arglist-matching arguments arguments-WellFormed

-- `$("a""b")`: the quote that opens the second string is taken for one of its characters.
adjacent_strings :
    skip_terminal_command (36 ∷ 40 ∷ 34 ∷ 97 ∷ 34 ∷ 34 ∷ 98 ∷ 34 ∷ 41 ∷ []) ≡ unterminated_string
unfolding skip_terminal_command skip skip_nested search_loop skip_quoted skip_comment search_at
    skip_until
adjacent_strings = refl

-- `$(a) b'`: the search for a bracket that opens goes on behind the command.
quote_behind : skip_terminal_command (36 ∷ 40 ∷ 97 ∷ 41 ∷ 32 ∷ 98 ∷ 39 ∷ []) ≡ unterminated_string
unfolding skip_terminal_command skip skip_nested search_loop skip_quoted skip_comment search_at
    skip_until
quote_behind = refl

-- `[a][b] c`
two_arglists : skip_arglists (91 ∷ 97 ∷ 93 ∷ 91 ∷ 98 ∷ 93 ∷ 32 ∷ 99 ∷ []) ≡ found (32 ∷ 99 ∷ [])
unfolding skip_arglists arglists_loop skip_arglist skip skip_nested search_loop skip_quoted
    skip_comment search_at
two_arglists = refl

-- `/a\/b/i c`, with one backslash
escaped_slash :
    skip_regular_expression (47 ∷ 97 ∷ 92 ∷ 47 ∷ 98 ∷ 47 ∷ 105 ∷ 32 ∷ 99 ∷ []) ≡ some (32 ∷ 99 ∷ [])
unfolding skip_regular_expression regular_expression_loop skip skip_until
escaped_slash = refl

-- `$(a)=b`, with `=` looked for and then `a`
behind_a_command :
    (skip_until_not_in_command (36 ∷ 40 ∷ 97 ∷ 41 ∷ 61 ∷ 98 ∷ []) (61 ∷ []) ≡ found (98 ∷ []))
    × (skip_until_not_in_command (36 ∷ 40 ∷ 97 ∷ 41 ∷ 61 ∷ 98 ∷ []) (97 ∷ []) ≡ missing)
unfolding skip_until_not_in_command skip_terminal_command skip skip_nested search_loop skip_quoted
    skip_comment search_at
behind_a_command = (refl, refl)
