-- ===== src/ParseKeySequence/Steps.antt =====
-- src/config/ParseKeySequence.cpp: one round of the loop of `parse`. A text is what is left of it, and
-- a round gives the text that it leaves, or ends the loop.
use keymapper.Prelude.{
  ℕ, ◌+◌, ◌-◌, Bool, true, false, ◌&&◌, ◌||◌, List, [], ◌∷◌, ◌++◌, Option, none, some, ◌==◌, ltb,
  if◌then◌else◌, negate, length, is_empty, get_last?, drop_last, push,
}
use keymapper.Key
use keymapper.Key.{Key, is_virtual_key}
use keymapper.KeyEvent.{up, down, not, up_async, down_async, no_might_match, output_on_release}
use keymapper.StringIteration.{
  Text, single_quote, double_quote, comment_mark, skip, skip_until, skip_space, read_ident,
  before_last, try_read_timeout,
}
use keymapper.ParseKeySequence.Parser.{
  Called, Error, Parser, Result, add_key_to_buffer, add_key_to_sequence, add_timeout_event,
  ends_with_async_up, err, expected, flush_key_buffer, invalid_character, invalid_key, is_pressed,
  ok, presses, release_pressed_keys, remove_from_pressed_keys, result, set_last_state,
  sync_after_not_timeout, timeout_in_group, undefined, unexpected, unexpected_symbol,
  unterminated_string, ◌>>=◌,
}
use keymapper.ParseKeySequence.Strings.{Typed, add_string_typing, get_key_by_character}

-- What the parser is called with, and the string typer. The function that adds a terminal command
-- keeps the commands: it is one of the earlier calls and the new one.
pub record Environment : Type 0 where
  pub is_input : Bool
  pub get_key_by_name : Text → Called Key
  pub add_terminal_command : Option (List Text → Text → Called Key)
  pub type_string : Text → Called (List Typed)

pub data Step : Type 0 where
  continue : Text → Parser → Step
  finished : Parser → Step

abbrev pub then_continue : Text → Result Parser → Result Step
then_continue it r = r >>= λ s. ok (continue it s)

unfoldable pub symbol_error : ℕ → Error
symbol_error at = if ltb at 32 || ltb 127 at then invalid_character else unexpected_symbol at

-- The character in front of `*it` is given, for the end of the text.
unfoldable pub read_key : Environment → ℕ → Text → Result (Key × Text)
read_key e previous text =
    let name = read_ident text in
    if is_empty name.0
    then (let at : ℕ = elim text [ [] ↦ previous | c ∷ rest ↦ c ] in err (symbol_error at))
    else result (e.get_key_by_name name.0) >>= λ key.
        if key == Key.none then err (invalid_key name.0) else ok (key, name.1)

unfoldable pub before_modified_group : Text → Bool
before_modified_group it = elim (skip (skip_space it).1 (b'{' ∷ [])) [
  | none ↦ false
  | some _ ↦ true
]

abbrev pub is_in_group : Parser → Bool
is_in_group s = negate (s.in_modified_group == 0)

-- From `flush_key_buffer` on.
unfoldable pub add_not_key : Bool → Key → Parser → Parser
add_not_key is_input key s =
    let removed =
      remove_from_pressed_keys key (flush_key_buffer is_input (is_input || is_virtual_key key) s) in
    let s' =
      if removed.0 && is_input then add_key_to_sequence key up_async 0 removed.1 else removed.1 in
    if is_input && ends_with_async_up s'.sequence key
    then record s' { sequence = set_last_state up s'.sequence }
    else if is_input && (is_pressed s'.sequence key || is_in_group s)
    then add_key_to_sequence key up 0 s'
    else add_key_to_sequence key not 0 s'

unfoldable pub parse_timeout : Environment → ℕ → Bool → Text → Parser → Result Step
parse_timeout e timeout is_not it s =
    if s.in_together_group
    then err timeout_in_group
    else then_continue it (add_timeout_event e.is_input timeout is_not (is_in_group s) s)

-- Behind `!`.
unfoldable pub parse_not : Environment → Text → Parser → Result Step
parse_not e it s = elim (try_read_timeout it) [
  | some (timeout, rest) ↦ parse_timeout e timeout true rest s
  | none ↦
      if s.in_together_group
      then err (unexpected b'!')
      else read_key e b'!' it >>= λ r. ok (continue r.1 (add_not_key e.is_input r.0 s))
]

-- The quote and what is behind it.
unfoldable pub skip_quote : Text → Option (ℕ × Text)
skip_quote it = elim (skip it (single_quote ∷ [])) [
  | some rest ↦ some (single_quote, rest)
  | none ↦ elim (skip it (double_quote ∷ [])) [
    | some rest ↦ some (double_quote, rest)
    | none ↦ none
  ]
]

-- A string in a group, or in front of one.
unfoldable pub add_character : Environment → Text → Parser → Result Parser
add_character e string s = get_key_by_character e.type_string string >>= λ key.
    ok (if key == Key.none then s else add_key_to_buffer key s)

-- Another string.
unfoldable pub type_string_now : Environment → Text → Parser → Result Parser
type_string_now e string s = result (e.type_string string) >>= λ calls. ok (
    add_string_typing e.is_input (is_in_group s) (length string) calls
      (flush_key_buffer e.is_input true s))

unfoldable pub parse_string : Environment → ℕ → Text → Parser → Result Step
parse_string e quote begin s = elim (skip_until begin (quote ∷ [])) [
  | none ↦ err unterminated_string
  | some it ↦
      let string = before_last begin it in
      then_continue it (
        if s.in_together_group || before_modified_group it
        then add_character e string s
        else type_string_now e string s)
]

-- What is behind the parenthesis that closes the given number of them.
unfoldable pub skip_parentheses : ℕ → Text → Option Text
skip_parentheses level [] = none
skip_parentheses level (c ∷ text) =
    let level' = if c == b'(' then level + 1 else if c == b')' then level - 1 else level in
    let rest = skip_parentheses level' text in if level' == 0 then some text else rest

unfoldable pub add_command : Environment → Text → Parser → Result Parser
add_command e command s = elim e.add_terminal_command [
  | none ↦ ok s
  | some add ↦ result (add s.commands command) >>= λ key.
      ok (record (add_key_to_sequence key down 0 s) { commands = push s.commands command })
]

-- Behind `$`.
unfoldable pub parse_command : Environment → Text → Parser → Result Step
parse_command e it s =
    if e.is_input || (s.in_together_group || is_in_group s)
    then err (unexpected b'$')
    else elim (skip it (b'(' ∷ [])) [
      | none ↦ err (expected b'(')
      | some begin ↦ elim (skip_parentheses 1 begin) [
        | none ↦ err (expected b')')
        | some rest ↦
            then_continue rest
              (add_command e (before_last begin rest) (flush_key_buffer e.is_input true s))
      ]
    ]

-- Behind `^`.
unfoldable pub parse_output_on_release : Environment → Text → Parser → Result Step
parse_output_on_release e it s =
    if e.is_input || (s.output_on_release || (s.in_together_group || is_in_group s))
    then err (unexpected b'^')
    else ok (
        continue it
          (record (add_key_to_sequence Key.none output_on_release 0
            (flush_key_buffer e.is_input true s)) { output_on_release = true }))

-- Behind `?`.
unfoldable pub parse_no_might_match : Environment → Text → Parser → Result Step
parse_no_might_match e it s =
    if negate e.is_input
      || (s.output_on_release
          || (negate (is_empty s.sequence)
              || (negate (is_empty s.key_buffer) || s.in_together_group)))
    then err (unexpected b'?')
    else ok (
        continue it
          (record (add_key_to_sequence Key.none no_might_match 0 s) { is_no_might_match = true }))

-- Behind `(`.
unfoldable pub begin_together_group : Environment → Text → Parser → Result Step
begin_together_group e it s =
    if s.in_together_group
    then err (unexpected b'(')
    else ok (continue it (record (flush_key_buffer e.is_input true s) { in_together_group = true }))

-- Behind `)`.
unfoldable pub end_together_group : Environment → Text → Parser → Result Step
end_together_group e it s =
    if negate s.in_together_group
    then err (unexpected b')')
    else ok (
        continue it (record s {
          sequence =
              if e.is_input then s.sequence ++ presses down_async s.key_buffer else s.sequence;
          in_together_group = false;
        }))

-- Behind `{`.
unfoldable pub begin_modified_group : Environment → Text → Parser → Result Step
begin_modified_group e it s =
    if s.in_together_group
    then err (unexpected b'{')
    else if is_empty s.key_buffer
    then err (unexpected b'{')
    else (let flushed = flush_key_buffer e.is_input false s in
        if is_empty flushed.pressed_keys
        then err (unexpected b'{')
        else ok (
            continue it (record flushed {
              keys_pressed_before_modifier_group =
                  push s.keys_pressed_before_modifier_group (length s.pressed_keys);
              in_modified_group = s.in_modified_group + 1;
              has_modifier = true;
            })))

-- The state behind `}`, with the number of keys that stay pressed.
unfoldable pub leave_modified_group : Bool → ℕ → Parser → Parser
leave_modified_group is_input keep s =
    let released = release_pressed_keys is_input keep (flush_key_buffer is_input true s) in
    let left = record released {
      keys_pressed_before_modifier_group = drop_last s.keys_pressed_before_modifier_group;
      in_modified_group = s.in_modified_group - 1;
    } in
    if is_input then sync_after_not_timeout left else left

-- Behind `}`.
unfoldable pub end_modified_group : Environment → Text → Parser → Result Step
end_modified_group e it s =
    if negate (is_in_group s)
    then err (unexpected b'}')
    else elim (get_last? s.keys_pressed_before_modifier_group) [
      | none ↦ err undefined
      | some keep ↦ ok (continue it (leave_modified_group e.is_input keep s))
    ]

-- No symbol is in front.
unfoldable pub parse_key : Environment → Text → Parser → Result Step
parse_key e it s =
    let s' =
      if negate s.in_together_group || is_empty it then flush_key_buffer e.is_input true s else s in
    if is_empty it
    then ok (finished s')
    else read_key e 0 it >>= λ r. ok (continue r.1 (add_key_to_buffer r.0 s'))

unfoldable pub parse_timeout_or_key : Environment → Text → Parser → Result Step
parse_timeout_or_key e it s = elim (try_read_timeout it) [
  | some (timeout, rest) ↦ parse_timeout e timeout false rest s
  | none ↦ parse_key e it s
]

-- From the group symbols on.
unfoldable pub parse_groups : Environment → Text → Parser → Result Step
parse_groups e it s = elim (skip it (b'(' ∷ [])) [
  | some rest ↦ begin_together_group e rest s
  | none ↦ elim (skip it (b')' ∷ [])) [
    | some rest ↦ end_together_group e rest s
    | none ↦ elim (skip it (b'{' ∷ [])) [
      | some rest ↦ begin_modified_group e rest s
      | none ↦ elim (skip it (b'}' ∷ [])) [
        | some rest ↦ end_modified_group e rest s
        | none ↦ elim (skip it (comment_mark ∷ [])) [
          | some rest ↦ ok (finished (flush_key_buffer e.is_input true s))
          | none ↦ parse_timeout_or_key e it s
        ]
      ]
    ]
  ]
]

-- Behind the spaces.
unfoldable pub parse_token : Environment → Text → Parser → Result Step
parse_token e it s = elim (skip it (b'!' ∷ [])) [
  | some rest ↦ parse_not e rest s
  | none ↦ elim (skip_quote it) [
    | some (quote, rest) ↦ parse_string e quote rest s
    | none ↦ elim (skip it (b'$' ∷ [])) [
      | some rest ↦ parse_command e rest s
      | none ↦ elim (skip it (b'^' ∷ [])) [
        | some rest ↦ parse_output_on_release e rest s
        | none ↦ elim (skip it (b'?' ∷ [])) [
          | some rest ↦ parse_no_might_match e rest s
          | none ↦ parse_groups e it s
        ]
      ]
    ]
  ]
]
