-- ===== src/ParseKeySequence/Tests.antt =====
-- Expressions of src/config/ParseKeySequence.h, with the sequences that they are translated to.
use keymapper.Prelude.{
  ◌≡◌, refl, Bool, true, false, any, remove_if, [], ◌∷◌, none, ◌≢◌, ◌⊎◌, ◌||◌, length,
}
use keymapper.Key
use keymapper.Key.{is_virtual_key}
use keymapper.KeyEvent.{up, no_might_match, down, up_async, down_async, KeySequence, key_event}
use keymapper.StringIteration.{
  Text, skip, skip_comment, skip_space, read_ident, try_read_number, try_read_timeout,
}
use keymapper.ParseKeySequence.Parser.{
  Result, add_key_to_buffer, add_key_to_sequence, add_timeout_event, all_pressed_at_once,
  check_context_active_usage, convert_final_not_to_up, ends_with_async_up, err, expected,
  flush_key_buffer, has_key_down, has_key_up, has_virtual_key, is_pressed, ok, out_of_fuel,
  release_pressed_keys, remove_all_from_end, remove_from_pressed_keys, returned,
  sync_after_not_timeout, undefined,
}
use keymapper.ParseKeySequence.Keeps.{AllAllowed}
use keymapper.ParseKeySequence.WellFormed.{parse-IsThrown, parse-AllAllowed}
use keymapper.ParseKeySequence.Checks.{parse-has_key, parse-context_active}
use keymapper.ParseKeySequence.Steps.{
  Environment, add_not_key, before_modified_group, begin_modified_group, begin_together_group,
  end_modified_group, end_together_group, leave_modified_group, parse_command, parse_groups,
  parse_key, parse_no_might_match, parse_not, parse_output_on_release, parse_string, parse_timeout,
  parse_timeout_or_key, parse_token, read_key, skip_quote,
}
use keymapper.ParseKeySequence.Parse.{check_sequence, close_sequence, finish, parse, parse_loop}

-- The name of a key is a letter.
abbrev letters : Bool → Environment
letters is_input = record {
  is_input = is_input;
  get_key_by_name = λ name. elim name [ [] ↦ returned Key.none | c ∷ rest ↦ returned c ];
  add_terminal_command = none;
  type_string = λ _. returned [];
}

unfoldable run : Environment → Text → Result KeySequence
unfolding parse parse_loop finish close_sequence check_sequence parse_token parse_not skip_quote
    parse_string parse_command parse_output_on_release parse_no_might_match parse_groups
    begin_together_group end_together_group begin_modified_group end_modified_group
    leave_modified_group parse_timeout_or_key parse_timeout parse_key read_key before_modified_group
    add_not_key flush_key_buffer add_key_to_sequence add_key_to_buffer remove_from_pressed_keys
    release_pressed_keys sync_after_not_timeout add_timeout_event convert_final_not_to_up
    check_context_active_usage all_pressed_at_once remove_all_from_end has_key_down has_key_up
    has_virtual_key ends_with_async_up is_pressed skip skip_space skip_comment read_ident
    try_read_timeout try_read_number any remove_if is_virtual_key
run = parse

-- `A{B C}`
modified_group :
    run (letters true) (b'A' ∷ b'{' ∷ b'B' ∷ b' ' ∷ b'C' ∷ b'}' ∷ [])
    ≡ ok (
        key_event b'A' down
        ∷ key_event b'B' down
        ∷ key_event b'B' up_async
        ∷ key_event b'C' down
        ∷ key_event b'C' up_async
        ∷ key_event b'A' up_async
        ∷ [])
unfolding run
modified_group = refl

-- `(A B)`
together_group :
    run (letters true) (b'(' ∷ b'A' ∷ b' ' ∷ b'B' ∷ b')' ∷ [])
    ≡ ok (
        key_event b'A' down_async
        ∷ key_event b'B' down_async
        ∷ key_event b'A' down
        ∷ key_event b'B' down
        ∷ key_event b'A' up_async
        ∷ key_event b'B' up_async
        ∷ [])
unfolding run
together_group = refl

-- `A{` as an output.
open_group : run (letters false) (b'A' ∷ b'{' ∷ []) ≡ err (expected b'}')
unfolding run
open_group = refl

-- `A{B}` as an output.
output_group :
    run (letters false) (b'A' ∷ b'{' ∷ b'B' ∷ b'}' ∷ [])
    ≡ ok (key_event b'A' down ∷ key_event b'B' down ∷ key_event b'B' up ∷ key_event b'A' up ∷ [])
unfolding run
output_group = refl

-- `? ContextActive`, with the key under the name `K`.
context_active_removed :
    run
      (record (letters true) { get_key_by_name = λ _. returned Key.context_active })
      (b'?' ∷ b'K' ∷ [])
    ≡ ok (key_event Key.none no_might_match ∷ [])
unfolding run
context_active_removed = refl

parse-IsThrown_example : (expected b'}' ≢ undefined) × (expected b'}' ≢ out_of_fuel)
unfolding run
parse-IsThrown_example =
    parse-IsThrown (letters false) (b'A' ∷ b'{' ∷ []) (expected b'}') open_group

parse-AllAllowed_example :
    AllAllowed false
      (key_event b'A' down ∷ key_event b'B' down ∷ key_event b'B' up ∷ key_event b'A' up ∷ [])
unfolding run
parse-AllAllowed_example =
    parse-AllAllowed (letters false) (b'A' ∷ b'{' ∷ b'B' ∷ b'}' ∷ [])
      (key_event b'A' down ∷ key_event b'B' down ∷ key_event b'B' up ∷ key_event b'A' up ∷ [])
      output_group

-- The events of `A{B}` as an input.
abbrev group_input : KeySequence
group_input =
    key_event b'A' down
    ∷ key_event b'B' down
    ∷ key_event b'B' up_async
    ∷ key_event b'A' up_async
    ∷ []

group_of_input : run (letters true) (b'A' ∷ b'{' ∷ b'B' ∷ b'}' ∷ []) ≡ ok group_input
unfolding run
group_of_input = refl

parse-has_key_example :
    ((has_key_down group_input || has_key_up group_input) ≡ true) ⊎ (length group_input ≡ 1)
unfolding run
parse-has_key_example =
    parse-has_key (letters true) (b'A' ∷ b'{' ∷ b'B' ∷ b'}' ∷ []) group_input refl group_of_input

-- Each name is the one of ContextActive.
abbrev context_names : Environment
context_names = record (letters true) { get_key_by_name = λ _. returned Key.context_active }

context_active_alone : run context_names (b'K' ∷ []) ≡ ok (key_event Key.context_active down ∷ [])
unfolding run
context_active_alone = refl

parse-context_active_example :
    (context_names.is_input ≡ true) × (length (key_event Key.context_active down ∷ []) ≡ 1)
unfolding run any
parse-context_active_example =
    parse-context_active context_names (b'K' ∷ []) (key_event Key.context_active down ∷ [])
      context_active_alone refl
