-- ===== src/ParseKeySequence/Parse.antt =====
-- src/config/ParseKeySequence.cpp: `parse` and the call of the parser.
use keymapper.Prelude.{
  ℕ, zero, suc, ◌-◌, Bool, false, ◌&&◌, Option, none, some, if◌then◌else◌, negate, length, is_empty,
}
use keymapper.KeyEvent.{up, up_async, KeySequence}
use keymapper.StringIteration.{Text, skip_space, trim_comment, trim_space, read_ident, take}
use keymapper.ParseKeySequence.Parser.{
  Error, Parser, Result, all_pressed_at_once, check_context_active_usage, convert_final_not_to_up,
  err, expected, has_key_down, has_key_up, has_virtual_key, initial, no_key_event, ok, out_of_fuel,
  release_pressed_keys, remove_all_from_end, virtual_keys, ◌>>=◌,
}
use keymapper.ParseKeySequence.Steps.{Environment, continue, finished, is_in_group, parse_token}

unfoldable pub parse_loop : ℕ → Environment → Text → Parser → Result Parser
parse_loop zero e it s = err out_of_fuel
parse_loop (suc fuel) e it s = parse_token e (skip_space it).1 s >>= λ step. elim step [
  | continue rest s' ↦ parse_loop fuel e rest s'
  | finished s' ↦ ok s'
]

-- What is released, and removed from the end.
unfoldable pub close_sequence : Bool → Parser → KeySequence
close_sequence is_input s =
    if is_input
    then convert_final_not_to_up
        (if s.is_no_might_match then remove_all_from_end up_async s.sequence else s.sequence)
    else (let released = (release_pressed_keys false 0 s).sequence in
        if negate s.has_modifier && all_pressed_at_once released
        then remove_all_from_end up released
        else released)

-- The checks of the sequence at the end of `parse`.
unfoldable pub check_sequence : Bool → Bool → KeySequence → Result KeySequence
check_sequence is_input is_no_might_match sequence =
    if is_input && (negate (has_key_down sequence) && negate (has_key_up sequence))
    then err no_key_event
    else if is_no_might_match && has_virtual_key sequence
    then err virtual_keys
    else check_context_active_usage is_input sequence

-- From the end of the loop on.
unfoldable pub finish : Bool → Parser → Result KeySequence
finish is_input s =
    if s.in_together_group
    then err (expected b')')
    else if is_in_group s
    then err (expected b'}')
    else check_sequence is_input s.is_no_might_match (close_sequence is_input s)

-- A round of the loop shortens the text, or ends the loop.
unfoldable pub parse : Environment → Text → Result KeySequence
parse e str = parse_loop (suc (length str)) e str initial >>= finish e.is_input

-- The exception of the call: the message of the first one, and the line that it is about.
pub record ParseError : Type 0 where
  pub what : Error
  pub at_line : Option Text

abbrev pub line_of_error : Text → Option Text
line_of_error str =
    let line = (trim_comment (skip_space str).1).1 in
    let it = (skip_space (read_ident line).1).1 in
    let trimmed = trim_space it in
    if is_empty trimmed then none else some (take (length line - (length it - length trimmed)) line)

pub data Outcome : Type 0 where
  parsed : KeySequence → Outcome
  failed : ParseError → Outcome

unfoldable pub call : Environment → Text → Outcome
call e str = elim (parse e str) [
  | ok sequence ↦ parsed sequence
  | err error ↦ failed (record { what = error; at_line = line_of_error str })
]
