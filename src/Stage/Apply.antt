-- ===== src/Stage/Apply.antt =====
-- src/runtime/Stage.cpp: `apply_input` around its loop, and the operations that call it.
use keymapper.Prelude.{
  ℕ, zero, suc, ℤ, pos, negsuc, int_eq, Bool, true, false, ◌&&◌, List, [], ◌∷◌, Option, none, some,
  ◌==◌, ltb, if◌then◌else◌, negate, is_empty, any, remove_first, remove_last, map, push,
}
use keymapper.Key
use keymapper.Key.{Key, is_keyboard_key, is_device_key, is_virtual_key, is_common_modifier}
use keymapper.KeyEvent.{
  up, down, down_matched, up_matched, state_eq, KeyEvent, KeySequence, is_not_timeout,
}
use keymapper.Stage.State.{Stage, no_device_index, no_context_index, OutputDown, CurrentTimeout}
use keymapper.Stage.Sequences.{find_key, rfind_key, has_key}
use keymapper.Stage.Outputs.{continue_output_on_release, release_triggered, with_down}
use keymapper.Stage.Contexts.{update_active_contexts, take_output}
use keymapper.Stage.History.{add_history_event, clean_up_history}
use keymapper.Stage.Inputs.{has_matched}
use keymapper.Stage.Update.{match_sequence, match_sequence_fuel, with_out, with_timeout}

-- Suppresses a short timeout after a not-timeout was exceeded: the timeout, and whether
-- `apply_input` returns.
unfoldable pub suppress_timeout : KeyEvent → Option CurrentTimeout → Option CurrentTimeout × Bool
suppress_timeout event none = (none, false)
suppress_timeout event (some t) =
    if is_not_timeout t.event.state
    then if event.key == Key.timeout
      then if t.event.value == event.value
        then (some (record t { not_exceeded = true }), false)
        else (some t, t.not_exceeded)
      else if state_eq event.state up && t.trigger == event.key
      then (some (record t { not_exceeded = false }), false)
      else (some t, false)
    else (some t, false)

abbrev is_held : Option KeyEvent → Bool
is_held none = false
is_held (some event) = negate (state_eq event.state up)

-- `device_index >= 0`
abbrev is_index : ℤ → Bool
is_index (pos n) = true
is_index (negsuc n) = false

-- A press: `none` where it is a key repeat that is ignored.
unfoldable pub merge_press : KeyEvent → ℤ → Stage → Option Stage
merge_press event device_index s =
    let last_repeat_device_index' =
      if negate (int_eq device_index no_device_index)
        && int_eq device_index s.last_pressed_device_index
      then device_index
      else s.last_repeat_device_index in
    if is_held (rfind_key s.sequence event.key)
    then if s.sequence_might_match
      then none
      else if negate (int_eq device_index no_device_index)
          && negate (int_eq device_index last_repeat_device_index')
      then none
      else some (record s {
        last_repeat_device_index = last_repeat_device_index';
        sequence = remove_last (has_key event.key) s.sequence;
      })
    else if is_index device_index
    then some (record s {
      last_repeat_device_index =
          if int_eq device_index s.last_repeat_device_index
          then no_device_index
          else s.last_repeat_device_index;
      last_pressed_device_index = device_index;
    })
    else some s

-- A release, or a press, of a device.
unfoldable pub merge_event : KeyEvent → ℤ → Stage → Option Stage
merge_event event device_index s =
    if state_eq event.state down
    then merge_press event device_index s
    else some (record s {
      last_repeat_device_index =
          if int_eq device_index s.last_repeat_device_index
          then no_device_index
          else s.last_repeat_device_index;
    })

unfoldable pub record_history : ℕ → KeyEvent → Stage → Stage
record_history now event s =
    if s.has_no_might_match_mapping
      && (negate (is_virtual_key event.key) && negate (event.key == Key.timeout))
    then add_history_event now event s
    else s

abbrev match_down : KeyEvent → KeyEvent
match_down event =
    if state_eq event.state down then record event { state = down_matched } else event

abbrev is_matched_down : Option KeyEvent → Bool
is_matched_down none = false
is_matched_down (some event) = state_eq event.state down_matched

-- The part of `apply_input` for a release, before the loop.
unfoldable pub release_in_sequence : KeyEvent → Stage → Stage
release_in_sequence event s =
    let sequence =
      if has_matched s.out.current_timeout then map match_down s.sequence else s.sequence in
    if state_eq event.state up
    then record s {
      sequence =
          if negate s.sequence_might_match && is_matched_down (find_key sequence event.key)
          then remove_first (has_key event.key) sequence
          else sequence;
    }
    else s

-- Common modifiers stay suppressed as long as one of them is still output.
unfoldable pub reset_suppressed : List OutputDown → List OutputDown
reset_suppressed outputs =
    let keep = any (λ d. is_common_modifier d.key && negate d.suppressed) outputs in
    map
      (λ (d : OutputDown).
        if is_common_modifier d.key && keep then d else record d { suppressed = false })
      outputs

unfoldable pub drop_matched_timeouts : KeySequence → KeySequence
drop_matched_timeouts [] = []
drop_matched_timeouts (event ∷ rest) =
    if state_eq event.state up_matched then drop_matched_timeouts rest else event ∷ rest

abbrev pub or_stage : Option Stage → Stage → Stage
or_stage none s = s
or_stage (some s') s = s'

-- `apply_input` from the release of triggered output on.
unfoldable pub finish_input : KeyEvent → Stage → Stage
finish_input event s =
    let released =
      if state_eq event.state up
      then with_out s (release_triggered event.key no_context_index s.out)
      else s in
    let updated = update_active_contexts released in
    let sequence' = drop_matched_timeouts updated.sequence in
    clean_up_history (record updated {
      sequence = sequence';
      out = record (updated.out) {
        current_timeout = if is_empty sequence' then none else updated.out.current_timeout;
        temporary_reapplied = false;
      };
    })

-- `apply_input` from the event's entry into the sequence up to the loop.
unfoldable pub enter_sequence : ℕ → KeyEvent → Stage → Stage
enter_sequence now event s =
    let s' = release_in_sequence event (
      update_active_contexts
        (record_history now event (record s { sequence = push s.sequence event }))) in
    with_out s' (with_down s'.out (reset_suppressed s'.out.output_down))

unfoldable pub process_event : ℕ → KeyEvent → ℤ → Stage → Stage
process_event now event device_index s =
    let entered = enter_sequence now event s in
    finish_input event (
      or_stage
        (match_sequence (match_sequence_fuel entered.sequence) event device_index false entered)
        entered)

-- `apply_input` from the merge of key repeats on.
unfoldable pub apply_merged : ℕ → KeyEvent → ℤ → Stage → Stage
apply_merged now event device_index s = elim (merge_event event device_index s) [
  | none ↦ s
  | some merged ↦ process_event now event device_index merged
]

-- `apply_input` from the suppression of short timeouts on.
unfoldable pub apply_continued : ℕ → KeyEvent → ℤ → Stage → Stage
apply_continued now event device_index s =
    let t = suppress_timeout event s.out.current_timeout in
    if t.1 then with_timeout s t.0 else apply_merged now event device_index (with_timeout s t.0)

unfoldable pub apply_input : ℕ → KeyEvent → ℤ → Stage → Stage
apply_input now event device_index s =
    let r =
      continue_output_on_release s.sequence s.any_key_matches s.virtual_keys_toggle event
        no_context_index s.out in
    if r.1 then apply_continued now event device_index (with_out s r.0) else with_out s r.0

abbrev exit_sequence : ℕ → Key
exit_sequence zero = Key.shift_left
exit_sequence (suc zero) = Key.escape
exit_sequence (suc (suc n)) = Key.key_k

-- `p > 0 && key == exit_sequence[p - 1]`
abbrev is_previous : ℕ → Key → Bool
is_previous zero key = false
is_previous (suc n) key = key == exit_sequence n

-- `p < exit_sequence.size() && key == exit_sequence[p]`
abbrev is_next : ℕ → Key → Bool
is_next p key = ltb p 3 && key == exit_sequence p

-- `p` is the position in the exit sequence of three keys.
unfoldable pub advance_position : KeyEvent → ℕ → ℕ
advance_position event p =
    if negate (is_keyboard_key event.key)
    then p
    else if state_eq event.state down && is_previous p event.key
    then p
    else if state_eq event.state down && is_next p event.key
    then suc p
    else 0

unfoldable pub advance_exit_sequence : KeyEvent → Stage → Stage
advance_exit_sequence event s = record s {
  exit_sequence_position = advance_position event s.exit_sequence_position;
}

unfoldable pub should_exit : Stage → Bool
should_exit s = s.exit_sequence_position == 3

unfoldable pub update : ℕ → KeyEvent → ℤ → Stage → KeySequence × Stage
update now event device_index s =
    take_output (apply_input now event device_index (advance_exit_sequence event s))
