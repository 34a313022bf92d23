-- ===== src/Stage/Sequences.antt =====
-- src/runtime/Stage.cpp: the helpers on key sequences and triggers at the top of the file, and
-- `finish_sequence`.
use keymapper.Prelude.{
  ℕ, zero, suc, Bool, false, ◌&&◌, ◌||◌, [], ◌∷◌, Option, none, some, ◌==◌, if◌then◌else◌, any,
  find_if, rfind_if, count_if, get_last?,
}
use keymapper.Key
use keymapper.Key.{Key}
use keymapper.KeyEvent.{
  up, down, no_might_match, output_on_release, down_matched, up_matched, state_eq, KeyEvent,
  KeySequence, key_event, default_event, event_eq, is_down_state,
}
use keymapper.Stage.State.{Trigger, by_input, by_event, by_key}

abbrev pub has_key : Key → KeyEvent → Bool
has_key key event = event.key == key

unfoldable pub find_key : KeySequence → Key → Option KeyEvent
unfolding find_if
find_key sequence key = find_if (has_key key) sequence

unfoldable pub rfind_key : KeySequence → Key → Option KeyEvent
unfolding rfind_if
rfind_key sequence key = rfind_if (has_key key) sequence

unfoldable pub count_key_downs : KeySequence → Key → ℕ
unfolding count_if
count_key_downs sequence key = count_if (λ e. e.key == key && is_down_state e.state) sequence

-- `contains(sequence, event)`
unfoldable pub contains_event : KeySequence → KeyEvent → Bool
unfolding any
contains_event sequence event = any (λ e. event_eq e event) sequence

abbrev pub is_non_optional : KeyEvent → Bool
is_non_optional e = state_eq e.state up || state_eq e.state down

unfoldable pub has_non_optional : KeySequence → Bool
unfolding any
has_non_optional sequence = any is_non_optional sequence

unfoldable pub has_output_on_release : KeySequence → Bool
unfolding any
has_output_on_release sequence = any (λ e. state_eq e.state output_on_release) sequence

unfoldable pub is_no_might_match_mapping : KeySequence → Bool
is_no_might_match_mapping [] = false
is_no_might_match_mapping (e ∷ rest) = state_eq e.state no_might_match

unfoldable pub find_last_down_event : KeySequence → Option KeyEvent
unfolding rfind_if
find_last_down_event sequence = rfind_if (λ e. is_down_state e.state) sequence

unfoldable pub find_last_non_optional : KeySequence → Option KeyEvent
unfolding rfind_if
find_last_non_optional sequence = rfind_if is_non_optional sequence

abbrev pub or_event : Option KeyEvent → KeyEvent → KeyEvent
or_event none e = e
or_event (some e') e = e'

-- An input is not empty, so it has a last event.
unfoldable pub get_trigger_event : Trigger → KeyEvent
unfolding find_last_non_optional
get_trigger_event (by_event event) = event
get_trigger_event (by_key key) = key_event key down
get_trigger_event (by_input input) =
    or_event (find_last_non_optional input) (or_event (get_last? input) default_event)

unfoldable pub get_trigger_key : Trigger → Key
unfolding get_trigger_event
get_trigger_key trigger = (get_trigger_event trigger).key

-- Finishes the first `length` events of the sequence. The search for a release goes on to the
-- sequence's end.
unfoldable pub finish_sequence : ℕ → KeySequence → KeySequence
unfolding contains_event
finish_sequence zero sequence = sequence
finish_sequence (suc length) [] = []
finish_sequence (suc length) (event ∷ sequence) =
    let rest = finish_sequence length sequence in
    if is_down_state event.state
    then if contains_event (event ∷ sequence) (key_event event.key up)
      then rest
      else record event { state = down_matched } ∷ rest
    else if event.key == Key.timeout
    then record event { state = up_matched } ∷ rest
    else rest
