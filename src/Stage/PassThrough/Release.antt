-- ===== src/Stage/PassThrough/Release.antt =====
-- src/runtime/Stage.cpp: the release of a key that no context maps.
use keymapper.Prelude.{
  [], true, arith, ◌≡◌, refl, false, ◌∷◌, some, any, find_if, remove_if, remove_first, ℕ, ℤ, int_eq,
  if◌then◌else◌, ==_self,
}
use keymapper.Key.{is_virtual_key, Key}
use keymapper.KeyEvent.{up, key_event}
use keymapper.Stage.Sequences.{find_key, has_non_optional, get_trigger_key}
use keymapper.Stage.Outputs.{
  release_events, release_triggered, continue_loop, continue_output_on_release, new_output,
}
use keymapper.Stage.Setup.{no_output}
use keymapper.Stage.Contexts.{
  only_first, toggle_contexts, evaluate_contexts, update_active_contexts,
}
use keymapper.Stage.History.{clean_up, clean_up_history}
use keymapper.Stage.Inputs.{match_contexts, match_input, forward_from_sequence}
use keymapper.Stage.Update.{
  request_timeout, filter_result, forward_start, finish_round, whole, iterate, match_sequence,
  match_sequence_fuel, repeat,
}
use keymapper.Stage.Apply.{
  suppress_timeout, merge_event, record_history, release_in_sequence, reset_suppressed,
  drop_matched_timeouts, finish_input, enter_sequence, process_event, apply_merged, apply_continued,
  apply_input, advance_exit_sequence, update,
}
use keymapper.Stage.State.{no_context_index, Stage, by_key, no_device_index}
use keymapper.Stage.PassThrough.Idle.{idle, pressed}

-- The release reaches the sequence.
abbrev released : Key → Stage → Stage
released k s = record (pressed k s) { prev_active_contexts = []; sequence = key_event k up ∷ [] }

abbrev returned : Key → Stage → Stage
returned k s = record (idle s) {
  prev_active_contexts = [];
  out = record no_output { output_buffer = key_event k up ∷ [] };
}

reset_first :
    (k : Key)
    → reset_suppressed (new_output k (by_key k) no_context_index ∷ [])
      ≡ new_output k (by_key k) no_context_index ∷ []
unfolding reset_suppressed any
reset_first k = ground arith

release_first :
    (k : Key)
    → release_triggered k no_context_index
        (record no_output { output_down = new_output k (by_key k) no_context_index ∷ [] })
      ≡ record no_output { output_buffer = key_event k up ∷ [] }
unfolding release_triggered release_events remove_if get_trigger_key
release_first k = ground (arith, ==_self k)

enter-pressed :
    (now : ℕ) (k : Key) (s : Stage)
    → enter_sequence now (key_event k up) (pressed k s) ≡ released k s
unfolding enter_sequence record_history update_active_contexts evaluate_contexts toggle_contexts
    only_first release_in_sequence find_key find_if remove_first
enter-pressed now k s = rw (==_self k, reset_first k) refl

forward-released : (k : Key) (s : Stage) → forward_start (released k s) ≡ returned k s
unfolding forward_start forward_from_sequence has_non_optional any
forward-released k s = rw (release_first k) refl

first_round_up :
    (k : Key) (d : ℤ) (s : Stage)
    → iterate (key_event k up) d false (released k s) ≡ repeat true (released k s)
unfolding iterate match_input match_contexts
first_round_up k d s = refl

second_round_up :
    (k : Key) (d : ℤ) (s : Stage)
    → is_virtual_key k ≡ false
    → iterate (key_event k up) d true (released k s) ≡ repeat true (returned k s)
unfolding iterate match_input match_contexts finish_round request_timeout filter_result whole
second_round_up k d s v = rw (v, forward-released k s) refl

loop-released :
    (k : Key) (d : ℤ) (s : Stage)
    → is_virtual_key k ≡ false
    → match_sequence
        (match_sequence_fuel (key_event k up ∷ []))
        (key_event k up)
        d
        false
        (released k s)
      ≡ some (returned k s)
unfolding match_sequence match_sequence_fuel has_non_optional any
loop-released k d s v = rw (first_round_up k d s, second_round_up k d s v) refl

finish-returned :
    (k : Key) (s : Stage) → finish_input (key_event k up) (returned k s) ≡ returned k s
unfolding finish_input release_triggered release_events remove_if update_active_contexts
    evaluate_contexts toggle_contexts only_first drop_matched_timeouts clean_up_history clean_up
finish-returned k s = refl

process-pressed :
    (now : ℕ) (k : Key) (d : ℤ) (s : Stage)
    → is_virtual_key k ≡ false
    → process_event now (key_event k up) d (pressed k s) ≡ returned k s
unfolding process_event
process-pressed now k d s v =
    rw (enter-pressed now k s, loop-released k d s v, finish-returned k s) refl

abbrev after_release : ℤ → Stage → Stage
after_release d s = record s {
  last_repeat_device_index =
      if int_eq d s.last_repeat_device_index then no_device_index else s.last_repeat_device_index;
}

merged-pressed :
    (now : ℕ) (k : Key) (d : ℤ) (s : Stage)
    → is_virtual_key k ≡ false
    → apply_merged now (key_event k up) d (pressed k s) ≡ returned k (after_release d s)
unfolding apply_merged merge_event
merged-pressed now k d s v = process-pressed now k d (after_release d s) v

apply-pressed :
    (now : ℕ) (k : Key) (d : ℤ) (s : Stage)
    → is_virtual_key k ≡ false
    → apply_input now (key_event k up) d (pressed k s) ≡ returned k (after_release d s)
unfolding apply_input apply_continued continue_output_on_release continue_loop find_if
    suppress_timeout
apply-pressed now k d s v = merged-pressed now k d s v

pub update-pressed :
    (now : ℕ) (k : Key) (d : ℤ) (s : Stage)
    → is_virtual_key k ≡ false
    → (s' : Stage) × (update now (key_event k up) d (pressed k s) ≡ (key_event k up ∷ [], idle s'))
unfolding update advance_exit_sequence
update-pressed now k d s v = (
  record (after_release d (advance_exit_sequence (key_event k up) s)) { prev_active_contexts = [] },
  rw (apply-pressed now k d (advance_exit_sequence (key_event k up) s) v) refl,
)
