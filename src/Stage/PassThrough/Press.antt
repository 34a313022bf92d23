-- ===== src/Stage/PassThrough/Press.antt =====
-- src/runtime/Stage.cpp: the press of a key that no context maps.
use keymapper.Prelude.{
  [], true, negsuc, arith, ◌≡◌, refl, pos, false, ◌∷◌, some, any, find_if, rfind_if, ℕ, ◌≢◌, ℤ,
  int_eq, if◌then◌else◌,
}
use keymapper.Key
use keymapper.Key.{is_virtual_key, Key}
use keymapper.KeyEvent.{up, down, key_event}
use keymapper.Stage.Sequences.{rfind_key, contains_event, has_non_optional}
use keymapper.Stage.Outputs.{
  reapply, press_output, update_down, update_output_in, update_output, continue_loop,
  continue_output_on_release, new_output,
}
use keymapper.Stage.Setup.{no_output}
use keymapper.Stage.Contexts.{
  only_first, toggle_contexts, evaluate_contexts, update_active_contexts,
}
use keymapper.Stage.History.{clean_up, clean_up_history}
use keymapper.Stage.Inputs.{match_contexts, match_input, forward_from_sequence}
use keymapper.Stage.Update.{
  request_timeout, filter_result, forward_start, finish_round, whole, iterate, match_sequence,
  match_sequence_fuel, repeat,
}
use keymapper.Stage.Apply.{
  suppress_timeout, merge_press, merge_event, record_history, release_in_sequence, reset_suppressed,
  drop_matched_timeouts, finish_input, enter_sequence, process_event, apply_merged, apply_continued,
  apply_input, advance_exit_sequence, update,
}
use keymapper.Stage.State.{no_context_index, Stage, by_key, no_device_index}
use keymapper.Stage.PassThrough.Idle.{idle, pressed}

enter-idle :
    (now : ℕ) (k : Key) (s : Stage)
    → enter_sequence now (key_event k down) (idle s)
      ≡ record (idle s) { prev_active_contexts = []; sequence = key_event k down ∷ [] }
unfolding enter_sequence record_history update_active_contexts evaluate_contexts toggle_contexts
    only_first release_in_sequence reset_suppressed any
enter-idle now k s = refl

abbrev fresh : Key → Stage → Stage
fresh k s = record (idle s) { prev_active_contexts = []; sequence = key_event k down ∷ [] }

abbrev sent : Key → Stage → Stage
sent k s = record (pressed k s) {
  prev_active_contexts = [];
  out = record ((pressed k s).out) { output_buffer = key_event k down ∷ [] };
}

not_released : (k : Key) → contains_event (key_event k down ∷ []) (key_event k up) ≡ false
unfolding contains_event any
not_released k = ground arith

press_first :
    (k : Key)
    → k ≢ Key.timeout
    → update_output (key_event k down) (by_key k) no_context_index no_output ≡ record no_output {
      output_down = new_output k (by_key k) no_context_index ∷ [];
      output_buffer = key_event k down ∷ [];
    }
unfolding update_output update_output_in update_down reapply press_output find_if
press_first k t = ground (arith, t)

forward-fresh : (k : Key) (s : Stage) → k ≢ Key.timeout → forward_start (fresh k s) ≡ sent k s
unfolding forward_start forward_from_sequence has_non_optional any
forward-fresh k s t = rw (not_released k, press_first k t) refl

first_round :
    (k : Key) (d : ℤ) (s : Stage)
    → iterate (key_event k down) d false (fresh k s) ≡ repeat true (fresh k s)
unfolding iterate match_input match_contexts
first_round k d s = refl

second_round :
    (k : Key) (d : ℤ) (s : Stage)
    → is_virtual_key k ≡ false
    → k ≢ Key.timeout
    → iterate (key_event k down) d true (fresh k s) ≡ repeat true (sent k s)
unfolding iterate match_input match_contexts finish_round request_timeout filter_result whole
second_round k d s v t = rw (v, forward-fresh k s t) refl

loop-fresh :
    (k : Key) (d : ℤ) (s : Stage)
    → is_virtual_key k ≡ false
    → k ≢ Key.timeout
    → match_sequence
        (match_sequence_fuel (key_event k down ∷ []))
        (key_event k down)
        d
        false
        (fresh k s)
      ≡ some (sent k s)
unfolding match_sequence match_sequence_fuel has_non_optional any
loop-fresh k d s v t = rw (first_round k d s, second_round k d s v t) refl

finish-sent : (k : Key) (s : Stage) → finish_input (key_event k down) (sent k s) ≡ sent k s
unfolding finish_input update_active_contexts evaluate_contexts toggle_contexts only_first
    drop_matched_timeouts clean_up_history clean_up
finish-sent k s = refl

process-idle :
    (now : ℕ) (k : Key) (d : ℤ) (s : Stage)
    → is_virtual_key k ≡ false
    → k ≢ Key.timeout
    → process_event now (key_event k down) d (idle s) ≡ sent k s
unfolding process_event
process-idle now k d s v t = rw (enter-idle now k s, loop-fresh k d s v t, finish-sent k s) refl

-- The devices are tracked.
abbrev after_press : ℤ → Stage → Stage
after_press (pos n) s = record s {
  last_repeat_device_index =
      if int_eq (pos n) s.last_repeat_device_index
      then no_device_index
      else s.last_repeat_device_index;
  last_pressed_device_index = pos n;
}
after_press (negsuc n) s = s

merge-idle :
    (k : Key) (d : ℤ) (s : Stage)
    → merge_event (key_event k down) d (idle s) ≡ some (idle (after_press d s))
unfolding merge_event merge_press rfind_key rfind_if
merge-idle k (pos n) s = refl
merge-idle k (negsuc n) s = refl

merged-idle :
    (now : ℕ) (k : Key) (d : ℤ) (s : Stage)
    → is_virtual_key k ≡ false
    → k ≢ Key.timeout
    → apply_merged now (key_event k down) d (idle s) ≡ sent k (after_press d s)
unfolding apply_merged
merged-idle now k d s v t =
    rw (merge-idle k d s, apply_merged) (process-idle now k d (after_press d s) v t)

apply-idle :
    (now : ℕ) (k : Key) (d : ℤ) (s : Stage)
    → is_virtual_key k ≡ false
    → k ≢ Key.timeout
    → apply_input now (key_event k down) d (idle s) ≡ sent k (after_press d s)
unfolding apply_input apply_continued continue_output_on_release continue_loop find_if
    suppress_timeout
apply-idle now k d s v t = merged-idle now k d s v t

pub update-idle :
    (now : ℕ) (k : Key) (d : ℤ) (s : Stage)
    → is_virtual_key k ≡ false
    → k ≢ Key.timeout
    → (s' : Stage) × (update now (key_event k down) d (idle s)
        ≡ (key_event k down ∷ [], pressed k s'))
unfolding update advance_exit_sequence
update-idle now k d s v t = (
  record (after_press d (advance_exit_sequence (key_event k down) s)) { prev_active_contexts = [] },
  rw (apply-idle now k d (advance_exit_sequence (key_event k down) s) v t) refl,
)
