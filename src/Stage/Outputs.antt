-- ===== src/Stage/Outputs.antt =====
-- src/runtime/Stage.cpp: the functions that produce output, `update_output` to `release_triggered`.
-- What they read of the stage and do not write is a parameter: the sequence, the keys matched by
-- Any and the toggle of the virtual keys.
pub mod Triggers
use keymapper.Prelude.{
  ℕ, zero, suc, ◌+◌, ◌%◌, ℤ, int_eq, Bool, true, false, ◌&&◌, ◌||◌, List, [], ◌∷◌, ◌++◌, Option,
  none, some, foldl, map, ◌==◌, if◌then◌else◌, negate, is_empty, any, find_if, remove_if,
  remove_first, remove_last, modify_first, push, get_last?, drop_last, length,
}
use keymapper.Key
use keymapper.Key.{Key, is_virtual_key, is_action_key, is_common_modifier}
use keymapper.KeyEvent.{
  KeyState, up, down, not, output_on_release, state_eq, KeyEvent, KeySequence, key_event, event_eq,
}
use keymapper.Stage.State.{
  Trigger, by_event, by_key, OutputOnRelease, OutputDown, CurrentTimeout, Output, no_context_index,
}
use keymapper.Stage.Sequences.{count_key_downs, get_trigger_event, get_trigger_key, has_key}

abbrev pub is_output : Key → OutputDown → Bool
is_output key output = output.key == key

abbrev pub emit : Output → KeyEvent → Output
emit o event = record o { output_buffer = push o.output_buffer event }

abbrev pub with_down : Output → List OutputDown → Output
with_down o downs = record o { output_down = downs }

-- `case KeyState::Up` of `update_output`, for the output that holds the key.
unfoldable pub update_up : KeyEvent → Trigger → OutputDown → Output → Output
update_up event trigger it o =
    if it.pressed_twice && is_virtual_key event.key
    then emit
        (with_down o (
          modify_first (is_output event.key) (λ d. record d { pressed_twice = false })
            o.output_down))
        event
    else if it.pressed_twice && negate it.suppressed
    then record o {
      output_buffer = remove_last (has_key event.key) o.output_buffer;
      output_down =
          modify_first (is_output event.key) (λ d. record d { pressed_twice = false })
            o.output_down;
    }
    else if get_trigger_key it.trigger == get_trigger_key trigger
    then emit (with_down o (remove_first (is_output event.key) o.output_down)) event
    else emit
        (with_down o (
          modify_first (is_output event.key) (λ d. record d { temporarily_released = true })
            o.output_down))
        event

-- `case KeyState::Not`
unfoldable pub update_not : KeyEvent → OutputDown → Output → Output
update_not event it o =
    if is_virtual_key event.key || is_action_key event.key
    then o
    else let suppress =
        modify_first (is_output event.key)
          (λ d. record d { temporarily_released = true; suppressed = true }) o.output_down in
      if negate it.temporarily_released
      then emit (with_down o suppress) (key_event event.key up)
      else with_down o suppress

-- What the loop of `case KeyState::Down` leaves, and whether it returned.
pub record Reapplied : Type 0 where
  pub downs : List OutputDown
  pub buffer : KeySequence
  pub reapplied : Bool
  pub returned : Bool

abbrev pub keep_first : OutputDown → Reapplied → Reapplied
keep_first d r = record r { downs = d ∷ r.downs }

abbrev ends_with_up : KeySequence → Key → Bool
ends_with_up buffer key = elim (get_last? buffer) [
  | none ↦ false
  | some e ↦ event_eq e (key_event key up)
]

unfoldable pub reapply : Key → List OutputDown → KeySequence → Bool → Reapplied
reapply key [] buffer reapplied = record {
  downs = [];
  buffer = buffer;
  reapplied = reapplied;
  returned = false;
}
reapply key (d ∷ ds) buffer reapplied =
    let back = record d { temporarily_released = false } in
    let pressed = push buffer (key_event d.key down) in
    let after_reapplied = reapply key ds pressed true in
    let after_kept = reapply key ds buffer reapplied in
    if d.temporarily_released && negate d.suppressed
    then if d.key == key
      then record { downs = back ∷ ds; buffer = pressed; reapplied = true; returned = true }
      else keep_first back after_reapplied
    else if (d.temporarily_released && d.key == key)
        && (is_common_modifier key && ends_with_up buffer key)
    then record {
      downs = back ∷ ds;
      buffer = drop_last buffer;
      reapplied = reapplied;
      returned = true;
    }
    else keep_first d after_kept

abbrev pub new_output : Key → Trigger → ℤ → OutputDown
new_output key trigger context_index = record {
  key = key;
  trigger = trigger;
  suppressed = false;
  temporarily_released = false;
  pressed_twice = false;
  context_index = context_index;
}

-- The rest of `case KeyState::Down`.
unfoldable pub press_output : KeyEvent → Trigger → ℤ → Output → Output
press_output event trigger context_index o = elim (find_if (is_output event.key) o.output_down) [
  | none ↦
      emit
        (if event.key == Key.timeout
          then o
          else with_down o (push o.output_down (new_output event.key trigger context_index)))
        event
  | some it ↦
      if o.temporary_reapplied
      then emit
          (emit
            (with_down o (
              modify_first (is_output event.key)
                (λ d. record d { temporarily_released = false; pressed_twice = false })
                o.output_down))
            (key_event event.key up))
          event
      else emit
          (with_down o (
            modify_first (is_output event.key)
              (λ d. record d { temporarily_released = false; pressed_twice = true }) o.output_down))
          event
]

-- `case KeyState::Down`
unfoldable pub update_down : KeyEvent → Trigger → ℤ → Output → Output
update_down event trigger context_index o =
    let r = reapply event.key o.output_down o.output_buffer o.temporary_reapplied in
    let o' = record o {
      output_down = r.downs;
      output_buffer = r.buffer;
      temporary_reapplied = r.reapplied;
    } in
    if r.returned then o' else press_output event trigger context_index o'

abbrev pub on_output : Option OutputDown → Output → (OutputDown → Output) → Output
on_output none o f = o
on_output (some it) o f = f it

-- The states that the output ignores, and those that do not reach it.
unfoldable pub update_output_in : KeyState → KeyEvent → Trigger → ℤ → Output → Output
update_output_in up event trigger context_index o =
    on_output (find_if (is_output event.key) o.output_down) o (λ it. update_up event trigger it o)
update_output_in not event trigger context_index o =
    on_output (find_if (is_output event.key) o.output_down) o (λ it. update_not event it o)
update_output_in down event trigger context_index o = update_down event trigger context_index o
update_output_in _ event trigger context_index o = o

unfoldable pub update_output : KeyEvent → Trigger → ℤ → Output → Output
update_output event trigger context_index o =
    update_output_in event.state event trigger context_index o

abbrev pub is_triggered : Key → ℤ → OutputDown → Bool
is_triggered key context_index d =
    get_trigger_key d.trigger == key
    && (negate (key == Key.context_active) || int_eq d.context_index context_index)

-- The releases go out in the reverse order of the presses.
unfoldable pub release_events : Key → ℤ → List OutputDown → KeySequence
release_events key context_index [] = []
release_events key context_index (d ∷ ds) =
    release_events key context_index ds
    ++ (if is_triggered key context_index d && negate d.temporarily_released
        then key_event d.key up ∷ []
        else [])

abbrev reset_timeout : Key → Option CurrentTimeout → Option CurrentTimeout
reset_timeout key none = none
reset_timeout key (some t) = if t.trigger == key then none else some t

unfoldable pub release_triggered : Key → ℤ → Output → Output
release_triggered key context_index o = record o {
  output_buffer = o.output_buffer ++ release_events key context_index o.output_down;
  output_down = remove_if (is_triggered key context_index) o.output_down;
  current_timeout = reset_timeout key o.current_timeout;
}

abbrev changed_virtual_keys : Option CurrentTimeout → Option CurrentTimeout
changed_virtual_keys none = none
changed_virtual_keys (some t) = some (record t { virtual_keys_changed = true })

module _ (sequence : KeySequence) (any_key_matches : List Key) (virtual_keys_toggle : Bool) where
  unfoldable pub toggle_virtual_key : KeyEvent → Trigger → ℤ → Output → Output
  toggle_virtual_key event trigger context_index o =
      let times_down =
        count_key_downs sequence event.key + count_key_downs o.output_buffer event.key in
      let pressed = times_down % 2 == 1 in
      if state_eq event.state not
      then if pressed
        then update_output (key_event event.key up) trigger context_index
            (update_output (key_event event.key down) trigger context_index o)
        else o
      else if negate pressed || virtual_keys_toggle
      then update_output event trigger context_index o
      else o

  unfoldable pub update_virtual_key : KeyEvent → Trigger → ℤ → Output → Output
  update_virtual_key event trigger context_index o =
      let o' = toggle_virtual_key event trigger context_index o in
      record o' { current_timeout = changed_virtual_keys o'.current_timeout }

  -- One output for each key, in order.
  unfoldable pub update_outputs : KeyState → List Key → Trigger → ℤ → Output → Output
  update_outputs state [] trigger context_index o = o
  update_outputs state (key ∷ keys) trigger context_index o =
      update_outputs state keys trigger context_index
        (update_output (key_event key state) trigger context_index o)

  -- The round of `apply_output` for an event that does not end it.
  unfoldable pub apply_event : KeyEvent → Trigger → ℤ → Output → Output
  apply_event event trigger context_index o =
      if event.key == Key.any
      then if state_eq event.state not
        then update_outputs not (map (λ (d : OutputDown). d.key) o.output_down) trigger
            context_index o
        else update_outputs event.state any_key_matches trigger context_index o
      else if state_eq event.state output_on_release
      then o
      else if is_virtual_key event.key
      then update_virtual_key event trigger context_index o
      else update_output event trigger context_index o

  abbrev pub splits : KeyEvent → Trigger → Bool
  splits event trigger =
      negate (event.key == Key.any)
      && (state_eq event.state output_on_release && state_eq (get_trigger_event trigger).state down)

  -- An output-on-release, where the trigger was pressed, keeps the rest for the release.
  unfoldable pub apply_output : KeySequence → Trigger → ℤ → Output → Output
  apply_output [] trigger context_index o = o
  apply_output (event ∷ rest) trigger context_index o =
      let done =
        apply_output rest trigger context_index (apply_event event trigger context_index o) in
      if splits event trigger
      then record o {
        output_on_release = push o.output_on_release (record {
          trigger = get_trigger_key trigger;
          sequence = rest;
          context_index = context_index;
        });
      }
      else done

  abbrev pub is_released_by : KeyEvent → ℤ → OutputOnRelease → Bool
  is_released_by event context_index r =
      r.trigger == event.key
      && (negate (r.trigger == Key.context_active) || int_eq r.context_index context_index)

  -- On fuel; each round erases an entry. The second part is the function's result.
  unfoldable pub continue_loop : ℕ → KeyEvent → ℤ → Output → Output × Bool
  continue_loop zero event context_index o = (o, true)
  continue_loop (suc fuel) event context_index o =
      elim (find_if (is_released_by event context_index) o.output_on_release) [
        | none ↦ (o, true)
        | some r ↦
            if state_eq event.state down
            then (o, false)
            else let o' = apply_output r.sequence (by_event event) r.context_index o in
              continue_loop fuel event context_index (record o' {
                output_on_release =
                    remove_first (is_released_by event context_index) o'.output_on_release;
              })
      ]

  unfoldable pub continue_output_on_release : KeyEvent → ℤ → Output → Output × Bool
  continue_output_on_release event context_index o =
      continue_loop (suc (length o.output_on_release)) event context_index o
