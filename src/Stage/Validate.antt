-- ===== src/Stage/Validate.antt =====
-- src/runtime/Stage.cpp: what a stage says of its state, and `validate_state`.
use keymapper.Prelude.{
  ℕ, int_eq, Bool, true, false, ◌&&◌, List, [], ◌∷◌, Option, none, some, if◌then◌else◌, negate,
  is_empty, remove_if,
}
use keymapper.Key.{Key, is_device_key}
use keymapper.KeyEvent.{up, KeySequence, key_event}
use keymapper.Stage.State.{Stage, OutputDown, no_device_index, any_device_index}
use keymapper.Stage.Sequences.{get_trigger_key}
use keymapper.Stage.Apply.{apply_input}

abbrev is_none {ℓ} : {A : Type ℓ} → Option A → Bool
is_none none = true
is_none (some a) = false

unfoldable pub is_clear : Stage → Bool
is_clear s =
    is_empty s.out.output_down
    && (is_empty s.out.output_on_release
        && (is_empty s.sequence
            && (int_eq s.last_repeat_device_index no_device_index
                && (is_empty s.history
                    && (negate s.sequence_might_match && is_none s.out.current_timeout)))))

unfoldable pub get_output_keys_down : List OutputDown → List Key
get_output_keys_down [] = []
get_output_keys_down (d ∷ ds) =
    let rest = get_output_keys_down ds in if is_device_key d.key then d.key ∷ rest else rest

-- The releases of the outputs whose trigger is not down.
unfoldable pub release_events_of : (Key → Bool) → List OutputDown → KeySequence
release_events_of is_down [] = []
release_events_of is_down (d ∷ ds) =
    let rest = release_events_of is_down ds in
    if is_device_key d.key && negate (is_down (get_trigger_key d.trigger))
    then key_event d.key up ∷ rest
    else rest

unfoldable pub apply_inputs : ℕ → KeySequence → Stage → Stage
apply_inputs now [] s = s
apply_inputs now (event ∷ events) s =
    apply_inputs now events (apply_input now event any_device_index s)

unfoldable pub validate_state : ℕ → (Key → Bool) → Stage → Stage
validate_state now is_down s =
    let s' = record s {
      sequence_might_match = false;
      sequence =
          remove_if (λ event. is_device_key event.key && negate (is_down event.key)) s.sequence;
    } in
    apply_inputs now (release_events_of is_down s'.out.output_down) s'
