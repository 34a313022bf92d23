-- ===== src/ParseKeySequence/Keeps.antt =====
-- src/config/ParseKeySequence.cpp: what the methods of the parser keep.
use keymapper.Prelude.{
  ℕ, zero, suc, ◌-◌, ◌≡◌, refl, Bool, true, false, ◌&&◌, List, [], ◌∷◌, ◌++◌, ◌==◌, if◌then◌else◌,
  negate, length, get_last?, All, All-append, if_rule, option_rule,
}
use keymapper.Key
use keymapper.Key.{Key, is_virtual_key}
use keymapper.KeyEvent.{
  KeyState, up, down, not, up_async, down_async, no_might_match, output_on_release,
  not_timeout_cancel_on_up_down, KeyEvent, KeySequence, state_eq,
}
use keymapper.ParseKeySequence.Parser.{
  Parser, add_key_to_sequence, flush_key_buffer, merge_timeout, not_to_up, presses, release_event,
  release_keys, release_pressed_keys, remove_from_pressed_keys, set_last_state, set_last_value,
  sync_after_not_timeout, timeout_state,
}

-- The states that an event of an input, or of an output, has.
abbrev pub allowed : Bool → KeyState → Bool
allowed true up = true
allowed true down = true
allowed true not = true
allowed true up_async = true
allowed true down_async = true
allowed true no_might_match = true
allowed true not_timeout_cancel_on_up_down = true
allowed false up = true
allowed false down = true
allowed false not = true
allowed false output_on_release = true
allowed _ _ = false

abbrev pub IsAllowed : Bool → KeyEvent → Type 0
IsAllowed is_input event = allowed is_input event.state ≡ true

abbrev pub AllAllowed : Bool → KeySequence → Type 0
AllAllowed is_input = All (IsAllowed is_input)

-- There is an entry for each group that is open.
pub record IsConsistent (is_input : Bool) (s : Parser) : Type 0 where
  pub groups : length s.keys_pressed_before_modifier_group ≡ s.in_modified_group
  pub states : AllAllowed is_input s.sequence

pub append-AllAllowed :
    (is_input : Bool) (xs ys : KeySequence)
    → AllAllowed is_input xs
    → AllAllowed is_input ys
    → AllAllowed is_input (xs ++ ys)
append-AllAllowed is_input = All-append (IsAllowed is_input)

pub presses-AllAllowed :
    (is_input : Bool) (state : KeyState) (keys : List Key)
    → allowed is_input state ≡ true
    → AllAllowed is_input (presses state keys)
presses-AllAllowed is_input state [] h = tt
presses-AllAllowed is_input state (k ∷ keys) h = (h, presses-AllAllowed is_input state keys h)

release_state : (is_input : Bool) → allowed is_input (if is_input then up_async else up) ≡ true
release_state true = refl
release_state false = refl

pub down_state : (is_input : Bool) → allowed is_input down ≡ true
down_state true = refl
down_state false = refl

pub up_state : (is_input : Bool) → allowed is_input up ≡ true
up_state true = refl
up_state false = refl

pub not_state : (is_input : Bool) → allowed is_input not ≡ true
not_state true = refl
not_state false = refl

pub set_last_state-AllAllowed :
    (is_input : Bool) (state : KeyState) (xs : KeySequence)
    → allowed is_input state ≡ true
    → AllAllowed is_input xs
    → AllAllowed is_input (set_last_state state xs)
set_last_state-AllAllowed is_input state [] a h = tt
set_last_state-AllAllowed is_input state (x ∷ []) a h = (a, tt)
set_last_state-AllAllowed is_input state (x ∷ y ∷ xs) a h =
    (h.0, set_last_state-AllAllowed is_input state (y ∷ xs) a h.1)

pub add_key-IsConsistent :
    (is_input : Bool) (key : Key) (state : KeyState) (value : ℕ) (s : Parser)
    → allowed is_input state ≡ true
    → IsConsistent is_input s
    → IsConsistent is_input (add_key_to_sequence key state value s)
unfolding add_key_to_sequence
add_key-IsConsistent is_input key state value s a h = record {
  groups = h.groups;
  states = append-AllAllowed is_input s.sequence _ h.states (a, tt);
}

pub flush_key_buffer-IsConsistent :
    (is_input now : Bool) (s : Parser)
    → IsConsistent is_input s
    → IsConsistent is_input (flush_key_buffer is_input now s)
unfolding flush_key_buffer
flush_key_buffer-IsConsistent is_input now s h = record {
  groups = h.groups;
  states = append-AllAllowed is_input s.sequence _ h.states (
      append-AllAllowed is_input (presses down s.key_buffer) _
        (presses-AllAllowed is_input down s.key_buffer (down_state is_input))
        (if_rule (AllAllowed is_input) now
          (λ _. presses-AllAllowed is_input _ s.key_buffer (release_state is_input)) (λ _. tt)));
}

pub remove_from_pressed_keys-IsConsistent :
    (is_input : Bool) (key : Key) (s : Parser)
    → IsConsistent is_input s
    → IsConsistent is_input (remove_from_pressed_keys key s).1
unfolding remove_from_pressed_keys
remove_from_pressed_keys-IsConsistent is_input key s h = record {
  groups = h.groups;
  states = h.states;
}

release_event-AllAllowed :
    (is_input : Bool) (key : Key) → AllAllowed is_input (release_event is_input key)
release_event-AllAllowed is_input key = (
  release_state is_input,
  if_rule (AllAllowed is_input) (negate is_input && is_virtual_key key)
      (λ _. (not_state is_input, tt)) (λ _. tt),
)

release_keys-IsConsistent :
    (is_input : Bool) (rounds : ℕ) (s : Parser)
    → IsConsistent is_input s
    → IsConsistent is_input (release_keys is_input rounds s)
unfolding release_keys
release_keys-IsConsistent is_input zero s h = h
release_keys-IsConsistent is_input (suc rounds) s h =
    option_rule (IsConsistent is_input) (get_last? s.pressed_keys) (λ _. h)
      (λ key _. release_keys-IsConsistent is_input rounds _ (record {
        groups = h.groups;
        states =
            append-AllAllowed is_input s.sequence _ h.states
              (release_event-AllAllowed is_input key);
      }))

pub release_pressed_keys-IsConsistent :
    (is_input : Bool) (keep : ℕ) (s : Parser)
    → IsConsistent is_input s
    → IsConsistent is_input (release_pressed_keys is_input keep s)
unfolding release_pressed_keys
release_pressed_keys-IsConsistent is_input keep s h =
    release_keys-IsConsistent is_input (length s.pressed_keys - keep) s h

pub sync_after_not_timeout-IsConsistent :
    (is_input : Bool) (s : Parser)
    → IsConsistent is_input s
    → IsConsistent is_input (sync_after_not_timeout s)
unfolding sync_after_not_timeout
sync_after_not_timeout-IsConsistent is_input s h = record {
  groups = h.groups;
  states =
      append-AllAllowed is_input s.sequence _ h.states
        (presses-AllAllowed is_input up _ (up_state is_input));
}

pub not_to_up-AllAllowed :
    (is_input : Bool) (xs : KeySequence)
    → AllAllowed is_input xs
    → AllAllowed is_input (not_to_up xs)
not_to_up-AllAllowed is_input xs h =
    option_rule (AllAllowed is_input) (get_last? xs) (λ _. h)
      (λ event _.
        if_rule (AllAllowed is_input) (state_eq event.state not)
          (λ _. set_last_state-AllAllowed is_input up xs (up_state is_input) h) (λ _. h))

set_last_value-AllAllowed :
    (is_input : Bool) (value : ℕ) (xs : KeySequence)
    → AllAllowed is_input xs
    → AllAllowed is_input (set_last_value value xs)
set_last_value-AllAllowed is_input value [] h = tt
set_last_value-AllAllowed is_input value (x ∷ []) h = h
set_last_value-AllAllowed is_input value (x ∷ y ∷ xs) h =
    (h.0, set_last_value-AllAllowed is_input value (y ∷ xs) h.1)

pub merge_timeout-AllAllowed :
    (is_input : Bool) (state : KeyState) (timeout : ℕ) (xs : KeySequence)
    → allowed is_input state ≡ true
    → AllAllowed is_input xs
    → AllAllowed is_input (merge_timeout state timeout xs)
merge_timeout-AllAllowed is_input state timeout xs a h =
    option_rule (AllAllowed is_input) (get_last? xs)
      (λ _. append-AllAllowed is_input xs _ h (a, tt))
      (λ event _.
        if_rule (AllAllowed is_input) (event.key == Key.timeout && state_eq event.state state)
          (λ _. set_last_value-AllAllowed is_input _ xs h)
          (λ _. append-AllAllowed is_input xs _ h (a, tt)))

pub timeout_state-allowed :
    (is_input is_not cancel_on_up : Bool)
    → allowed is_input (timeout_state is_input is_not cancel_on_up) ≡ true
timeout_state-allowed true true true = refl
timeout_state-allowed true true false = refl
timeout_state-allowed true false true = refl
timeout_state-allowed true false false = refl
timeout_state-allowed false is_not cancel_on_up = refl
