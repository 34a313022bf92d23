-- ===== src/ParseKeySequence/Parser.antt =====
-- src/config/ParseKeySequence.h and .cpp: the members of the parser with the locals of `parse`, its
-- errors, and the methods that add events and release keys. `is_input` is the member m_is_input, which
-- nothing changes while a text is parsed.
use keymapper.Prelude.{
  ℕ, zero, suc, ◌-◌, Bool, true, false, ◌&&◌, List, [], ◌∷◌, ◌++◌, none, some, map, foldl, ◌==◌,
  if◌then◌else◌, negate, length, is_empty, get_last?, drop_last, push, remove_if, any, rfind_if,
}
use mathlib.Core.List.{reverse}
use keymapper.Key
use keymapper.Key.{Key, is_virtual_key}
use keymapper.KeyEvent.{
  KeyState, up, down, not, up_async, not_timeout_cancel_on_up_down, not_timeout_cancel_on_down,
  timeout_cancel_on_up_down, timeout_cancel_on_down, state_eq, is_not_timeout, KeyEvent,
  KeySequence, key_event, event_eq,
}
use keymapper.Timeout.{sum_timeouts}
use keymapper.StringIteration.{Text}

-- The messages of the exceptions. `thrown` is one from a function that the parser is given,
-- `undefined` is `back()` of an empty vector, and `out_of_fuel` is no exception: the loop has not ended.
pub data Error : Type 0 where
  unexpected expected unexpected_symbol : ℕ → Error
  invalid_key thrown : Text → Error
  invalid_character unterminated_string timeout_in_group starts_with_timeout : Error
  not_timeout_in_output more_than_one_character no_key_event virtual_keys : Error
  context_active_in_output context_active_not_alone : Error
  undefined out_of_fuel : Error

pub data Result {ℓ} (A : Type ℓ) : Type ℓ where
  ok : A → Result A
  err : Error → Result A

infixl 5 ◌>>=◌
abbrev pub ◌>>=◌ {ℓ κ} : {A : Type ℓ} {B : Type κ} → Result A → (A → Result B) → Result B
ok a >>= f = f a
err e >>= f = err e

-- What a function that the parser is given does: it returns, or throws with a message.
pub data Called (A : Type 0) : Type 0 where
  returned : A → Called A
  threw : Text → Called A

abbrev pub result : {A : Type 0} → Called A → Result A
result (returned a) = ok a
result (threw message) = err (thrown message)

-- The members that change, and the locals of `parse`.
pub record Parser : Type 0 where
  pub pressed_keys : List Key
  pub key_buffer : List Key
  pub keys_pressed_before_modifier_group : List ℕ
  pub sequence : KeySequence
  -- The calls of m_add_terminal_command.
  pub commands : List Text
  pub is_no_might_match : Bool
  pub output_on_release : Bool
  pub in_together_group : Bool
  pub in_modified_group : ℕ
  pub has_modifier : Bool

abbrev pub initial : Parser
initial = record {
  pressed_keys = [];
  key_buffer = [];
  keys_pressed_before_modifier_group = [];
  sequence = [];
  commands = [];
  is_no_might_match = false;
  output_on_release = false;
  in_together_group = false;
  in_modified_group = 0;
  has_modifier = false;
}

unfoldable pub has_key_down : KeySequence → Bool
has_key_down =
    any (λ (event : KeyEvent). state_eq event.state down && negate (event.key == Key.timeout))

unfoldable pub has_key_up : KeySequence → Bool
has_key_up =
    any (λ (event : KeyEvent). state_eq event.state up && negate (event.key == Key.timeout))

unfoldable pub ends_with_async_up : KeySequence → Key → Bool
ends_with_async_up sequence key = elim (get_last? sequence) [
  | none ↦ false
  | some event ↦ event_eq event (key_event key up_async)
]

unfoldable pub is_pressed : KeySequence → Key → Bool
is_pressed sequence key = elim (rfind_if (λ (event : KeyEvent). event.key == key) sequence) [
  | none ↦ false
  | some event ↦ negate (state_eq event.state up)
]

unfoldable pub has_virtual_key : KeySequence → Bool
has_virtual_key = any (λ (event : KeyEvent). is_virtual_key event.key)

-- `m_sequence.back().state = state`
abbrev pub set_last_state : KeyState → KeySequence → KeySequence
set_last_state state [] = []
set_last_state state (e ∷ []) = record e { state = state } ∷ []
set_last_state state (e ∷ f ∷ rest) = e ∷ set_last_state state (f ∷ rest)

unfoldable pub add_key_to_sequence : Key → KeyState → ℕ → Parser → Parser
add_key_to_sequence key state value s = record s {
  sequence = push s.sequence (record { key = key; state = state; value = value });
}

unfoldable pub add_key_to_buffer : Key → Parser → Parser
add_key_to_buffer key s = record s { key_buffer = push s.key_buffer key }

abbrev pub remove_key : Key → List Key → List Key
remove_key key = remove_if (λ (k : Key). k == key)

unfoldable pub remove_from_pressed_keys : Key → Parser → Bool × Parser
remove_from_pressed_keys key s =
    let rest = remove_key key s.pressed_keys in
    (negate (length rest == length s.pressed_keys), record s { pressed_keys = rest })

-- A press of each key of the buffer.
abbrev pub presses : KeyState → List Key → KeySequence
presses state = map (λ (key : Key). key_event key state)

abbrev pub remove_keys : List Key → List Key → List Key
remove_keys keys pressed = foldl (λ (rest : List Key) (key : Key). remove_key key rest) pressed keys

unfoldable pub flush_key_buffer : Bool → Bool → Parser → Parser
flush_key_buffer is_input up_immediately s = record s {
  sequence =
      s.sequence
      ++ (presses down s.key_buffer
          ++ (if up_immediately
              then presses (if is_input then up_async else up) s.key_buffer
              else []));
  pressed_keys =
      if up_immediately
      then (if is_input then s.pressed_keys else remove_keys s.key_buffer s.pressed_keys)
      else s.pressed_keys ++ s.key_buffer;
  key_buffer = [];
}

abbrev pub release_event : Bool → Key → KeySequence
release_event is_input key =
    key_event key (if is_input then up_async else up)
    ∷ (if negate is_input && is_virtual_key key then key_event key not ∷ [] else [])

-- So many rounds of the loop of `release_pressed_keys`.
unfoldable pub release_keys : Bool → ℕ → Parser → Parser
release_keys is_input zero s = s
release_keys is_input (suc rounds) s = elim (get_last? s.pressed_keys) [
  | none ↦ s
  | some key ↦ release_keys is_input rounds (record s {
    sequence = s.sequence ++ release_event is_input key;
    pressed_keys = drop_last s.pressed_keys;
  })
]

unfoldable pub release_pressed_keys : Bool → ℕ → Parser → Parser
unfolding release_keys
release_pressed_keys is_input keep_keys_pressed s =
    release_keys is_input (length s.pressed_keys - keep_keys_pressed) s

-- From the end on: the keys of the UpAsyncs behind the last not-timeout.
abbrev keys_after_not_timeout : KeySequence → List Key → List Key
keys_after_not_timeout [] keys = []
keys_after_not_timeout (event ∷ before) keys =
    if event.key == Key.timeout && is_not_timeout event.state
    then keys
    else if negate (state_eq event.state up_async)
    then []
    else keys_after_not_timeout before (event.key ∷ keys)

unfoldable pub sync_after_not_timeout : Parser → Parser
sync_after_not_timeout s = record s {
  sequence = s.sequence ++ presses up (keys_after_not_timeout (reverse s.sequence) []);
}

abbrev pub starting_with : KeyState → KeySequence → KeySequence
starting_with state [] = []
starting_with state (event ∷ rest) =
    if state_eq event.state state then event ∷ rest else starting_with state rest

unfoldable pub all_pressed_at_once : KeySequence → Bool
all_pressed_at_once sequence = is_empty (starting_with down (starting_with up sequence))

-- `remove_all_from_end` on the sequence.
unfoldable pub remove_all_from_end : KeyState → KeySequence → KeySequence
remove_all_from_end state [] = []
remove_all_from_end state (event ∷ rest) =
    let kept = remove_all_from_end state rest in
    if is_empty kept && state_eq event.state state then [] else event ∷ kept

abbrev pub timeout_state : Bool → Bool → Bool → KeyState
timeout_state is_input is_not cancel_on_up =
    if negate is_input
    then down
    else if is_not
    then (if cancel_on_up then not_timeout_cancel_on_up_down else not_timeout_cancel_on_down)
    else (if cancel_on_up then timeout_cancel_on_up_down else timeout_cancel_on_down)

-- The last event becomes an Up if it is a Not.
abbrev pub not_to_up : KeySequence → KeySequence
not_to_up sequence = elim (get_last? sequence) [
  | none ↦ sequence
  | some event ↦ if state_eq event.state not then set_last_state up sequence else sequence
]

abbrev pub set_last_value : ℕ → KeySequence → KeySequence
set_last_value value [] = []
set_last_value value (e ∷ []) = record e { value = value } ∷ []
set_last_value value (e ∷ f ∷ rest) = e ∷ set_last_value value (f ∷ rest)

abbrev pub append_timeout : KeyState → ℕ → KeySequence → KeySequence
append_timeout state timeout sequence =
    push sequence (record { key = Key.timeout; state = state; value = timeout })

abbrev pub merge_timeout : KeyState → ℕ → KeySequence → KeySequence
merge_timeout state timeout sequence = elim (get_last? sequence) [
  | none ↦ append_timeout state timeout sequence
  | some event ↦
      if event.key == Key.timeout && state_eq event.state state
      then set_last_value (sum_timeouts event.value timeout) sequence
      else append_timeout state timeout sequence
]

unfoldable pub add_timeout_event : Bool → ℕ → Bool → Bool → Parser → Result Parser
add_timeout_event is_input timeout is_not cancel_on_up s =
    let flushed = flush_key_buffer is_input true s in
    if is_input && is_empty flushed.sequence
    then err starts_with_timeout
    else if negate is_input && is_not
    then err not_timeout_in_output
    else ok (record flushed {
      sequence =
          merge_timeout (timeout_state is_input is_not cancel_on_up) timeout
            (if is_input then not_to_up flushed.sequence else flushed.sequence);
    })

unfoldable pub convert_final_not_to_up : KeySequence → KeySequence
convert_final_not_to_up sequence = elim (get_last? sequence) [
  | none ↦ sequence
  | some event ↦
      if state_eq event.state not && negate (event.key == Key.timeout)
      then set_last_state up sequence
      else sequence
]

unfoldable pub check_context_active_usage : Bool → KeySequence → Result KeySequence
check_context_active_usage is_input sequence =
    if any (λ (event : KeyEvent). event.key == Key.context_active) sequence
    then (if negate is_input
        then err context_active_in_output
        else if negate (length sequence == 2)
        then err context_active_not_alone
        else ok (drop_last sequence))
    else ok sequence
