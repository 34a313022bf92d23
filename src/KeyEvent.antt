-- ===== src/KeyEvent.antt =====
-- src/runtime/KeyEvent.h: key states, key events and key sequences.
pub mod Held
use keymapper.Prelude.{
  ℕ, ◌≡◌, refl, sym, ap, ◌∙◌, ◌↔◌, Bool, true, ◌&&◌, ◌||◌, List, ◌==◌, ==_iff, if◌then◌else◌,
}
use keymapper.Key
use keymapper.Key.{Key}

pub data KeyState : Type 0 where
  up down not up_async down_async no_might_match : KeyState
  output_on_release down_matched up_matched history_timing : KeyState
  not_timeout_cancel_on_up_down : KeyState

-- The value of the enumerator.
abbrev pub state_value : KeyState → ℕ
state_value up = 0
state_value down = 1
state_value not = 2
state_value up_async = 3
state_value down_async = 4
state_value no_might_match = 5
state_value output_on_release = 6
state_value down_matched = 7
state_value up_matched = 8
state_value history_timing = 9
state_value not_timeout_cancel_on_up_down = 10

-- The timeout states that rename a standard state.
abbrev pub not_timeout_cancel_on_down : KeyState
not_timeout_cancel_on_down = not

abbrev pub timeout_cancel_on_up_down : KeyState
timeout_cancel_on_up_down = up

abbrev pub timeout_cancel_on_down : KeyState
timeout_cancel_on_down = down

-- `==` on states.
abbrev pub state_eq : KeyState → KeyState → Bool
state_eq a b = state_value a == state_value b

pub record KeyEvent : Type 0 where
  pub key : Key
  pub state : KeyState
  pub value : ℕ

abbrev pub KeySequence : Type 0
KeySequence = List KeyEvent

-- `KeyEvent(key, state)`.
abbrev pub key_event : Key → KeyState → KeyEvent
key_event key state = record { key = key; state = state; value = 0 }

-- `KeyEvent()`.
abbrev pub default_event : KeyEvent
default_event = key_event Key.none up

-- `operator==`: the value is not compared.
abbrev pub event_eq : KeyEvent → KeyEvent → Bool
event_eq a b = a.key == b.key && state_eq a.state b.state

abbrev pub is_not_timeout : KeyState → Bool
is_not_timeout state =
    state_eq state not_timeout_cancel_on_down || state_eq state not_timeout_cancel_on_up_down

abbrev pub cancel_timeout_on_up : KeyState → Bool
cancel_timeout_on_up state =
    state_eq state not_timeout_cancel_on_up_down || state_eq state timeout_cancel_on_up_down

abbrev pub is_down_state : KeyState → Bool
is_down_state state = state_eq state down || state_eq state down_matched

abbrev pub state_of : ℕ → KeyState
state_of n =
    if n == 0
    then up
    else if n == 1
    then down
    else if n == 2
    then not
    else if n == 3
    then up_async
    else if n == 4
    then down_async
    else if n == 5
    then no_might_match
    else if n == 6
    then output_on_release
    else if n == 7
    then down_matched
    else if n == 8
    then up_matched
    else if n == 9
    then history_timing
    else not_timeout_cancel_on_up_down

pub state_of-value : (s : KeyState) → state_of (state_value s) ≡ s
state_of-value up = refl
state_of-value _ = refl

pub state_eq_iff : (a b : KeyState) → (state_eq a b ≡ true) ↔ (a ≡ b)
state_eq_iff a b = (
  λ h.
      sym (state_of-value a)
      ∙ ap state_of ((==_iff (state_value a) (state_value b)).0 h)
      ∙ state_of-value b,
  λ e. (==_iff (state_value a) (state_value b)).1 (ap state_value e),
)
