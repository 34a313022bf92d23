-- ===== src/KeyEvent/Held.antt =====
-- src/runtime/KeyEvent.h: the keys that are down behind a sequence of presses and releases.
use keymapper.Prelude.{◌≡◌, refl, Bool, true, false, [], ◌∷◌, ◌++◌, ◌==◌, if◌then◌else◌}
use keymapper.Key.{Key}
use keymapper.KeyEvent.{up, down, KeyEvent, KeySequence, state_eq}

-- Whether a key is down behind an event, from whether it was before.
abbrev pub is_held : Key → Bool → KeyEvent → Bool
is_held key held event =
    if event.key == key
    then (if state_eq event.state down
        then true
        else if state_eq event.state up
        then false
        else held)
    else held

abbrev pub is_held_after : Key → Bool → KeySequence → Bool
is_held_after key held [] = held
is_held_after key held (event ∷ sequence) = is_held_after key (is_held key held event) sequence

pub is_held_after-append :
    (key : Key) (held : Bool) (first second : KeySequence)
    → is_held_after key held (first ++ second)
      ≡ is_held_after key (is_held_after key held first) second
is_held_after-append key held [] second = refl
is_held_after-append key held (event ∷ first) second =
    is_held_after-append key (is_held key held event) first second
