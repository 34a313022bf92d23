-- ===== src/ParseKeySequence/Strings.antt =====
-- src/config/ParseKeySequence.cpp: the typing of strings. The string typer of the platform is a
-- parameter, which gives the calls of its callback, or throws.
use keymapper.Prelude.{
  ◌%◌, ℕ, Bool, true, false, ◌||◌, List, [], ◌∷◌, ◌++◌, foldl, ◌==◌, if◌then◌else◌,
}
use keymapper.Key
use keymapper.Key.{Key}
use keymapper.KeyEvent.{KeyState, up, down, not, up_async, down_async, KeySequence, key_event}
use keymapper.StringIteration.{Text}
use keymapper.ParseKeySequence.Parser.{
  Called, Parser, Result, err, more_than_one_character, ok, result, ◌>>=◌,
}

-- The bits of `Modifiers`.
pub record Modifiers : Type 0 where
  pub shift : Bool
  pub alt : Bool
  pub alt_gr : Bool
  pub control : Bool

abbrev pub no_modifiers : Modifiers
no_modifiers = record { shift = false; alt = false; alt_gr = false; control = false }

-- `modifiers != 0`
abbrev has_any : Modifiers → Bool
has_any m = m.shift || (m.alt || (m.alt_gr || m.control))

-- A call of the callback.
pub record Typed : Type 0 where
  pub key : Key
  pub modifiers : Modifiers
  pub value : ℕ

-- The locals of a typing, with the events that it adds.
pub record Typing : Type 0 where
  pub events : KeySequence
  pub prev_modifiers : Modifiers
  pub has_modifier : Bool
  pub first : Bool

abbrev pub start : Bool → KeySequence → Typing
start first events = record {
  events = events;
  prev_modifiers = no_modifiers;
  has_modifier = false;
  first = first;
}

-- `press_or_release` of an input.
unfoldable pub input_modifier : Bool → Bool → Bool → Key → KeySequence
input_modifier first prev now key =
    if now
    then (if prev then key_event key up_async ∷ [] else [])
      ++ key_event key down_async ∷ key_event key down ∷ []
    else (if first then key_event key not ∷ [] else [])
      ++ (if prev then key_event key up ∷ [] else [])

unfoldable pub input_modifiers : Bool → Modifiers → Modifiers → KeySequence
unfolding input_modifier
input_modifiers first prev now =
    input_modifier first prev.shift now.shift Key.shift
    ++ (input_modifier first prev.alt now.alt Key.alt_left
        ++ (input_modifier first prev.alt_gr now.alt_gr Key.alt_right
            ++ input_modifier first prev.control now.control Key.control))

unfoldable pub type_input : Bool → Typing → Typed → Typing
unfolding input_modifiers
type_input in_group t typed = record {
  events =
      t.events
      ++ ((if in_group then [] else input_modifiers t.first t.prev_modifiers typed.modifiers)
          ++ key_event typed.key down ∷ key_event typed.key up_async ∷ []);
  prev_modifiers = typed.modifiers;
  has_modifier = t.has_modifier || has_any typed.modifiers;
  first = false;
}

-- A release of each modifier.
abbrev pub release_modifiers : KeyState → Modifiers → KeySequence
release_modifiers state m =
    (if m.shift then key_event Key.shift state ∷ [] else [])
    ++ ((if m.alt then key_event Key.alt_left state ∷ [] else [])
        ++ ((if m.alt_gr then key_event Key.alt_right state ∷ [] else [])
            ++ (if m.control then key_event Key.control state ∷ [] else [])))

-- The events and whether there was a modifier.
unfoldable pub string_typing_input : Bool → List Typed → KeySequence × Bool
unfolding type_input
string_typing_input in_group calls =
    let t = foldl (type_input in_group) (start true []) calls in
    (
      t.events ++ (if in_group then [] else release_modifiers up_async t.prev_modifiers),
      t.has_modifier,
    )

-- `press_or_release` of an output.
unfoldable pub output_modifier : Bool → Bool → Key → KeySequence
output_modifier prev now key =
    if now
    then (if prev then [] else key_event key down ∷ [])
    else (if prev then key_event key up ∷ [] else [])

-- `first` is initialize_shift_state. An event keeps twelve bits of the value.
unfoldable pub type_output : Typing → Typed → Typing
unfolding output_modifier
type_output t typed = record {
  events =
      t.events
      ++ ((if t.first
            then key_event Key.shift (if typed.modifiers.shift then down else not) ∷ []
            else output_modifier t.prev_modifiers.shift typed.modifiers.shift Key.shift)
          ++ (output_modifier t.prev_modifiers.alt typed.modifiers.alt Key.alt_left
              ++ (output_modifier t.prev_modifiers.alt_gr typed.modifiers.alt_gr Key.alt_right
                  ++ (output_modifier t.prev_modifiers.control typed.modifiers.control Key.control
                      ++ record { key = typed.key; state = down; value = typed.value % 4096 }
                        ∷ record { key = typed.key; state = up; value = typed.value % 4096 }
                        ∷ []))));
  prev_modifiers = typed.modifiers;
  has_modifier = t.has_modifier || has_any typed.modifiers;
  first = false;
}

unfoldable pub string_typing_output : Bool → ℕ → List Typed → KeySequence × Bool
unfolding type_output
string_typing_output in_group size calls =
    let t =
      foldl type_output
        (if in_group
          then start false []
          else if size == 1
          then start true []
          else start false (key_event Key.any not ∷ []))
        calls in
    (t.events ++ release_modifiers up t.prev_modifiers, t.has_modifier)

abbrev pub add_typed : KeySequence × Bool → Parser → Parser
add_typed typed s = record s {
  sequence = s.sequence ++ typed.0;
  has_modifier = s.has_modifier || typed.1;
}

-- With `has_modifier |= …` of the call.
unfoldable pub add_string_typing : Bool → Bool → ℕ → List Typed → Parser → Parser
unfolding string_typing_input string_typing_output
add_string_typing is_input in_group size calls s =
    add_typed
      (if is_input
        then string_typing_input in_group calls
        else string_typing_output in_group size calls)
      s

-- The callback of `get_key_by_character`, call by call.
unfoldable pub key_of_calls : Key → List Typed → Result Key
key_of_calls result [] = ok result
key_of_calls result (typed ∷ calls) =
    let rest = key_of_calls typed.key calls in
    if result == Key.none then rest else err more_than_one_character

unfoldable pub get_key_by_character : (Text → Called (List Typed)) → Text → Result Key
unfolding key_of_calls
get_key_by_character type_string string =
    result (type_string string) >>= λ calls. key_of_calls Key.none calls
