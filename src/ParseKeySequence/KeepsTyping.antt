-- ===== src/ParseKeySequence/KeepsTyping.antt =====
-- src/config/ParseKeySequence.cpp: what the methods of the parser keep that type strings and add
-- timeouts.
use keymapper.Prelude.{
  ℕ, ◌≡◌, refl, Bool, true, false, List, [], ◌∷◌, foldl, ◌==◌, if◌then◌else◌, if_rule,
}
use keymapper.Key
use keymapper.Key.{Key}
use keymapper.KeyEvent.{KeyState, up, down, not, up_async, KeyEvent, key_event}
use keymapper.ParseKeySequence.Parser.{Parser}
use keymapper.ParseKeySequence.Strings.{
  Modifiers, Typed, Typing, add_string_typing, input_modifier, input_modifiers, output_modifier,
  release_modifiers, start, string_typing_input, string_typing_output, type_input, type_output,
}
use keymapper.ParseKeySequence.Keeps.{
  AllAllowed, IsAllowed, IsConsistent, allowed, append-AllAllowed,
}

optional_event :
    (is_input b : Bool) (event : KeyEvent)
    → IsAllowed is_input event
    → AllAllowed is_input (if b then event ∷ [] else [])
optional_event is_input true event h = (h, tt)
optional_event is_input false event h = tt

pub release_modifiers-AllAllowed :
    (is_input : Bool) (state : KeyState) (m : Modifiers)
    → allowed is_input state ≡ true
    → AllAllowed is_input (release_modifiers state m)
release_modifiers-AllAllowed is_input state m a =
    append-AllAllowed is_input _ _ (optional_event is_input m.shift _ a) (
      append-AllAllowed is_input _ _ (optional_event is_input m.alt _ a) (
        append-AllAllowed is_input _ _ (optional_event is_input m.alt_gr _ a)
          (optional_event is_input m.control _ a)))

input_modifier-AllAllowed :
    (first prev now : Bool) (key : Key) → AllAllowed true (input_modifier first prev now key)
unfolding input_modifier
input_modifier-AllAllowed true true true key = (refl, (refl, (refl, tt)))
input_modifier-AllAllowed true true false key = (refl, (refl, tt))
input_modifier-AllAllowed true false true key = (refl, (refl, tt))
input_modifier-AllAllowed true false false key = (refl, tt)
input_modifier-AllAllowed false true true key = (refl, (refl, (refl, tt)))
input_modifier-AllAllowed false true false key = (refl, tt)
input_modifier-AllAllowed false false true key = (refl, (refl, tt))
input_modifier-AllAllowed false false false key = tt

input_modifiers-AllAllowed :
    (first : Bool) (prev now : Modifiers) → AllAllowed true (input_modifiers first prev now)
unfolding input_modifiers
input_modifiers-AllAllowed first prev now =
    append-AllAllowed true _ _ (input_modifier-AllAllowed first prev.shift now.shift Key.shift) (
      append-AllAllowed true _ _ (input_modifier-AllAllowed first prev.alt now.alt Key.alt_left) (
        append-AllAllowed true _ _
          (input_modifier-AllAllowed first prev.alt_gr now.alt_gr Key.alt_right)
          (input_modifier-AllAllowed first prev.control now.control Key.control)))

output_modifier-AllAllowed :
    (prev now : Bool) (key : Key) → AllAllowed false (output_modifier prev now key)
unfolding output_modifier
output_modifier-AllAllowed true true key = tt
output_modifier-AllAllowed true false key = (refl, tt)
output_modifier-AllAllowed false true key = (refl, tt)
output_modifier-AllAllowed false false key = tt

type_input-AllAllowed :
    (in_group : Bool) (t : Typing) (typed : Typed)
    → AllAllowed true t.events
    → AllAllowed true (type_input in_group t typed).events
unfolding type_input
type_input-AllAllowed in_group t typed h = append-AllAllowed true t.events _ h (
    append-AllAllowed true _ _
      (if_rule (AllAllowed true) in_group (λ _. tt)
        (λ _. input_modifiers-AllAllowed t.first t.prev_modifiers typed.modifiers))
      (refl, (refl, tt)))

type_output-AllAllowed :
    (t : Typing) (typed : Typed)
    → AllAllowed false t.events
    → AllAllowed false (type_output t typed).events
unfolding type_output
type_output-AllAllowed t typed h = append-AllAllowed false t.events _ h (
    append-AllAllowed false _ _
      (if_rule (AllAllowed false) t.first (λ _. (shift_state typed.modifiers.shift, tt))
        (λ _. output_modifier-AllAllowed t.prev_modifiers.shift typed.modifiers.shift Key.shift))
      (append-AllAllowed false _ _
        (output_modifier-AllAllowed t.prev_modifiers.alt typed.modifiers.alt Key.alt_left)
        (append-AllAllowed false _ _
          (output_modifier-AllAllowed t.prev_modifiers.alt_gr typed.modifiers.alt_gr Key.alt_right)
          (append-AllAllowed false _ _
            (output_modifier-AllAllowed t.prev_modifiers.control typed.modifiers.control
              Key.control)
            (refl, (refl, tt))))))
  where
    shift_state : (b : Bool) → allowed false (if b then down else not) ≡ true
    shift_state true = refl
    shift_state false = refl

type_all_input-AllAllowed :
    (in_group : Bool) (calls : List Typed) (t : Typing)
    → AllAllowed true t.events
    → AllAllowed true (foldl (type_input in_group) t calls).events
type_all_input-AllAllowed in_group [] t h = h
type_all_input-AllAllowed in_group (c ∷ calls) t h =
    type_all_input-AllAllowed in_group calls _ (type_input-AllAllowed in_group t c h)

type_all_output-AllAllowed :
    (calls : List Typed) (t : Typing)
    → AllAllowed false t.events
    → AllAllowed false (foldl type_output t calls).events
type_all_output-AllAllowed [] t h = h
type_all_output-AllAllowed (c ∷ calls) t h =
    type_all_output-AllAllowed calls _ (type_output-AllAllowed t c h)

string_typing_input-AllAllowed :
    (in_group : Bool) (calls : List Typed) → AllAllowed true (string_typing_input in_group calls).0
unfolding string_typing_input
string_typing_input-AllAllowed in_group calls =
    append-AllAllowed true _ _ (type_all_input-AllAllowed in_group calls (start true []) tt) (
      if_rule (AllAllowed true) in_group (λ _. tt)
        (λ _. release_modifiers-AllAllowed true up_async _ refl))

start_output-AllAllowed :
    (in_group single : Bool)
    → AllAllowed false
        (if in_group
          then start false []
          else if single
          then start true []
          else start false (key_event Key.any not ∷ [])).events
start_output-AllAllowed true single = tt
start_output-AllAllowed false true = tt
start_output-AllAllowed false false = (refl, tt)

string_typing_output-AllAllowed :
    (in_group : Bool) (size : ℕ) (calls : List Typed)
    → AllAllowed false (string_typing_output in_group size calls).0
unfolding string_typing_output
string_typing_output-AllAllowed in_group size calls =
    append-AllAllowed false _ _
      (type_all_output-AllAllowed calls _ (start_output-AllAllowed in_group (size == 1)))
      (release_modifiers-AllAllowed false up _ refl)

pub add_string_typing-IsConsistent :
    (is_input in_group : Bool) (size : ℕ) (calls : List Typed) (s : Parser)
    → IsConsistent is_input s
    → IsConsistent is_input (add_string_typing is_input in_group size calls s)
unfolding add_string_typing
add_string_typing-IsConsistent true in_group size calls s h = record {
  groups = h.groups;
  states =
      append-AllAllowed true s.sequence _ h.states (string_typing_input-AllAllowed in_group calls);
}
add_string_typing-IsConsistent false in_group size calls s h = record {
  groups = h.groups;
  states =
      append-AllAllowed false s.sequence _ h.states
        (string_typing_output-AllAllowed in_group size calls);
}
