-- ===== src/Stage/Contexts.antt =====
-- src/runtime/Stage.cpp: which contexts are active, the search for an output, and the outputs of
-- contexts that become active or inactive.
use mathlib.Core.Bool.{xor}
use mathlib.Core.List.{reverse}
use keymapper.Prelude.{
  ℕ, zero, suc, ◌+◌, ℤ, pos, negsuc, int_eq, int_lt, Bool, true, false, ◌&&◌, ◌||◌, List, [], ◌∷◌,
  Option, none, some, ◌==◌, ltb, if◌then◌else◌, negate, any, find_if, remove_if, get_elem?,
  get_last?, push,
}
use keymapper.Key
use keymapper.Key.{Key, is_mouse_button, is_mouse_wheel}
use keymapper.KeyEvent.{up, down, not, state_eq, KeyEvent, KeySequence, key_event}
use keymapper.Filter.{Filter}
use keymapper.Stage.State.{
  Input, CommandOutput, Context, OutputRef, by_event, OutputOnRelease, Output, Stage,
}
use keymapper.Stage.Sequences.{find_key}
use keymapper.Stage.Setup.{has_device_filter}
use keymapper.Stage.Outputs.{apply_output, continue_output_on_release, release_triggered}

abbrev no_filter : Filter
no_filter = record { string = ""; regex = none; invert = false }

-- What an index out of range reads: the code does not read there.
abbrev empty_context : Context
empty_context = record {
  inputs = [];
  outputs = [];
  command_outputs = [];
  device_filter = no_filter;
  device_id_filter = no_filter;
  modifier_filter = [];
  matching_device_bits = 0;
  invert_modifier_filter = false;
  fallthrough = false;
}

abbrev or_empty : Option Context → Context
or_empty none = empty_context
or_empty (some context) = context

unfoldable pub context_at : List Context → ℕ → Context
context_at contexts index = or_empty (get_elem? contexts index)

abbrev pub is_pressed : Option KeyEvent → Bool
is_pressed none = false
is_pressed (some event) = true

abbrev iff : Bool → Bool → Bool
iff a b = negate (xor a b)

unfoldable pub match_context_modifier_filter : KeySequence → KeySequence → Bool
match_context_modifier_filter sequence [] = true
match_context_modifier_filter sequence (modifier ∷ modifiers) =
    iff (is_pressed (find_key sequence modifier.key)) (negate (state_eq modifier.state not))
    && match_context_modifier_filter sequence modifiers

-- `while (m_contexts[context_index].fallthrough) ++context_index`, over the contexts from the index.
-- The last context does not fall through.
unfoldable pub fallthrough_from : List Context → ℕ → ℕ
fallthrough_from [] index = index
fallthrough_from (context ∷ contexts) index =
    let next = fallthrough_from contexts (index + 1) in if context.fallthrough then next else index

abbrev drop : List Context → ℕ → List Context
drop contexts zero = contexts
drop [] (suc n) = []
drop (context ∷ contexts) (suc n) = drop contexts n

unfoldable pub fallthrough_context : List Context → ℕ → ℕ
fallthrough_context contexts index = fallthrough_from (drop contexts index) index

unfoldable pub is_context_active : Stage → ℤ → Bool
is_context_active s index =
    any
      (λ active.
        int_eq (pos active) index || int_eq (pos (fallthrough_context s.contexts active)) index)
      s.active_contexts

-- `std::lower_bound` by growing index.
abbrev pub lower_bound : List CommandOutput → ℤ → Option CommandOutput
lower_bound outputs index = find_if (λ a. negate (int_lt a.index index)) outputs

abbrev pub with_index : Option CommandOutput → ℤ → Option KeySequence
with_index none index = none
with_index (some a) index = if int_eq a.index index then some a.output else none

unfoldable pub find_command_output : List CommandOutput → ℤ → Option KeySequence
find_command_output outputs index = with_index (lower_bound (reverse outputs) index) index

-- The active contexts from the last to the first.
unfoldable pub find_override : List Context → ℤ → List ℕ → Option OutputRef
find_override contexts index [] = none
find_override contexts index (active ∷ rest) =
    let here = fallthrough_context contexts active in
    let earlier = find_override contexts index rest in
    elim (find_command_output (context_at contexts here).command_outputs index) [
      | some output ↦ some (record { context = here; index = index; sequence = output })
      | none ↦ earlier
    ]

abbrev direct_output : Option KeySequence → ℕ → ℤ → Option OutputRef
direct_output none context index = none
direct_output (some output) context index =
    some (record { context = context; index = index; sequence = output })

-- The output of an input of the context with the given index.
unfoldable pub find_output : Stage → ℕ → ℤ → Option OutputRef
find_output s context (pos n) =
    direct_output (get_elem? (context_at s.contexts context).outputs n) context (pos n)
find_output s context (negsuc n) = find_override s.contexts (negsuc n) (reverse s.active_contexts)

abbrev pub starts_with_context_active : Input → Bool
starts_with_context_active input = elim input.input [
  | [] ↦ false
  | event ∷ rest ↦ event.key == Key.context_active
]

abbrev pub apply_found : Stage → Option OutputRef → KeyEvent → ℕ → Output → Output
apply_found s none event context o = o
apply_found s (some ref) event context o =
    apply_output s.sequence s.any_key_matches s.virtual_keys_toggle ref.sequence (by_event event)
      (pos context) o

-- The output of the stage is passed on by itself, while the stage is read as it was.
unfoldable pub on_context_active_event : Stage → KeyEvent → ℕ → Output → Output
on_context_active_event s event context o =
    elim (find_if starts_with_context_active (context_at s.contexts context).inputs) [
      | none ↦ o
      | some input ↦
          if state_eq event.state down
          then apply_found s (find_output s context input.output_index) event context o
          else release_triggered event.key (pos context)
              (continue_output_on_release s.sequence s.any_key_matches s.virtual_keys_toggle event
                (pos context) o).0
    ]

abbrev pub context_up : KeyEvent
context_up = key_event Key.context_active up

abbrev pub context_down : KeyEvent
context_down = key_event Key.context_active down

-- Both loops over the previous and the current active contexts, a merge by index: the contexts that
-- only the previous ones have, and those that only the current ones have.
unfoldable pub only_first : List ℕ → List ℕ → List ℕ
only_first [] current = []
only_first (p ∷ previous) [] = p ∷ only_first previous []
only_first (p ∷ previous) (c ∷ current) =
    let deactivated = only_first previous (c ∷ current) in
    let later = only_first (p ∷ previous) current in
    let both = only_first previous current in
    if ltb p c then p ∷ deactivated else if ltb c p then later else both

unfoldable pub toggle_contexts : Stage → KeyEvent → List ℕ → Output → Output
toggle_contexts s event [] o = o
toggle_contexts s event (context ∷ contexts) o =
    toggle_contexts s event contexts (on_context_active_event s event context o)

abbrev pub is_last : Option ℕ → ℕ → Bool
is_last none index = false
is_last (some last) index = last == index

-- Which of the contexts that the client set active are active.
unfoldable pub evaluate_contexts : Stage → List ℕ → List ℕ → List ℕ
evaluate_contexts s [] active = active
evaluate_contexts s (index ∷ indices) active =
    let context = context_at s.contexts index in
    let fits =
      xor (match_context_modifier_filter s.sequence context.modifier_filter)
        context.invert_modifier_filter
      && (negate (has_device_filter context) || negate (context.matching_device_bits == 0)) in
    let index' =
      if has_device_filter context then index else fallthrough_context s.contexts index in
    evaluate_contexts s indices
      (if fits && negate (is_last (get_last? active) index') then push active index' else active)

unfoldable pub update_active_contexts : Stage → Stage
update_active_contexts s =
    let s' = record s {
      active_contexts = evaluate_contexts s s.active_client_contexts [];
      prev_active_contexts = s.active_contexts;
    } in
    record s' {
      out =
          toggle_contexts s' context_down (only_first s'.active_contexts s'.prev_active_contexts) (
            toggle_contexts s' context_up (only_first s'.prev_active_contexts s'.active_contexts)
              s'.out);
    }

unfoldable pub cancel_inactive_output_on_release : Stage → Stage
cancel_inactive_output_on_release s = record s {
  out = record (s.out) {
    output_on_release =
        remove_if (λ (r : OutputOnRelease). negate (is_context_active s r.context_index))
          s.out.output_on_release;
  };
}

-- The output goes to the caller, and the buffer is empty after it.
abbrev pub take_output : Stage → KeySequence × Stage
take_output s = (s.out.output_buffer, record s { out = record (s.out) { output_buffer = [] } })

unfoldable pub set_active_client_contexts : List ℕ → Stage → KeySequence × Stage
set_active_client_contexts indices s = take_output (
    cancel_inactive_output_on_release
      (update_active_contexts (record s { active_client_contexts = indices })))
