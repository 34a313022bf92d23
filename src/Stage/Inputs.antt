-- ===== src/Stage/Inputs.antt =====
-- src/runtime/Stage.cpp: the match of the sequence with the inputs of the active contexts, and
-- `forward_from_sequence`.
use keymapper.Prelude.{
  ℕ, ℤ, int_eq, Bool, true, false, ◌&&◌, ◌||◌, List, [], ◌∷◌, Option, none, some, if◌then◌else◌,
  negate, is_empty,
}
use keymapper.Key.{Key}
use keymapper.KeyEvent.{
  up, down, down_matched, state_eq, KeyEvent, KeySequence, key_event, default_event, is_down_state,
}
use keymapper.MatchKeySequence.{
  MatchResult, no_match, might_match, match, MatchOutcome, match_key_sequence,
}
use keymapper.Stage.State.{
  Stage, Input, OutputRef, Trigger, by_input, by_key, CurrentTimeout, Output, any_device_index,
  no_context_index,
}
use keymapper.Stage.Sequences.{rfind_key, contains_event, is_no_might_match_mapping}
use keymapper.Stage.Setup.{device_matches_filter}
use keymapper.Stage.Contexts.{context_at, fallthrough_context, find_output}
use keymapper.Stage.Outputs.{update_output, release_triggered}

-- `MatchInputResult`. Without a match the output, the trigger and the context are not used.
pub record MatchInput : Type 0 where
  pub result : MatchResult
  pub output : Option OutputRef
  pub trigger : Trigger
  pub context_index : ℕ
  pub input_timeout_event : KeyEvent

-- A result, or none so far; with the keys that the last match found for Any.
pub record Search : Type 0 where
  pub found : Option MatchInput
  pub any_key_matches : List Key

abbrev not_matched : MatchInput
not_matched = record {
  result = no_match;
  output = none;
  trigger = by_input [];
  context_index = 0;
  input_timeout_event = default_event;
}

abbrev or_default : Option KeyEvent → KeyEvent
or_default none = default_event
or_default (some event) = event

-- What `match_input` returns for the outcome of one match, if it does.
unfoldable pub match_result : Stage → Bool → ℕ → Input → MatchOutcome → Option MatchInput
match_result s accept_might_match context_index input outcome = elim outcome.result [
  | no_match ↦ none
  | might_match ↦
      if accept_might_match
      then some (record {
        result = might_match;
        output = none;
        trigger = by_input input.input;
        context_index = context_index;
        input_timeout_event = or_default outcome.input_timeout_event;
      })
      else none
  | match ↦ elim (find_output s context_index input.output_index) [
    | none ↦ none
    | some output ↦ some (record {
      result = match;
      output = some output;
      trigger = by_input input.input;
      context_index = context_index;
      input_timeout_event = default_event;
    })
  ]
]

module _ (s : Stage) (first_iteration matched_are_optional : Bool) (sequence : KeySequence)
    (device_index : ℤ) where
  -- No-might-match mappings are matched with the history, in the first iteration and for events
  -- that come from a device.
  abbrev skips : Input → Bool
  skips input =
      is_no_might_match_mapping input.input
      && ((negate first_iteration || is_empty s.history) || int_eq device_index any_device_index)

  unfoldable pub match_inputs : ℕ → List Input → List Key → Search
  match_inputs context_index [] any = record { found = none; any_key_matches = any }
  match_inputs context_index (input ∷ inputs) any =
      let no_might_match_mapping = is_no_might_match_mapping input.input in
      let outcome =
        match_key_sequence input.input (if no_might_match_mapping then s.history else sequence)
          matched_are_optional in
      let skipped = match_inputs context_index inputs any in
      let missed = match_inputs context_index inputs outcome.any_key_matches in
      if skips input
      then skipped
      else elim (match_result s (first_iteration && negate no_might_match_mapping) context_index
          input outcome) [
            | some found ↦ record { found = some found; any_key_matches = outcome.any_key_matches }
            | none ↦ missed
          ]

  unfoldable pub match_contexts : List ℕ → List Key → Search
  match_contexts [] any = record { found = none; any_key_matches = any }
  match_contexts (index ∷ indices) any =
      let context_index = fallthrough_context s.contexts index in
      let search = match_inputs context_index (context_at s.contexts context_index).inputs any in
      let skipped = match_contexts indices any in
      let missed = match_contexts indices search.any_key_matches in
      if negate (device_matches_filter (context_at s.contexts index) device_index)
      then skipped
      else elim search.found [ some found ↦ search | none ↦ missed ]

  unfoldable pub match_input : MatchInput × Stage
  match_input =
      let search = match_contexts s.active_contexts s.any_key_matches in
      (
        elim search.found [ none ↦ not_matched | some found ↦ found ],
        record s { any_key_matches = search.any_key_matches },
      )

unfoldable pub is_physically_pressed : KeySequence → Key → Bool
is_physically_pressed sequence key = elim (rfind_key sequence key) [
  | none ↦ false
  | some event ↦ negate (state_eq event.state up)
]

-- What `forward_from_sequence` writes.
pub record Forwarded : Type 0 where
  pub sequence : KeySequence
  pub out : Output

abbrev pub has_matched : Option CurrentTimeout → Bool
has_matched none = false
has_matched (some t) = elim t.matched_output [ none ↦ false | some ref ↦ true ]

abbrev pub forward : KeyEvent → Output → Output
forward event o = update_output event (by_key event.key) no_context_index o

unfoldable pub forward_from_sequence : KeySequence → Output → Forwarded
forward_from_sequence [] o = record { sequence = []; out = o }
forward_from_sequence (event ∷ rest) o =
    let later = forward_from_sequence rest o in
    if is_down_state event.state
    then if contains_event (event ∷ rest) (key_event event.key up)
      then record { sequence = rest; out = forward event o }
      else if state_eq event.state down
      then record {
        sequence = record event { state = down_matched } ∷ rest;
        out = if has_matched o.current_timeout then o else forward event o;
      }
      else record { sequence = event ∷ later.sequence; out = later.out }
    else record { sequence = rest; out = release_triggered event.key no_context_index o }
