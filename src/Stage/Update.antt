-- ===== src/Stage/Update.antt =====
-- src/runtime/Stage.cpp: the loop of `apply_input` over the sequence of held back events.
pub mod Termination
use keymapper.Prelude.{
  ℕ, zero, suc, ◌+◌, ℤ, pos, Bool, true, false, ◌&&◌, ◌||◌, List, [], ◌∷◌, Option, none, some, ◌==◌,
  leb, if◌then◌else◌, negate, length, drop_last, push, head_or,
}
use keymapper.Key
use keymapper.Key.{Key, is_virtual_key}
use keymapper.KeyEvent.{
  KeyState, up, down, state_eq, KeyEvent, KeySequence, key_event, default_event, event_eq,
  is_not_timeout,
}
use keymapper.MatchKeySequence.{MatchResult, no_match, might_match, match}
use keymapper.Stage.State.{
  Stage, OutputRef, ref_eq, Trigger, by_event, by_key, CurrentTimeout, Output,
}
use keymapper.Stage.Sequences.{
  contains_event, has_non_optional, has_output_on_release, find_last_down_event, get_trigger_event,
  get_trigger_key, finish_sequence,
}
use keymapper.Stage.Outputs.{apply_output, emit}
use keymapper.Stage.Inputs.{MatchInput, match_input, is_physically_pressed, forward_from_sequence}

abbrev pub is_result : MatchResult → MatchResult → Bool
is_result match match = true
is_result might_match might_match = true
is_result no_match no_match = true
is_result _ _ = false

abbrev pub with_out : Stage → Output → Stage
with_out s out = record s { out = out }

abbrev pub with_timeout : Stage → Option CurrentTimeout → Stage
with_timeout s timeout = record s { out = record (s.out) { current_timeout = timeout } }

-- The variables of the loop's body.
pub record Found : Type 0 where
  pub matched : MatchInput
  pub sequence : KeySequence
  pub matched_start_only : Bool
  pub stage : Stage

-- When might match failed: the longest proper beginning of the sequence that matches. Recursion on
-- the length of the sequence.
unfoldable pub match_start : ℕ → ℤ → MatchInput → KeySequence → Stage → Found
match_start zero device_index m sequence s = record {
  matched = m;
  sequence = sequence;
  matched_start_only = false;
  stage = s;
}
match_start (suc fuel) device_index m sequence s =
    let shorter = drop_last sequence in
    let found = match_input s false true shorter device_index in
    let next = match_start fuel device_index found.0 shorter found.1 in
    if leb (length sequence) 1
    then record { matched = m; sequence = sequence; matched_start_only = false; stage = s }
    else if negate (has_non_optional shorter)
    then record { matched = m; sequence = shorter; matched_start_only = false; stage = s }
    else if is_result found.0.result match
    then record {
      matched = found.0;
      sequence = shorter;
      matched_start_only = true;
      stage = found.1;
    }
    else next

-- The timeout that is to be tracked, with the last key press as its trigger.
unfoldable pub track_timeout :
    KeyEvent → Option KeyEvent → Option CurrentTimeout → Option CurrentTimeout
track_timeout timeout none current = current
track_timeout timeout (some press) current =
    let fresh : CurrentTimeout = record {
      event = timeout;
      trigger = press.key;
      matched_output = none;
      not_exceeded = false;
      virtual_keys_changed = false;
    } in
    elim current [
      | none ↦ some fresh
      | some t ↦
          if negate (event_eq t.event timeout) || negate (t.trigger == press.key)
          then some fresh
          else some t
    ]

-- Requests a timeout event from the client.
unfoldable pub request_timeout : KeyEvent → KeySequence → Stage → Stage
request_timeout timeout sequence s =
    let tracked = track_timeout timeout (find_last_down_event sequence) s.out.current_timeout in
    if timeout.key == Key.timeout then with_timeout (with_out s (emit s.out timeout)) tracked else s

abbrev same_output : Option OutputRef → Option OutputRef → Bool
same_output none none = true
same_output (some a) (some b) = ref_eq a b
same_output _ _ = false

-- A timeout that matched once: the result and the tracked timeout after it.
unfoldable pub matched_timeout :
    KeyEvent → Bool → MatchResult → Option OutputRef → CurrentTimeout → MatchResult × CurrentTimeout
matched_timeout event matched_start_only result output t =
    if event.key == Key.timeout
    then if is_result result match
      then elim t.matched_output [
        | none ↦ (result, if matched_start_only then t else record t { matched_output = output })
        | some previous ↦ (
          if negate (same_output (some previous) output) && negate t.virtual_keys_changed
              then no_match
              else result,
          t,
        )
      ]
      else (result, t)
    else if is_result result no_match
    then (result, record t { matched_output = none })
    else (result, t)

-- A not-timeout that did not match once.
abbrev missed_timeout : MatchResult → CurrentTimeout → CurrentTimeout
missed_timeout result t = if is_result result no_match then record t { not_exceeded = true } else t

unfoldable pub filter_result :
    KeyEvent
    → Bool
    → MatchResult
    → Option OutputRef
    → Option CurrentTimeout
    → MatchResult × Option CurrentTimeout
filter_result event matched_start_only result output none = (result, none)
filter_result event matched_start_only result output (some t) =
    if is_not_timeout t.event.state
    then (result, some (missed_timeout result t))
    else let filtered = matched_timeout event matched_start_only result output t in
      (filtered.0, some filtered.1)

-- The trigger of the output that matched.
unfoldable pub choose_trigger :
    KeyEvent → KeySequence → Option CurrentTimeout → KeySequence → Trigger → Trigger
choose_trigger event output timeout sequence input =
    let optimized =
      if get_trigger_key input == Key.any || event.key == Key.timeout
      then by_event event
      else input in
    let last = if has_output_on_release output then by_event event else optimized in
    let trigger =
      if get_trigger_key last == Key.timeout
      then elim timeout [ none ↦ last | some t ↦ by_key t.trigger ]
      else last in
    let key = get_trigger_key trigger in
    let keep_trivial_trigger =
      length output == 1
      && (event_eq (head_or default_event output) (get_trigger_event trigger)
          && contains_event sequence (key_event key up)) in
    if negate (is_physically_pressed sequence key) && negate keep_trivial_trigger
    then by_event event
    else trigger

abbrev output_sequence : Option OutputRef → KeySequence
output_sequence none = []
output_sequence (some ref) = ref.sequence

-- The end of the loop's body, for a match.
unfoldable pub apply_match : KeyEvent → Found → Stage → Stage
apply_match event f s =
    let output = output_sequence f.matched.output in
    let trigger = choose_trigger event output s.out.current_timeout s.sequence f.matched.trigger in
    record s {
      out =
          apply_output s.sequence s.any_key_matches s.virtual_keys_toggle output trigger
            (pos f.matched.context_index) s.out;
      sequence = finish_sequence (length f.sequence) s.sequence;
      sequence_might_match = f.matched_start_only && s.sequence_might_match;
    }

-- The end of the loop's body, where nothing matched.
unfoldable pub forward_start : Stage → Stage
forward_start s =
    let f = forward_from_sequence s.sequence s.out in
    record s {
      sequence = f.sequence;
      out = f.out;
      sequence_might_match = s.sequence_might_match && has_non_optional f.sequence;
    }

-- A round of the loop: it goes on with `matched_are_optional`, or it breaks.
pub data Iteration : Type 0 where
  repeat : Bool → Stage → Iteration
  leave : Stage → Iteration

-- The body from the request of a timeout on.
unfoldable pub finish_round : KeyEvent → Bool → Found → Iteration
finish_round event optional f =
    let s = request_timeout f.matched.input_timeout_event f.sequence f.stage in
    let filtered =
      filter_result event f.matched_start_only f.matched.result f.matched.output
        s.out.current_timeout in
    if is_result f.matched.result might_match
    then leave (record s { sequence_might_match = true })
    else let s' = with_timeout s filtered.1 in
      if is_result filtered.0 match
      then repeat optional (apply_match event f s')
      else repeat optional (forward_start s')

unfoldable pub whole : MatchInput × Stage → Found
whole m = record { matched = m.0; sequence = m.1.sequence; matched_start_only = false; stage = m.1 }

unfoldable pub iterate : KeyEvent → ℤ → Bool → Stage → Iteration
iterate event device_index optional s =
    let m = match_input s true optional s.sequence device_index in
    if negate (is_result m.0.result match) && negate optional
    then repeat true m.1
    else if is_virtual_key event.key && negate (is_result m.0.result match)
    then leave (record (m.1) { sequence = finish_sequence (length m.1.sequence) m.1.sequence })
    else if is_result m.0.result no_match && m.1.sequence_might_match
    then finish_round event optional
        (match_start (length m.1.sequence) device_index m.0 m.1.sequence m.1)
    else finish_round event optional (whole m)

-- `while (has_non_optional(m_sequence))`, on fuel. `none` means that the fuel ran out.
unfoldable pub match_sequence : ℕ → KeyEvent → ℤ → Bool → Stage → Option Stage
match_sequence zero event device_index optional s = none
match_sequence (suc fuel) event device_index optional s =
    if has_non_optional s.sequence
    then elim (iterate event device_index optional s) [
      | leave s' ↦ some s'
      | repeat optional' s' ↦ match_sequence fuel event device_index optional' s'
    ]
    else some s

-- A round finishes an event of the sequence, or it lets matched events be optional.
unfoldable pub match_sequence_fuel : KeySequence → ℕ
match_sequence_fuel sequence = length sequence + length sequence + 2
