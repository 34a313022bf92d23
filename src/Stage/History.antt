-- ===== src/Stage/History.antt =====
-- src/runtime/Stage.cpp: the history of events that a no-might-match mapping is matched with. The
-- clock is an argument, in milliseconds.
use keymapper.Prelude.{
  ℕ, zero, suc, ◌-◌, Bool, true, false, ◌&&◌, ◌||◌, List, [], ◌∷◌, Option, none, some,
  if◌then◌else◌, negate, any, remove_first, get_last?, drop_last, push, tail, length,
}
use keymapper.Key.{is_common_modifier}
use keymapper.KeyEvent.{up, down, history_timing, state_eq, KeyEvent, KeySequence, event_eq}
use keymapper.Timeout.{sum_timeouts, make_history_timeout_event}
use keymapper.MatchKeySequence.{might_match, match_key_sequence}
use keymapper.Stage.State.{Stage, Input, Context, HistoryTimingState, last_event_time, injected}
use keymapper.Stage.Sequences.{rfind_key, contains_event, is_no_might_match_mapping}
use keymapper.Stage.Contexts.{context_at}

unfoldable pub set_history_timing : ℕ → Stage → Stage
set_history_timing timeout s = record s { history_timing_state = injected timeout }

unfoldable pub update_history_timing : ℕ → HistoryTimingState → KeyEvent × HistoryTimingState
update_history_timing now (injected timeout) =
    (make_history_timeout_event timeout, injected timeout)
update_history_timing now (last_event_time time) =
    (make_history_timeout_event (now - time), last_event_time now)

abbrev is_pressed : Option KeyEvent → Bool
is_pressed none = false
is_pressed (some event) = state_eq event.state down

unfoldable pub is_duplicate : KeySequence → KeyEvent → Bool
is_duplicate history event =
    let pressed = is_pressed (rfind_key history event.key) in
    if state_eq event.state down then pressed else negate pressed

-- Inserts the time since the last event, or adds it to a time that stands last.
unfoldable pub add_timing : KeyEvent → KeySequence → KeySequence
add_timing timeout_event history = elim (get_last? history) [
  | none ↦ history
  | some last ↦
      if state_eq last.state history_timing
      then push (drop_last history)
          (record last { value = sum_timeouts timeout_event.value last.value })
      else push history timeout_event
]

unfoldable pub add_history_event : ℕ → KeyEvent → Stage → Stage
add_history_event now event s =
    if is_duplicate s.history event
    then s
    else let timing = update_history_timing now s.history_timing_state in
      record s {
        history = push (add_timing timing.0 s.history) event;
        history_timing_state = timing.1;
      }

-- The history might still match a no-might-match mapping, taken without its first event.
unfoldable pub might_match_input : KeySequence → Input → Bool
might_match_input history input =
    is_no_might_match_mapping input.input
    && elim (match_key_sequence (tail input.input) history true).result [
      | might_match ↦ true
      | _ ↦ false
    ]

unfoldable pub history_might_match : List Context → List ℕ → KeySequence → Bool
history_might_match contexts active history =
    any (λ index. any (might_match_input history) (context_at contexts index).inputs) active

-- The loop, on fuel: each round but the last erases an event.
unfoldable pub clean_up : ℕ → List Context → List ℕ → KeySequence → KeySequence
clean_up zero contexts active history = history
clean_up (suc fuel) contexts active [] = []
clean_up (suc fuel) contexts active (event ∷ rest) =
    let up_event = record event { state = up } in
    let erased = clean_up fuel contexts active rest in
    let erased_both =
      clean_up fuel contexts active (remove_first (λ e. event_eq e up_event) rest) in
    if state_eq event.state history_timing || state_eq event.state up
    then erased
    else if negate (contains_event (event ∷ rest) up_event)
    then event ∷ rest
    else if history_might_match contexts active (event ∷ rest)
    then event ∷ rest
    else if is_common_modifier event.key
    then erased
    else erased_both

unfoldable pub clean_up_history : Stage → Stage
clean_up_history s = record s {
  history = clean_up (suc (length s.history)) s.contexts s.active_contexts s.history;
}
