-- ===== src/MatchKeySequence.antt =====
-- src/runtime/MatchKeySequence.h and .cpp: an input expression against a sequence of key events.
-- The two positions of the source's loop are the rests of the two ranges. Of the expression the
-- number of elements behind the position is kept, of the sequence the elements.
pub mod Progress
pub mod NotKeys
pub mod Plain
pub mod Groups
mod Tests
use keymapper.Prelude.{
  ℕ, zero, suc, ◌+◌, ◌≡◌, refl, Bool, true, false, ◌&&◌, ◌||◌, List, [], ◌∷◌, ◌++◌, Option, none,
  some, ◌==◌, leb, if◌then◌else◌, negate, length, is_empty, head_or, tail, any, remove_if,
  remove_first, contains, push,
}
use keymapper.Key
use keymapper.Key.{Key, is_keyboard_key, is_device_key}
use keymapper.KeyEvent.{
  KeyState, up, down, not, up_async, down_async, no_might_match, down_matched, up_matched,
  history_timing, state_eq, KeyEvent, KeySequence, key_event, default_event, event_eq,
  is_not_timeout, is_down_state,
}
use keymapper.Timeout.{sum_timeouts}

pub data MatchResult : Type 0 where
  no_match might_match match : MatchResult

abbrev unmatched : KeyState → KeyState
unmatched down_matched = down
unmatched up_matched = up
unmatched s = s

pub unifiable_states : KeyState → KeyState → Bool
unifiable_states a b = state_eq (unmatched a) (unmatched b)

pub unifiable_keys : Key → Key → Bool
unifiable_keys a b =
    if a == Key.none || b == Key.none
    then false
    else if a == b
    then true
    else if a == Key.timeout || b == Key.timeout
    then false
    else if a == Key.any && is_keyboard_key b
    then true
    else b == Key.any && is_keyboard_key a

-- The first event is the sequence's.
pub timeout_unifiable : KeyEvent → KeyEvent → Bool
timeout_unifiable se ee =
    if state_eq se.state history_timing
    then false
    else let time_reached = leb ee.value se.value in
      if is_not_timeout se.state || is_not_timeout ee.state
      then negate time_reached
      else time_reached

pub unifiable : KeyEvent → KeyEvent → Bool
unifiable a b =
    if a.key == Key.any && state_eq b.state down_matched
    then false
    else if b.key == Key.any && state_eq a.state down_matched
    then false
    else if negate (unifiable_keys a.key b.key)
    then false
    else if a.key == Key.timeout
    then timeout_unifiable a b
    else unifiable_states a.state b.state

-- The variables of the loop, and `any_key_matches`.
pub record Locals : Type 0 where
  pub expression : KeySequence
  pub e : ℕ
  pub sequence : KeySequence
  pub seen : KeySequence
  pub is_no_might_match : Bool
  pub async : KeySequence
  pub not_keys : List Key
  pub ignore_ups : List Key
  pub history_timeout : KeyEvent
  pub any_key_matches : List Key

-- What one round of the loop does: it goes on, or it returns a result and possibly the event that is
-- written to `*input_timeout_event`.
pub data Round : Type 0 where
  continue : Locals → Round
  return : MatchResult → Option KeyEvent → Locals → Round

abbrev pub matches_none : KeyEvent
matches_none = default_event

abbrev append_head : KeySequence → KeySequence → KeySequence
append_head seen [] = seen
append_head seen (x ∷ xs) = seen ++ x ∷ []

-- `++e` and `++s`
abbrev pub next_e : Locals → Locals
next_e l = record l { expression = tail l.expression; e = l.e + 1 }

abbrev pub next_s : Locals → Locals
next_s l = record l { sequence = tail l.sequence; seen = append_head l.seen l.sequence }

-- Marks the first async event that the sequence's event fits, if there is one.
pub mark_async : KeyEvent → KeySequence → Option KeySequence
mark_async se [] = none
mark_async se (a ∷ rest) =
    let async_state = if state_eq se.state up then up_async else down_async in
    let marked = mark_async se rest in
    if state_eq a.state async_state && unifiable_keys se.key a.key
    then some (record a { state = se.state } ∷ rest)
    else elim marked [ none ↦ none | some rest' ↦ some (a ∷ rest') ]

-- An async up directly before the first async down of the key.
pub released_in_between : Key → KeySequence → Bool
released_in_between key [] = false
released_in_between key (a ∷ []) = false
released_in_between key (a ∷ b ∷ rest) =
    if event_eq a (key_event key down_async)
    then false
    else if event_eq b (key_event key down_async)
    then event_eq a (key_event key up_async)
    else released_in_between key (b ∷ rest)

ignore_down : KeyEvent → List Key → List Key
ignore_down se ignore_ups = if state_eq se.state down then push ignore_ups se.key else ignore_ups

-- The end of the loop's body: additional events at the front of the history, and no match.
match_front : KeyEvent → Locals → Round
match_front se l =
    if l.is_no_might_match && l.e == 1
    then if negate (event_eq se matches_none)
      then continue (next_s (record l { ignore_ups = ignore_down se l.ignore_ups }))
      else return no_match none l
    else if l.is_no_might_match && (state_eq se.state up && contains se.key l.ignore_ups)
    then continue (next_s l)
    else return (if is_empty l.sequence then might_match else no_match) none l

-- Surplus timeouts and the timing of the history.
match_timing : KeyEvent → KeyEvent → Locals → Round
match_timing se ee l =
    if se.key == Key.timeout
      && (negate (ee.key == Key.timeout) && any (λ e. state_eq e.state down) l.seen)
    then continue (next_s l)
    else if state_eq se.state history_timing
    then continue (
        next_s (record l {
          history_timeout = record {
            key = Key.timeout;
            state = up;
            value = sum_timeouts l.history_timeout.value se.value;
          };
        }))
    else if ee.key == Key.timeout && unifiable l.history_timeout ee
    then continue (next_e (record l { history_timeout = default_event }))
    else match_front se l

-- The expression's event against the async events.
match_expression_async : KeyEvent → KeyEvent → Locals → Round
match_expression_async se ee l =
    if any (unifiable ee) l.async
    then continue (next_e (record l { async = remove_first (unifiable ee) l.async }))
    else if state_eq ee.state down && released_in_between ee.key l.async
    then continue (next_e l)
    else match_timing se ee l

-- The sequence's event against the async events, and matched events that may be ignored.
match_sequence_async : Bool → KeyEvent → KeyEvent → Locals → Round
match_sequence_async matched_are_optional se ee l =
    if l.is_no_might_match && event_eq ee matches_none
    then return no_match none l
    else elim (mark_async se l.async) [
      | some async ↦ continue (next_s (record l { async = async }))
      | none ↦
          if (state_eq se.state down_matched || state_eq se.state up_matched)
            && (matched_are_optional
                || (negate (is_device_key se.key) || (l.e == 0 && ee.key == Key.any)))
          then continue (next_s l)
          else match_expression_async se ee l
    ]

match_event : Bool → KeyEvent → KeyEvent → Locals → Round
match_event matched_are_optional se ee l =
    if state_eq ee.state down_async || state_eq ee.state up_async
    then continue (next_e (record l { async = push l.async ee }))
    else if state_eq ee.state not && negate (ee.key == Key.timeout)
    then continue (next_e (record l { not_keys = push l.not_keys ee.key }))
    else if (ee.key == Key.any && state_eq ee.state up)
        && (negate (se.key == Key.none) && state_eq se.state up)
    then if contains se.key l.any_key_matches
      then continue (next_s (next_e l))
      else return no_match none l
    else if unifiable se ee
    then continue (
        next_s (
          next_e (record l {
            any_key_matches =
                if ee.key == Key.any && state_eq se.state down
                then push l.any_key_matches se.key
                else l.any_key_matches;
            async = remove_if (λ a. se.key == a.key) l.async;
          })))
    else if ee.key == Key.timeout && event_eq se matches_none
    then return might_match (some ee) l
    else if state_eq ee.state no_might_match
    then continue (next_e (record l { is_no_might_match = true }))
    else match_sequence_async matched_are_optional se ee l

-- One round of the loop.
pub match_round : Bool → Locals → Round
match_round matched_are_optional l =
    let se = head_or matches_none l.sequence in
    let ee = head_or matches_none l.expression in
    let not_keys =
      if state_eq ee.state down then remove_if (λ k. k == ee.key) l.not_keys else l.not_keys in
    let l' = record l { not_keys = not_keys } in
    if is_down_state se.state && contains se.key not_keys
    then return no_match none l'
    else match_event matched_are_optional se ee l'

pub record MatchOutcome : Type 0 where
  pub result : MatchResult
  pub any_key_matches : List Key
  -- `none` where `*input_timeout_event` is left as it is.
  pub input_timeout_event : Option KeyEvent

abbrev pub outcome : MatchResult → Option KeyEvent → Locals → MatchOutcome
outcome result timeout l = record {
  result = result;
  any_key_matches = l.any_key_matches;
  input_timeout_event = timeout;
}

-- The loop, on fuel. `none` means that the fuel ran out.
pub match_loop : ℕ → Bool → Locals → Option MatchOutcome
match_loop zero matched_are_optional l = none
match_loop (suc fuel) matched_are_optional l =
    if is_empty l.expression && is_empty l.sequence
    then some (outcome match none l)
    else elim (match_round matched_are_optional l) [
      | continue l' ↦ match_loop fuel matched_are_optional l'
      | return result timeout l' ↦ some (outcome result timeout l')
    ]

abbrev pub initial : KeySequence → KeySequence → Locals
initial expression sequence = record {
  expression = expression;
  e = 0;
  sequence = sequence;
  seen = [];
  is_no_might_match = false;
  async = [];
  not_keys = [];
  ignore_ups = [];
  history_timeout = default_event;
  any_key_matches = [];
}

-- A round consumes an event of one of the two ranges.
abbrev pub enough : Locals → ℕ
enough l = length l.expression + length l.sequence

abbrev pub or_no_match : Option MatchOutcome → MatchOutcome
or_no_match (some o) = o
or_no_match none = record { result = no_match; any_key_matches = []; input_timeout_event = none }

unfoldable pub match_key_sequence : KeySequence → KeySequence → Bool → MatchOutcome
unfolding match_loop match_round match_event match_sequence_async match_expression_async
    match_timing match_front ignore_down mark_async released_in_between unifiable unifiable_states
    unifiable_keys timeout_unifiable contains any remove_if remove_first sum_timeouts is_device_key
match_key_sequence expression sequence matched_are_optional =
    let start = initial expression sequence in
    or_no_match (match_loop (suc (enough start)) matched_are_optional start)

-- The loop with its fuel written out.
pub match_key_sequence_lem :
    (expression sequence : KeySequence) (matched_are_optional : Bool)
    → match_key_sequence expression sequence matched_are_optional
      ≡ or_no_match (
          match_loop
            (suc (length expression + length sequence))
            matched_are_optional
            (initial expression sequence))
unfolding match_key_sequence
match_key_sequence_lem expression sequence matched_are_optional = refl

-- One round of the loop, where it is not yet at the end of both ranges.
pub match_loop-continue :
    (fuel : ℕ) (matched_are_optional : Bool) (l l' : Locals)
    → (is_empty l.expression && is_empty l.sequence) ≡ false
    → match_round matched_are_optional l ≡ continue l'
    → match_loop (suc fuel) matched_are_optional l ≡ match_loop fuel matched_are_optional l'
unfolding match_loop
match_loop-continue fuel matched_are_optional l l' more e = rw (more, e)

pub match_loop-return :
    (fuel : ℕ) (matched_are_optional : Bool) (l l' : Locals) (r : MatchResult)
    (timeout : Option KeyEvent)
    → (is_empty l.expression && is_empty l.sequence) ≡ false
    → match_round matched_are_optional l ≡ return r timeout l'
    → match_loop (suc fuel) matched_are_optional l ≡ some (outcome r timeout l')
unfolding match_loop
match_loop-return fuel matched_are_optional l l' r timeout more e = rw (more, e)
