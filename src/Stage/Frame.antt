-- ===== src/Stage/Frame.antt =====
-- src/runtime/Stage.cpp: the members that `apply_input` does not write.
use keymapper.Prelude.{
  ℕ, zero, suc, ℤ, ◌≡◌, refl, ◌∙◌, Bool, true, false, ◌&&◌, Option, none, some, OptionAll, push,
  ◌==◌, drop_last, arith, negate, if_rule, length, leb,
}
use keymapper.Key
use keymapper.Key.{is_virtual_key}
use keymapper.KeyEvent.{KeySequence, KeyEvent, state_eq, down}
use keymapper.MatchKeySequence.{match, no_match}
use keymapper.Stage.State.{Stage, Output, no_context_index}
use keymapper.Stage.Sequences.{has_non_optional}
use keymapper.Stage.Outputs.{continue_output_on_release}
use keymapper.Stage.Contexts.{update_active_contexts}
use keymapper.Stage.History.{add_history_event, clean_up_history}
use keymapper.Stage.Inputs.{MatchInput, match_input}
use keymapper.Stage.Update.{
  Found, Iteration, repeat, leave, is_result, match_start, request_timeout, apply_match,
  forward_start, finish_round, whole, iterate, match_sequence, match_sequence_fuel, with_out,
  with_timeout,
}
use keymapper.Stage.Apply.{
  merge_press, merge_event, record_history, release_in_sequence, finish_input, enter_sequence,
  process_event, or_stage, apply_merged, apply_continued, apply_input, suppress_timeout,
}

abbrev pub Frame : Stage → Stage → Type 0
Frame s s' =
    (s'.contexts ≡ s.contexts)
    × ((s'.active_client_contexts ≡ s.active_client_contexts)
        × (s'.exit_sequence_position ≡ s.exit_sequence_position))

Frame-refl : (s : Stage) → Frame s s
Frame-refl s = (refl, (refl, refl))

Frame-trans : (s t u : Stage) → Frame s t → Frame t u → Frame s u
Frame-trans s t u f g = (g.0 ∙ f.0, ((g.1).0 ∙ (f.1).0, (g.1).1 ∙ (f.1).1))

match_input-Frame :
    (s : Stage) (first optional : Bool) (sequence : KeySequence) (d : ℤ)
    → Frame s (match_input s first optional sequence d).1
unfolding match_input
match_input-Frame s first optional sequence d = Frame-refl s

match_start-Frame :
    (n : ℕ) (d : ℤ) (m : MatchInput) (sequence : KeySequence) (s : Stage)
    → Frame s (match_start n d m sequence s).stage
unfolding match_start
match_start-Frame zero d m sequence s = Frame-refl s
match_start-Frame (suc n) d m sequence s =
    let shorter : KeySequence = drop_last sequence in
    let found : MatchInput × Stage = match_input s false true shorter d in
    let searched = match_input-Frame s false true shorter d in
    let FrameOf : Found → Type 0 = λ f. Frame s f.stage in
    if_rule FrameOf (leb (length sequence) 1) (λ _. Frame-refl s)
      λ _.
        if_rule FrameOf (negate (has_non_optional shorter)) (λ _. Frame-refl s)
          λ _.
            if_rule FrameOf (is_result (found.0).result match) (λ _. searched)
              λ _.
                Frame-trans s found.1 (match_start n d found.0 shorter found.1).stage searched
                  (match_start-Frame n d found.0 shorter found.1)

request_timeout-Frame :
    (timeout : KeyEvent) (sequence : KeySequence) (s : Stage)
    → Frame s (request_timeout timeout sequence s)
unfolding request_timeout
request_timeout-Frame timeout sequence s =
    if_rule (Frame s) (timeout.key == Key.timeout) (λ _. Frame-refl s) (λ _. Frame-refl s)

apply_match-Frame : (event : KeyEvent) (f : Found) (s : Stage) → Frame s (apply_match event f s)
unfolding apply_match
apply_match-Frame event f s = Frame-refl s

forward_start-Frame : (s : Stage) → Frame s (forward_start s)
unfolding forward_start
forward_start-Frame s = Frame-refl s

-- Both ways a round ends.
abbrev RoundFrame : Stage → Iteration → Type 0
RoundFrame s (repeat optional s') = Frame s s'
RoundFrame s (leave s') = Frame s s'

finish_round-Frame :
    (event : KeyEvent) (optional : Bool) (f : Found) (s : Stage)
    → Frame s f.stage
    → RoundFrame s (finish_round event optional f)
unfolding finish_round request_timeout apply_match forward_start
finish_round-Frame event optional f s h = ground (arith, h)

iterate-Frame :
    (event : KeyEvent) (d : ℤ) (optional : Bool) (s : Stage)
    → RoundFrame s (iterate event d optional s)
unfolding iterate
iterate-Frame event d optional s =
    let m : MatchInput × Stage = match_input s true optional s.sequence d in
    let searched = match_input-Frame s true optional s.sequence d in
    if_rule (RoundFrame s) (negate (is_result (m.0).result match) && negate optional)
      (λ _. searched)
      λ _.
        if_rule (RoundFrame s) (is_virtual_key event.key && negate (is_result (m.0).result match))
          (λ _. searched)
          λ _.
            if_rule (RoundFrame s) (is_result (m.0).result no_match && (m.1).sequence_might_match)
              (λ _. finish_round-Frame event optional _ s (
                Frame-trans s m.1
                  (match_start (length (m.1).sequence) d m.0 (m.1).sequence m.1).stage searched
                  (match_start-Frame (length (m.1).sequence) d m.0 (m.1).sequence m.1)))
              (λ _. finish_round-Frame event optional (whole m) s (unfold whole in searched))

match_sequence-Frame :
    (n : ℕ) (event : KeyEvent) (d : ℤ) (optional : Bool) (s s0 : Stage)
    → Frame s0 s
    → OptionAll (Frame s0) (match_sequence n event d optional s)
unfolding match_sequence
match_sequence-Frame zero event d optional s s0 h = tt
match_sequence-Frame (suc n) event d optional s s0 h =
    if_rule (OptionAll (Frame s0)) (has_non_optional s.sequence)
      (λ _.
        next (iterate event d optional s) (iterate-Frame event d optional s)
          (λ optional' s' f. match_sequence-Frame n event d optional' s' s0 f))
      (λ _. h)
  where
    next :
        (i : Iteration)
        → RoundFrame s i
        → ((optional' : Bool) (s' : Stage)
            → Frame s0 s'
            → OptionAll (Frame s0) (match_sequence n event d optional' s'))
        → OptionAll (Frame s0) (elim i [
          | leave s' ↦ some s'
          | repeat optional' s' ↦ match_sequence n event d optional' s'
        ])
    next (leave s') f rest = Frame-trans s0 s s' h f
    next (repeat optional' s') f rest = rest optional' s' (Frame-trans s0 s s' h f)

merge_press-Frame :
    (event : KeyEvent) (d : ℤ) (s : Stage) → OptionAll (Frame s) (merge_press event d s)
unfolding merge_press
merge_press-Frame event d s = ground arith

merge_event-Frame :
    (event : KeyEvent) (d : ℤ) (s : Stage) → OptionAll (Frame s) (merge_event event d s)
unfolding merge_event
merge_event-Frame event d s =
    if_rule (OptionAll (Frame s)) (state_eq event.state down) (λ _. merge_press-Frame event d s)
      (λ _. Frame-refl s)

finish_input-Frame : (event : KeyEvent) (s : Stage) → Frame s (finish_input event s)
unfolding finish_input update_active_contexts clean_up_history
finish_input-Frame event s = ground arith

record_history-Frame :
    (now : ℕ) (event : KeyEvent) (s : Stage) → Frame s (record_history now event s)
unfolding record_history add_history_event
record_history-Frame now event s = ground arith

enter_sequence-Frame :
    (now : ℕ) (event : KeyEvent) (s : Stage) → Frame s (enter_sequence now event s)
unfolding enter_sequence update_active_contexts release_in_sequence
enter_sequence-Frame now event s =
    ground (arith, record_history-Frame now event (record s { sequence = push s.sequence event }))

process_event-Frame :
    (now : ℕ) (event : KeyEvent) (d : ℤ) (s : Stage) → Frame s (process_event now event d s)
unfolding process_event
process_event-Frame now event d s =
    let entered : Stage = enter_sequence now event s in
    let entered_frame = enter_sequence-Frame now event s in
    ended (match_sequence (match_sequence_fuel entered.sequence) event d false entered) (
      match_sequence-Frame (match_sequence_fuel entered.sequence) event d false entered s
        entered_frame)
  where
    ended :
        (r : Option Stage)
        → OptionAll (Frame s) r
        → Frame s (finish_input event (or_stage r (enter_sequence now event s)))
    ended none h =
        Frame-trans s (enter_sequence now event s) (finish_input event (enter_sequence now event s))
          (enter_sequence-Frame now event s) (finish_input-Frame event (enter_sequence now event s))
    ended (some s') h = Frame-trans s s' (finish_input event s') h (finish_input-Frame event s')

apply_merged-Frame :
    (now : ℕ) (event : KeyEvent) (d : ℤ) (s : Stage) → Frame s (apply_merged now event d s)
unfolding apply_merged
apply_merged-Frame now event d s = merged (merge_event event d s) (merge_event-Frame event d s)
  where
    merged :
        (r : Option Stage)
        → OptionAll (Frame s) r
        → Frame s (elim r [ none ↦ s | some s' ↦ process_event now event d s' ])
    merged none h = Frame-refl s
    merged (some s') h =
        Frame-trans s s' (process_event now event d s') h (process_event-Frame now event d s')

-- The processing of an event changes neither the contexts nor which of them the client set active,
-- nor the position in the exit sequence.
pub apply_input-Frame :
    (now : ℕ) (event : KeyEvent) (d : ℤ) (s : Stage) → Frame s (apply_input now event d s)
unfolding apply_input apply_continued
apply_input-Frame now event d s =
    let r : Output × Bool =
      continue_output_on_release s.sequence s.any_key_matches s.virtual_keys_toggle event
        no_context_index s.out in
    if_rule (Frame s) r.1
      (λ _.
        if_rule (Frame s) (suppress_timeout event (r.0).current_timeout).1 (λ _. Frame-refl s)
          (λ _.
            apply_merged-Frame now event d
              (with_timeout (with_out s r.0) (suppress_timeout event (r.0).current_timeout).0)))
      (λ _. Frame-refl s)
