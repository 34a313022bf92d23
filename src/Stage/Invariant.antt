-- ===== src/Stage/Invariant.antt =====
-- src/runtime/Stage.cpp: a property of the list of pressed outputs through every operation of the
-- stage. What `update_output`, `release_triggered` and the reset of the suppression do to the property
-- are parameters.
use keymapper.Prelude.{
  ℕ, zero, suc, ℤ, pos, ◌≡◌, Bool, true, false, ◌&&◌, List, [], ◌∷◌, Option, none, some, arith, map,
  ◌==◌, leb, negate, if_rule, option_rule, length, remove_if, find_if, drop_last,
}
use keymapper.Key
use keymapper.Key.{Key, is_virtual_key}
use keymapper.KeyEvent.{KeyState, up, down, not, state_eq, KeyEvent, KeySequence, key_event}
use keymapper.MatchKeySequence.{no_match, might_match, match}
use keymapper.Stage.State.{
  Stage, Trigger, by_event, by_key, OutputDown, OutputRef, Output, no_context_index,
  any_device_index,
}
use keymapper.Stage.Sequences.{has_non_optional}
use keymapper.Stage.Outputs.{
  update_output, toggle_virtual_key, update_virtual_key, update_outputs, apply_event, apply_output,
  splits, release_triggered, is_triggered, continue_loop, continue_output_on_release,
  is_released_by,
}
use keymapper.Stage.Contexts.{
  context_at, find_output, apply_found, starts_with_context_active, on_context_active_event,
  toggle_contexts, update_active_contexts, set_active_client_contexts,
  cancel_inactive_output_on_release,
}
use keymapper.Stage.History.{add_history_event, clean_up_history}
use keymapper.Stage.Inputs.{match_input, MatchInput, forward_from_sequence}
use keymapper.Stage.Update.{
  is_result, Found, match_start, request_timeout, filter_result, apply_match, forward_start,
  Iteration, repeat, leave, finish_round, whole, iterate, match_sequence, match_sequence_fuel,
}
use keymapper.Stage.Apply.{
  suppress_timeout, merge_press, merge_event, record_history, release_in_sequence, reset_suppressed,
  finish_input, enter_sequence, process_event, apply_merged, apply_continued, apply_input, or_stage,
  advance_exit_sequence, update,
}
use keymapper.Stage.Validate.{apply_inputs, validate_state}

module _ (J : List OutputDown → Type 0)
    (updated : (event : KeyEvent) (trigger : Trigger) (context_index : ℤ) (o : Output)
      → J o.output_down
      → J (update_output event trigger context_index o).output_down)
    (removed : (p : OutputDown → Bool) (ds : List OutputDown) → J ds → J (remove_if p ds))
    (reset : (ds : List OutputDown) → J ds → J (reset_suppressed ds)) where
  abbrev Keeps : Output → Type 0
  Keeps o = J o.output_down

  abbrev pub Holds : Stage → Type 0
  Holds s = J s.out.output_down

  module _ (sequence : KeySequence) (matches : List Key) (toggle : Bool) where
    toggle_virtual_key-Keeps :
        (event : KeyEvent) (trigger : Trigger) (context_index : ℤ) (o : Output)
        → Keeps o
        → Keeps (toggle_virtual_key sequence matches toggle event trigger context_index o)
    unfolding toggle_virtual_key
    toggle_virtual_key-Keeps event trigger context_index o h = ground (
      arith,
      updated event trigger context_index o h,
      updated (key_event event.key up) trigger context_index
          (update_output (key_event event.key down) trigger context_index o)
          (updated (key_event event.key down) trigger context_index o h),
    )

    update_outputs-Keeps :
        (state : KeyState) (keys : List Key) (trigger : Trigger) (context_index : ℤ) (o : Output)
        → Keeps o
        → Keeps (update_outputs sequence matches toggle state keys trigger context_index o)
    unfolding update_outputs
    update_outputs-Keeps state [] trigger context_index o h = h
    update_outputs-Keeps state (key ∷ keys) trigger context_index o h =
        update_outputs-Keeps state keys trigger context_index _
          (updated (key_event key state) trigger context_index o h)

    apply_event-Keeps :
        (event : KeyEvent) (trigger : Trigger) (context_index : ℤ) (o : Output)
        → Keeps o
        → Keeps (apply_event sequence matches toggle event trigger context_index o)
    unfolding apply_event update_virtual_key
    apply_event-Keeps event trigger context_index o h = ground (
      arith,
      update_outputs-Keeps not (map (λ (d : OutputDown). d.key) o.output_down) trigger context_index
          o h,
      update_outputs-Keeps event.state matches trigger context_index o h,
      toggle_virtual_key-Keeps event trigger context_index o h,
      updated event trigger context_index o h,
    )

    apply_output-Keeps :
        (output : KeySequence) (trigger : Trigger) (context_index : ℤ) (o : Output)
        → Keeps o
        → Keeps (apply_output sequence matches toggle output trigger context_index o)
    unfolding apply_output
    apply_output-Keeps [] trigger context_index o h = h
    apply_output-Keeps (event ∷ rest) trigger context_index o h =
        if_rule Keeps (splits sequence matches toggle event trigger) (λ _. h)
          λ _.
            apply_output-Keeps rest trigger context_index _
              (apply_event-Keeps event trigger context_index o h)

    continue_loop-Keeps :
        (fuel : ℕ) (event : KeyEvent) (context_index : ℤ) (o : Output)
        → Keeps o
        → Keeps (continue_loop sequence matches toggle fuel event context_index o).0
    unfolding continue_loop
    continue_loop-Keeps zero event context_index o h = h
    continue_loop-Keeps (suc fuel) event context_index o h =
        option_rule (λ (x : Output × Bool). Keeps x.0)
          (find_if (is_released_by sequence matches toggle event context_index) o.output_on_release)
          (λ _. h)
          λ r _.
            if_rule (λ (x : Output × Bool). Keeps x.0) (state_eq event.state down) (λ _. h)
              λ _.
                continue_loop-Keeps fuel event context_index _
                  (apply_output-Keeps r.sequence (by_event event) r.context_index o h)

  release_triggered-Keeps :
      (key : Key) (context_index : ℤ) (o : Output)
      → Keeps o
      → Keeps (release_triggered key context_index o)
  unfolding release_triggered
  release_triggered-Keeps key context_index o h =
      removed (is_triggered key context_index) o.output_down h

  apply_found-Keeps :
      (s : Stage) (ref : Option OutputRef) (event : KeyEvent) (context : ℕ) (o : Output)
      → Keeps o
      → Keeps (apply_found s ref event context o)
  apply_found-Keeps s none event context o h = h
  apply_found-Keeps s (some ref) event context o h =
      apply_output-Keeps s.sequence s.any_key_matches s.virtual_keys_toggle ref.sequence
        (by_event event) (pos context) o h

  on_context_active_event-Keeps :
      (s : Stage) (event : KeyEvent) (context : ℕ) (o : Output)
      → Keeps o
      → Keeps (on_context_active_event s event context o)
  unfolding on_context_active_event continue_output_on_release
  on_context_active_event-Keeps s event context o h =
      option_rule Keeps (find_if starts_with_context_active (context_at s.contexts context).inputs)
        (λ _. h)
        λ input _.
          if_rule Keeps (state_eq event.state down)
            (λ _. apply_found-Keeps s (find_output s context input.output_index) event context o h)
            λ _. release_triggered-Keeps event.key (pos context) _ (
              continue_loop-Keeps s.sequence s.any_key_matches s.virtual_keys_toggle _ event
                (pos context) o h)

  toggle_contexts-Keeps :
      (s : Stage) (event : KeyEvent) (contexts : List ℕ) (o : Output)
      → Keeps o
      → Keeps (toggle_contexts s event contexts o)
  unfolding toggle_contexts
  toggle_contexts-Keeps s event [] o h = h
  toggle_contexts-Keeps s event (context ∷ contexts) o h =
      toggle_contexts-Keeps s event contexts _ (on_context_active_event-Keeps s event context o h)

  update_active_contexts-Holds : (s : Stage) → Holds s → Holds (update_active_contexts s)
  unfolding update_active_contexts
  update_active_contexts-Holds s h = toggle_contexts-Keeps _ _ _ _ (toggle_contexts-Keeps _ _ _ _ h)

  pub set_active_client_contexts-Holds :
      (indices : List ℕ) (s : Stage) → Holds s → Holds (set_active_client_contexts indices s).1
  unfolding set_active_client_contexts cancel_inactive_output_on_release
  set_active_client_contexts-Holds indices s h = update_active_contexts-Holds _ h

  forward_from_sequence-Keeps :
      (sequence : KeySequence) (o : Output) → Keeps o → Keeps (forward_from_sequence sequence o).out
  unfolding forward_from_sequence
  forward_from_sequence-Keeps [] o h = h
  forward_from_sequence-Keeps (event ∷ rest) o h = ground (
    arith,
    updated event (by_key event.key) no_context_index o h,
    forward_from_sequence-Keeps rest o h,
    release_triggered-Keeps event.key no_context_index o h,
  )

  match_start-Holds :
      (fuel : ℕ) (device_index : ℤ) (m : MatchInput) (sequence : KeySequence) (s : Stage)
      → Holds s
      → Holds (match_start fuel device_index m sequence s).stage
  unfolding match_start match_input
  match_start-Holds zero device_index m sequence s h = h
  match_start-Holds (suc fuel) device_index m sequence s h =
      let shorter = drop_last sequence in
      let found : MatchInput × Stage = match_input s false true shorter device_index in
      if_rule (λ (f : Found). Holds f.stage) (leb (length sequence) 1) (λ _. h)
        λ _.
          if_rule (λ (f : Found). Holds f.stage) (negate (has_non_optional shorter)) (λ _. h)
            λ _.
              if_rule (λ (f : Found). Holds f.stage) (is_result found.0.result match) (λ _. h)
                λ _. match_start-Holds fuel device_index found.0 shorter found.1 h

  abbrev HoldsAfter : Iteration → Type 0
  HoldsAfter (repeat optional s) = Holds s
  HoldsAfter (leave s) = Holds s

  request_timeout-Holds :
      (timeout : KeyEvent) (sequence : KeySequence) (s : Stage)
      → Holds s
      → Holds (request_timeout timeout sequence s)
  unfolding request_timeout
  request_timeout-Holds timeout sequence s h =
      if_rule Holds (timeout.key == Key.timeout) (λ _. h) (λ _. h)

  finish_round-Holds :
      (event : KeyEvent) (optional : Bool) (f : Found)
      → Holds f.stage
      → HoldsAfter (finish_round event optional f)
  unfolding finish_round apply_match forward_start
  finish_round-Holds event optional f h =
      let s : Stage = request_timeout f.matched.input_timeout_event f.sequence f.stage in
      let h' : Holds s = request_timeout-Holds _ _ _ h in
      if_rule HoldsAfter (is_result f.matched.result might_match) (λ _. h')
        λ _.
          if_rule HoldsAfter
            (is_result
              (filter_result event f.matched_start_only f.matched.result f.matched.output
                s.out.current_timeout).0
              match)
            (λ _. apply_output-Keeps _ _ _ _ _ _ _ h') (λ _. forward_from_sequence-Keeps _ _ h')

  iterate-Holds :
      (event : KeyEvent) (device_index : ℤ) (optional : Bool) (s : Stage)
      → Holds s
      → HoldsAfter (iterate event device_index optional s)
  unfolding iterate match_input whole
  iterate-Holds event device_index optional s h =
      let m : MatchInput × Stage = match_input s true optional s.sequence device_index in
      if_rule HoldsAfter (negate (is_result m.0.result match) && negate optional) (λ _. h)
        λ _.
          if_rule HoldsAfter (is_virtual_key event.key && negate (is_result m.0.result match))
            (λ _. h)
            λ _.
              if_rule HoldsAfter (is_result m.0.result no_match && s.sequence_might_match)
                (λ _.
                  finish_round-Holds event optional _
                    (match_start-Holds (length s.sequence) device_index m.0 s.sequence m.1 h))
                (λ _. finish_round-Holds event optional (whole m) h)

  match_sequence-Holds :
      (fuel : ℕ) (event : KeyEvent) (device_index : ℤ) (optional : Bool) (s d : Stage)
      → Holds s
      → Holds d
      → Holds (or_stage (match_sequence fuel event device_index optional s) d)
  unfolding match_sequence
  match_sequence-Holds zero event device_index optional s d h k = k
  match_sequence-Holds (suc fuel) event device_index optional s d h k =
      if_rule (λ r. Holds (or_stage r d)) (has_non_optional s.sequence)
        (λ _.
          after (iterate event device_index optional s)
            (iterate-Holds event device_index optional s h)
            (λ o t g. match_sequence-Holds fuel event device_index o t d g k))
        (λ _. h)
    where
      after :
          (i : Iteration)
          → HoldsAfter i
          → ((o : Bool) (t : Stage)
              → Holds t
              → Holds (or_stage (match_sequence fuel event device_index o t) d))
          → Holds (
              or_stage
                (elim i [
                  | leave t ↦ some t
                  | repeat o t ↦ match_sequence fuel event device_index o t
                ])
                d)
      after (leave t) g ih = g
      after (repeat o t) g ih = ih o t g

  finish_input-Holds : (event : KeyEvent) (s : Stage) → Holds s → Holds (finish_input event s)
  unfolding finish_input clean_up_history
  finish_input-Holds event s h = update_active_contexts-Holds _ (
      if_rule Holds (state_eq event.state up)
        (λ _. release_triggered-Keeps event.key no_context_index s.out h) (λ _. h))

  record_history-Holds :
      (now : ℕ) (event : KeyEvent) (s : Stage) → Holds s → Holds (record_history now event s)
  unfolding record_history add_history_event
  record_history-Holds now event s h = ground arith

  release_in_sequence-Holds :
      (event : KeyEvent) (s : Stage) → Holds s → Holds (release_in_sequence event s)
  unfolding release_in_sequence
  release_in_sequence-Holds event s h = if_rule Holds (state_eq event.state up) (λ _. h) (λ _. h)

  enter_sequence-Holds :
      (now : ℕ) (event : KeyEvent) (s : Stage) → Holds s → Holds (enter_sequence now event s)
  unfolding enter_sequence
  enter_sequence-Holds now event s h = reset _ (
      release_in_sequence-Holds event _
        (update_active_contexts-Holds _ (record_history-Holds now event _ h)))

  process_event-Holds :
      (now : ℕ) (event : KeyEvent) (device_index : ℤ) (s : Stage)
      → Holds s
      → Holds (process_event now event device_index s)
  unfolding process_event
  process_event-Holds now event device_index s h =
      let e : Stage = enter_sequence now event s in
      let k : Holds e = enter_sequence-Holds now event s h in
      finish_input-Holds event _
        (match_sequence-Holds (match_sequence_fuel e.sequence) event device_index false e e k k)

  merge_event-Holds :
      (event : KeyEvent) (device_index : ℤ) (s s' : Stage)
      → merge_event event device_index s ≡ some s'
      → Holds s
      → Holds s'
  unfolding merge_event merge_press
  merge_event-Holds event device_index s s' e h = ground arith

  apply_merged-Holds :
      (now : ℕ) (event : KeyEvent) (device_index : ℤ) (s : Stage)
      → Holds s
      → Holds (apply_merged now event device_index s)
  unfolding apply_merged
  apply_merged-Holds now event device_index s h =
      option_rule Holds (merge_event event device_index s) (λ _. h)
        λ s' e.
          process_event-Holds now event device_index s'
            (merge_event-Holds event device_index s s' e h)

  apply_input-Holds :
      (now : ℕ) (event : KeyEvent) (device_index : ℤ) (s : Stage)
      → Holds s
      → Holds (apply_input now event device_index s)
  unfolding apply_input apply_continued continue_output_on_release
  apply_input-Holds now event device_index s h =
      let r : Output × Bool =
        continue_loop s.sequence s.any_key_matches s.virtual_keys_toggle
          (suc (length s.out.output_on_release)) event no_context_index s.out in
      let k : Keeps r.0 =
        continue_loop-Keeps s.sequence s.any_key_matches s.virtual_keys_toggle _ event
          no_context_index s.out h in
      if_rule Holds r.1
        (λ _.
          if_rule Holds (suppress_timeout event r.0.current_timeout).1 (λ _. k)
            (λ _. apply_merged-Holds now event device_index _ k))
        (λ _. k)

  pub update-Holds :
      (now : ℕ) (event : KeyEvent) (device_index : ℤ) (s : Stage)
      → Holds s
      → Holds (update now event device_index s).1
  unfolding update advance_exit_sequence
  update-Holds now event device_index s h = apply_input-Holds now event device_index _ h

  apply_inputs-Holds :
      (now : ℕ) (events : KeySequence) (s : Stage) → Holds s → Holds (apply_inputs now events s)
  unfolding apply_inputs
  apply_inputs-Holds now [] s h = h
  apply_inputs-Holds now (event ∷ events) s h =
      apply_inputs-Holds now events _ (apply_input-Holds now event any_device_index s h)

  pub validate_state-Holds :
      (now : ℕ) (is_down : Key → Bool) (s : Stage) → Holds s → Holds (validate_state now is_down s)
  unfolding validate_state
  validate_state-Holds now is_down s h = apply_inputs-Holds now _ _ h
