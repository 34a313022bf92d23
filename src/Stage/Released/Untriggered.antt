-- ===== src/Stage/Released/Untriggered.antt =====
-- src/runtime/Stage.cpp: the outputs that are left pressed by `apply_input` at a release.
use keymapper.Prelude.{
  ℕ, zero, suc, ℤ, pos, ◌≡◌, refl, ◌≢◌, Bool, true, false, List, [], ◌∷◌, Option, none, some, arith,
  ◌==◌, if_rule, option_rule, ==_ne, sym, All, All-imp, All-remove_if, find_if,
}
use keymapper.Key
use keymapper.Key.{Key}
use keymapper.KeyEvent.{up, down, state_eq, KeyEvent, KeySequence}
use keymapper.Stage.State.{
  Stage, by_event, OutputDown, OutputRef, Output, no_context_index, CurrentTimeout,
}
use keymapper.Stage.Sequences.{get_trigger_event, get_trigger_key}
use keymapper.Stage.Outputs.{
  apply_output, release_triggered, is_triggered, continue_loop, continue_output_on_release,
  is_released_by,
}
use keymapper.Stage.Outputs.Triggers.{apply_output-All, release_triggered-All}
use keymapper.Stage.Contexts.{
  context_at, find_output, apply_found, starts_with_context_active, on_context_active_event,
  toggle_contexts, context_up, context_down, update_active_contexts,
}
use keymapper.Stage.History.{clean_up_history}
use keymapper.Stage.Apply.{
  suppress_timeout, merge_event, finish_input, process_event, apply_merged, apply_continued,
  apply_input,
}

abbrev pub NotTriggeredBy : Key → OutputDown → Type 0
NotTriggeredBy k d = (get_trigger_key d.trigger == k) ≡ false

-- An event of another key adds no output that the key triggers.
module _ (k : Key) (event : KeyEvent) (other : (event.key == k) ≡ false) where
  event_output :
      (sequence : KeySequence) (matches : List Key) (toggle : Bool) (output : KeySequence)
      (context_index : ℤ) (o : Output)
      → All (NotTriggeredBy k) o.output_down
      → All
          (NotTriggeredBy k)
          (apply_output sequence matches toggle output (by_event event) context_index o).output_down
  unfolding get_trigger_key get_trigger_event
  event_output sequence matches toggle output context_index o h =
      apply_output-All (NotTriggeredBy k) (λ f d p. p) (by_event event) context_index (λ key. other)
        sequence matches toggle output o h

  continue_loop-All :
      (sequence : KeySequence) (matches : List Key) (toggle : Bool) (fuel : ℕ) (context_index : ℤ)
      (o : Output)
      → All (NotTriggeredBy k) o.output_down
      → All
          (NotTriggeredBy k)
          (continue_loop sequence matches toggle fuel event context_index o).0.output_down
  unfolding continue_loop
  continue_loop-All sequence matches toggle zero context_index o h = h
  continue_loop-All sequence matches toggle (suc fuel) context_index o h =
      option_rule (λ (x : Output × Bool). All (NotTriggeredBy k) x.0.output_down)
        (find_if (is_released_by sequence matches toggle event context_index) o.output_on_release)
        (λ _. h)
        λ r _.
          if_rule (λ (x : Output × Bool). All (NotTriggeredBy k) x.0.output_down)
            (state_eq event.state down) (λ _. h)
            λ _.
              continue_loop-All sequence matches toggle fuel context_index _
                (event_output sequence matches toggle r.sequence r.context_index o h)

  release_triggered-keeps :
      (key : Key) (context_index : ℤ) (o : Output)
      → All (NotTriggeredBy k) o.output_down
      → All (NotTriggeredBy k) (release_triggered key context_index o).output_down
  unfolding release_triggered
  release_triggered-keeps key context_index o h =
      All-remove_if (NotTriggeredBy k) (is_triggered key context_index) o.output_down h

  apply_found-All :
      (s : Stage) (ref : Option OutputRef) (context : ℕ) (o : Output)
      → All (NotTriggeredBy k) o.output_down
      → All (NotTriggeredBy k) (apply_found s ref event context o).output_down
  apply_found-All s none context o h = h
  apply_found-All s (some ref) context o h =
      event_output s.sequence s.any_key_matches s.virtual_keys_toggle ref.sequence (pos context) o h

  on_context_active_event-All :
      (s : Stage) (context : ℕ) (o : Output)
      → All (NotTriggeredBy k) o.output_down
      → All (NotTriggeredBy k) (on_context_active_event s event context o).output_down
  unfolding on_context_active_event continue_output_on_release
  on_context_active_event-All s context o h =
      option_rule (λ (x : Output). All (NotTriggeredBy k) x.output_down)
        (find_if starts_with_context_active (context_at s.contexts context).inputs) (λ _. h)
        λ input _.
          if_rule (λ (x : Output). All (NotTriggeredBy k) x.output_down) (state_eq event.state down)
            (λ _. apply_found-All s (find_output s context input.output_index) context o h)
            λ _. release_triggered-keeps event.key (pos context) _ (
              continue_loop-All s.sequence s.any_key_matches s.virtual_keys_toggle _ (pos context) o
                h)

  toggle_contexts-All :
      (s : Stage) (contexts : List ℕ) (o : Output)
      → All (NotTriggeredBy k) o.output_down
      → All (NotTriggeredBy k) (toggle_contexts s event contexts o).output_down
  unfolding toggle_contexts
  toggle_contexts-All s [] o h = h
  toggle_contexts-All s (context ∷ contexts) o h =
      toggle_contexts-All s contexts _ (on_context_active_event-All s context o h)

update_active_contexts-All :
    (k : Key) (s : Stage)
    → (Key.context_active == k) ≡ false
    → All (NotTriggeredBy k) s.out.output_down
    → All (NotTriggeredBy k) (update_active_contexts s).out.output_down
unfolding update_active_contexts
update_active_contexts-All k s n h =
    toggle_contexts-All k context_down n _ _ _ (toggle_contexts-All k context_up n _ _ _ h)

-- The end of a released key's event.
finish_input-releases :
    (event : KeyEvent) (s : Stage)
    → event.state ≡ up
    → (Key.context_active == event.key) ≡ false
    → All (NotTriggeredBy event.key) (finish_input event s).out.output_down
unfolding finish_input clean_up_history
finish_input-releases event s u n = update_active_contexts-All event.key _ n (
    if_rule (λ (x : Stage). All (NotTriggeredBy event.key) x.out.output_down)
      (state_eq event.state up)
      (λ _.
        All-imp (λ d h. ground arith) _ (release_triggered-All event.key no_context_index s.out))
      (λ x. absurd (cc (x, u))))

pub continue_up :
    (sequence : KeySequence) (matches : List Key) (toggle : Bool) (fuel : ℕ) (event : KeyEvent)
    (context_index : ℤ) (o : Output)
    → event.state ≡ up
    → (continue_loop sequence matches toggle fuel event context_index o).1 ≡ true
unfolding continue_loop
continue_up sequence matches toggle zero event context_index o u = refl
continue_up sequence matches toggle (suc fuel) event context_index o u =
    option_rule (λ (x : Output × Bool). x.1 ≡ true)
      (find_if (is_released_by sequence matches toggle event context_index) o.output_on_release)
      (λ _. refl)
      λ r _.
        if_rule (λ (x : Output × Bool). x.1 ≡ true) (state_eq event.state down)
          (λ x. absurd (cc (x, u)))
          λ _. continue_up sequence matches toggle fuel event context_index _ u

pub not_suppressed :
    (event : KeyEvent) (t : Option CurrentTimeout)
    → event.key ≢ Key.timeout
    → (suppress_timeout event t).1 ≡ false
unfolding suppress_timeout
not_suppressed event none h = refl
not_suppressed event (some t) h = ground arith

pub merge_up :
    (event : KeyEvent) (device_index : ℤ) (s : Stage)
    → event.state ≡ up
    → merge_event event device_index s ≢ none
unfolding merge_event
merge_up event device_index s u = ground arith

apply_merged-releases :
    (now : ℕ) (event : KeyEvent) (device_index : ℤ) (s : Stage)
    → event.state ≡ up
    → (Key.context_active == event.key) ≡ false
    → All (NotTriggeredBy event.key) (apply_merged now event device_index s).out.output_down
unfolding apply_merged process_event
apply_merged-releases now event device_index s u c =
    option_rule (λ (x : Stage). All (NotTriggeredBy event.key) x.out.output_down)
      (merge_event event device_index s)
      (λ missing. absurd (merge_up event device_index s u missing))
      λ merged _. finish_input-releases event _ u c

apply_continued-releases :
    (now : ℕ) (event : KeyEvent) (device_index : ℤ) (s : Stage)
    → event.state ≡ up
    → event.key ≢ Key.timeout
    → (Key.context_active == event.key) ≡ false
    → All (NotTriggeredBy event.key) (apply_continued now event device_index s).out.output_down
unfolding apply_continued
apply_continued-releases now event device_index s u t c =
    rw (not_suppressed event s.out.current_timeout t, All)
      (apply_merged-releases now event device_index _ u c)

pub apply_input-untriggered :
    (now : ℕ) (event : KeyEvent) (device_index : ℤ) (s : Stage)
    → event.state ≡ up
    → event.key ≢ Key.timeout
    → event.key ≢ Key.context_active
    → All (NotTriggeredBy event.key) (apply_input now event device_index s).out.output_down
unfolding apply_input continue_output_on_release
apply_input-untriggered now event device_index s u t c =
    rw
      (
        continue_up s.sequence s.any_key_matches s.virtual_keys_toggle _ event no_context_index
            s.out u,
        All,
      )
      (apply_continued-releases now event device_index _ u t (==_ne _ _ (λ e. c (sym e))))
