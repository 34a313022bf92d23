-- ===== src/Stage/Released.antt =====
-- src/runtime/Stage.cpp: the releases that `apply_input` puts out for the outputs of a released key.
pub mod Untriggered
use keymapper.Stage.Released.Untriggered.{
  NotTriggeredBy, apply_input-untriggered, continue_up, merge_up, not_suppressed,
}
use keymapper.Prelude.{
  ℕ, zero, suc, ℤ, pos, ◌≡◌, refl, ◌≢◌, Bool, true, false, List, [], ◌∷◌, Option, none, some, arith,
  ◌==◌, if_rule, option_rule, ==_ne, sym, All, All-imp, All-remove_if, find_if, any, ◌&&◌, negate,
  ◌++◌, ap, ◌∙◌, if◌then◌else◌,
}
use keymapper.Key
use keymapper.Key.{Key}
use keymapper.KeyEvent.{up, down, state_eq, KeyEvent, KeySequence, key_event}
use keymapper.KeyEvent.Held.{is_held_after, is_held_after-append}
use keymapper.Stage.State.{
  Stage, by_event, OutputDown, OutputRef, Output, no_context_index, CurrentTimeout,
}
use keymapper.Stage.Sequences.{get_trigger_event, get_trigger_key}
use keymapper.Stage.Outputs.{
  apply_output, release_triggered, is_triggered, continue_loop, continue_output_on_release,
  is_released_by, release_events, with_down,
}
use keymapper.Stage.Outputs.Triggers.{apply_output-All, release_triggered-All}
use keymapper.Stage.Contexts.{
  context_at, find_output, apply_found, starts_with_context_active, on_context_active_event,
  toggle_contexts, evaluate_contexts, context_up, context_down, only_first, update_active_contexts,
}
use keymapper.Stage.History.{clean_up_history}
use keymapper.Stage.Apply.{
  suppress_timeout, merge_event, finish_input, process_event, apply_merged, apply_continued,
  apply_input, enter_sequence, or_stage,
}
use keymapper.Stage.Update.{match_sequence, match_sequence_fuel, with_out, with_timeout}

only_first-same : (contexts : List ℕ) → only_first contexts contexts ≡ []
unfolding only_first
only_first-same [] = refl
only_first-same (context ∷ contexts) = ground (arith, only_first-same contexts)

-- An output that the release of `trigger` releases, and that holds `key` down.
abbrev pub holds_down : Key → Key → OutputDown → Bool
holds_down trigger key d =
    (get_trigger_key d.trigger == trigger && negate d.temporarily_released) && d.key == key

release_events-held :
    (trigger key : Key) (held : Bool) (ds : List OutputDown)
    → (Key.context_active == trigger) ≡ false
    → is_held_after key held (release_events trigger no_context_index ds)
      ≡ (held && negate (any (holds_down trigger key) ds))
unfolding release_events any
release_events-held trigger key held [] c = ground arith
release_events-held trigger key held (d ∷ ds) c =
    is_held_after-append key held (release_events trigger no_context_index ds) _
    ∙ ap
        (λ (h : Bool). is_held_after key h (
          if is_triggered trigger no_context_index d && negate d.temporarily_released
          then key_event d.key up ∷ []
          else []))
        (release_events-held trigger key held ds c)
    ∙ ground (arith, c)

-- Where the same contexts stay active, nothing is put out for them.
update_active_contexts-same :
    (s : Stage)
    → (update_active_contexts s).active_contexts ≡ s.active_contexts
    → (update_active_contexts s).out ≡ s.out
unfolding update_active_contexts toggle_contexts
update_active_contexts-same s same =
    let active = evaluate_contexts s s.active_client_contexts [] in
    let s' : Stage = record s {
      active_contexts = active;
      prev_active_contexts = s.active_contexts;
    } in
    ap
      (λ (changed : List ℕ).
        toggle_contexts s' context_down changed
          (toggle_contexts s' context_up (only_first s.active_contexts active) s.out))
      (ap (λ (contexts : List ℕ). only_first contexts s.active_contexts) same
        ∙ only_first-same s.active_contexts)
    ∙ ap (λ (changed : List ℕ). toggle_contexts s' context_up changed s.out)
        (ap (only_first s.active_contexts) same ∙ only_first-same s.active_contexts)

finish_input-buffer :
    (event : KeyEvent) (s : Stage)
    → event.state ≡ up
    → (finish_input event s).active_contexts ≡ s.active_contexts
    → (finish_input event s).out.output_buffer
      ≡ s.out.output_buffer ++ release_events event.key no_context_index s.out.output_down
unfolding finish_input clean_up_history release_triggered
finish_input-buffer event s u same =
    ap (λ (b : Bool). (update_active_contexts (released b)).out.output_buffer) is_up
    ∙ ap (λ (o : Output). o.output_buffer)
        (update_active_contexts-same (released true) (
          ap (λ (b : Bool). (update_active_contexts (released b)).active_contexts) (sym is_up)
          ∙ same))
  where
    released : Bool → Stage
    released b = if b then with_out s (release_triggered event.key no_context_index s.out) else s

    is_up : state_eq event.state up ≡ true
    is_up = ground (arith, u)

-- The stage when the loop of `apply_input` has ended, in front of the release of triggered output.
abbrev pub before_release : ℕ → KeyEvent → ℤ → Stage → Stage
before_release now event device_index s =
    let r =
      continue_output_on_release s.sequence s.any_key_matches s.virtual_keys_toggle event
        no_context_index s.out in
    let continued = with_timeout (with_out s r.0) (suppress_timeout event r.0.current_timeout).0 in
    let entered =
      enter_sequence now event (or_stage (merge_event event device_index continued) continued) in
    or_stage
      (match_sequence (match_sequence_fuel entered.sequence) event device_index false entered)
      entered

apply_merged-finish :
    (now : ℕ) (event : KeyEvent) (device_index : ℤ) (s : Stage) (m : Option Stage)
    → merge_event event device_index s ≡ m
    → m ≢ none
    → apply_merged now event device_index s ≡ process_event now event device_index (or_stage m s)
unfolding apply_merged
apply_merged-finish now event device_index s none e h = absurd (h refl)
apply_merged-finish now event device_index s (some merged) e h =
    ap
      (λ (x : Option Stage). elim x [
        | none ↦ s
        | some entering ↦ process_event now event device_index entering
      ])
      e

apply_input-finish :
    (now : ℕ) (event : KeyEvent) (device_index : ℤ) (s : Stage)
    → event.state ≡ up
    → event.key ≢ Key.timeout
    → apply_input now event device_index s
      ≡ finish_input event (before_release now event device_index s)
unfolding apply_input continue_output_on_release apply_continued process_event
apply_input-finish now event device_index s u t =
    let r =
      continue_output_on_release s.sequence s.any_key_matches s.virtual_keys_toggle event
        no_context_index s.out in
    let continued : Stage =
      with_timeout (with_out s r.0) (suppress_timeout event r.0.current_timeout).0 in
    ap
      (λ (b : Bool).
        if b then apply_continued now event device_index (with_out s r.0) else with_out s r.0)
      (continue_up s.sequence s.any_key_matches s.virtual_keys_toggle _ event no_context_index s.out
        u)
    ∙ ap (λ (b : Bool). if b then continued else apply_merged now event device_index continued)
        (not_suppressed event r.0.current_timeout t)
    ∙ apply_merged-finish now event device_index continued
        (merge_event event device_index continued) refl (merge_up event device_index continued u)

-- The release of a key, other than the marks for a timeout and for a context that becomes active, where
-- the same contexts stay active: of what is held down when the loop of `apply_input` has ended, exactly
-- the outputs that the key triggers are released, each by its own release event, all other keys stay as
-- they are, and no output that the key triggers is left among the pressed ones.
pub apply_input-releases :
    (now : ℕ) (event : KeyEvent) (device_index : ℤ) (s : Stage)
    → event.state ≡ up
    → event.key ≢ Key.timeout
    → event.key ≢ Key.context_active
    → (apply_input now event device_index s).active_contexts
      ≡ (before_release now event device_index s).active_contexts
    → All (NotTriggeredBy event.key) (apply_input now event device_index s).out.output_down
      × ((key : Key) (held : Bool)
          → is_held_after key held (apply_input now event device_index s).out.output_buffer ≡ (
              is_held_after key held (before_release now event device_index s).out.output_buffer
              && negate (
                  any
                    (holds_down event.key key)
                    (before_release now event device_index s).out.output_down)))
apply_input-releases now event device_index s u t c same =
    (apply_input-untriggered now event device_index s u t c, released)
  where
    before : Stage
    before = before_release now event device_index s

    finished : apply_input now event device_index s ≡ finish_input event before
    finished = apply_input-finish now event device_index s u t

    buffer :
        (apply_input now event device_index s).out.output_buffer
        ≡ before.out.output_buffer
          ++ release_events event.key no_context_index before.out.output_down
    buffer =
        ap (λ (x : Stage). x.out.output_buffer) finished
        ∙ finish_input-buffer event before u
            (ap (λ (x : Stage). x.active_contexts) (sym finished) ∙ same)

    released :
        (key : Key) (held : Bool)
        → is_held_after key held (apply_input now event device_index s).out.output_buffer ≡ (
            is_held_after key held before.out.output_buffer
            && negate (any (holds_down event.key key) before.out.output_down))
    released key held =
        ap (is_held_after key held) buffer
        ∙ is_held_after-append key held before.out.output_buffer
            (release_events event.key no_context_index before.out.output_down)
        ∙ release_events-held event.key key (is_held_after key held before.out.output_buffer)
            before.out.output_down (==_ne _ _ (λ e. c (sym e)))
