-- ===== src/Stage/Outputs/Triggers.antt =====
-- src/runtime/Stage.cpp: properties of each pressed output that do not depend on its three flags,
-- through the functions for the output.
use keymapper.Prelude.{
  ℤ, ◌≡◌, Bool, true, false, List, [], ◌∷◌, Option, none, some, arith, map, if_rule, All,
  All-append, All-remove_first, remove_if-All, modify_first, push, find_if,
}
use keymapper.Key.{Key}
use keymapper.KeyEvent.{KeyState, up, down, not, KeyEvent, KeySequence, key_event}
use keymapper.Stage.State.{Trigger, OutputDown, Output}
use keymapper.Stage.Outputs.{
  is_output, on_output, update_up, update_not, reapply, Reapplied, press_output, update_down,
  new_output, update_output_in, update_output, is_triggered, release_triggered, toggle_virtual_key,
  update_virtual_key, update_outputs, apply_event, apply_output, splits,
}

pub record Flags : Type 0 where
  pub suppressed : Bool
  pub temporarily_released : Bool
  pressed_twice : Bool

abbrev pub set_flags : Flags → OutputDown → OutputDown
set_flags f d = record d {
  suppressed = f.suppressed;
  temporarily_released = f.temporarily_released;
  pressed_twice = f.pressed_twice;
}

module _ (P : OutputDown → Type 0)
    (flags : (f : Flags) (d : OutputDown) → P d → P (set_flags f d)) where
  All-modify_first :
      (p : OutputDown → Bool) (g : OutputDown → OutputDown) (ds : List OutputDown)
      → ((d : OutputDown) → P d → P (g d))
      → All P ds
      → All P (modify_first p g ds)
  unfolding modify_first
  All-modify_first p g [] keep h = tt
  All-modify_first p g (d ∷ ds) keep h =
      if_rule (All P) (p d) (λ _. (keep d h.0, h.1)) (λ _. (h.0, All-modify_first p g ds keep h.1))

  update_up-All :
      (event : KeyEvent) (trigger : Trigger) (it : OutputDown) (o : Output)
      → All P o.output_down
      → All P (update_up event trigger it o).output_down
  unfolding update_up
  update_up-All event trigger it o h = ground (
    arith,
    All-modify_first (is_output event.key) (λ d. record d { pressed_twice = false }) o.output_down
        (λ d. flags _ d) h,
    All-modify_first (is_output event.key) (λ d. record d { temporarily_released = true })
        o.output_down (λ d. flags _ d) h,
    All-remove_first P (is_output event.key) o.output_down h,
  )

  update_not-All :
      (event : KeyEvent) (it : OutputDown) (o : Output)
      → All P o.output_down
      → All P (update_not event it o).output_down
  unfolding update_not
  update_not-All event it o h = ground (
    arith,
    All-modify_first (is_output event.key)
        (λ d. record d { temporarily_released = true; suppressed = true }) o.output_down
        (λ d. flags _ d) h,
  )

  reapply-All :
      (key : Key) (ds : List OutputDown) (buffer : KeySequence) (reapplied : Bool)
      → All P ds
      → All P (reapply key ds buffer reapplied).downs
  unfolding reapply
  reapply-All key [] buffer reapplied h = tt
  reapply-All key (d ∷ ds) buffer reapplied h = ground (
    arith,
    flags
        (record {
          suppressed = d.suppressed;
          temporarily_released = false;
          pressed_twice = d.pressed_twice;
        })
        d h.0,
    reapply-All key ds (push buffer (key_event d.key down)) true h.1,
    reapply-All key ds buffer reapplied h.1,
  )

  module _ (trigger : Trigger) (context_index : ℤ)
      (new : (key : Key) → P (new_output key trigger context_index)) where
    press_output-All :
        (event : KeyEvent) (o : Output)
        → All P o.output_down
        → All P (press_output event trigger context_index o).output_down
    unfolding press_output
    press_output-All event o h = ground (
      arith,
      All-append P o.output_down (new_output event.key trigger context_index ∷ []) h
          (new event.key, tt),
      All-modify_first (is_output event.key)
          (λ d. record d { temporarily_released = false; pressed_twice = true }) o.output_down
          (λ d. flags _ d) h,
      All-modify_first (is_output event.key)
          (λ d. record d { temporarily_released = false; pressed_twice = false }) o.output_down
          (λ d. flags _ d) h,
    )

    update_down-All :
        (event : KeyEvent) (o : Output)
        → All P o.output_down
        → All P (update_down event trigger context_index o).output_down
    unfolding update_down
    update_down-All event o h =
        let r : Reapplied = reapply event.key o.output_down o.output_buffer o.temporary_reapplied in
        let a : All P r.downs =
          reapply-All event.key o.output_down o.output_buffer o.temporary_reapplied h in
        if_rule (λ (o' : Output). All P o'.output_down) r.returned (λ _. a)
          (λ _. press_output-All event _ a)

    update_output_in-All :
        (state : KeyState) (event : KeyEvent) (o : Output)
        → All P o.output_down
        → All P (update_output_in state event trigger context_index o).output_down
    unfolding update_output_in
    update_output_in-All up event o h = found (find_if (is_output event.key) o.output_down)
      where
        found :
            (it : Option OutputDown)
            → All P (on_output it o (λ d. update_up event trigger d o)).output_down
        found none = h
        found (some d) = update_up-All event trigger d o h
    update_output_in-All not event o h = found (find_if (is_output event.key) o.output_down)
      where
        found :
            (it : Option OutputDown)
            → All P (on_output it o (λ d. update_not event d o)).output_down
        found none = h
        found (some d) = update_not-All event d o h
    update_output_in-All down event o h = update_down-All event o h
    update_output_in-All _ event o h = h

    update_output-All :
        (event : KeyEvent) (o : Output)
        → All P o.output_down
        → All P (update_output event trigger context_index o).output_down
    unfolding update_output
    update_output-All event o h = update_output_in-All event.state event o h

    module _ (sequence : KeySequence) (any_key_matches : List Key)
        (virtual_keys_toggle : Bool) where
      toggle_virtual_key-All :
          (event : KeyEvent) (o : Output)
          → All P o.output_down
          → All P
              (toggle_virtual_key sequence any_key_matches virtual_keys_toggle event trigger
                context_index o).output_down
      unfolding toggle_virtual_key
      toggle_virtual_key-All event o h = ground (
        arith,
        update_output-All event o h,
        update_output-All (key_event event.key up)
            (update_output (key_event event.key down) trigger context_index o)
            (update_output-All (key_event event.key down) o h),
      )

      update_outputs-All :
          (state : KeyState) (keys : List Key) (o : Output)
          → All P o.output_down
          → All P
              (update_outputs sequence any_key_matches virtual_keys_toggle state keys trigger
                context_index o).output_down
      unfolding update_outputs
      update_outputs-All state [] o h = h
      update_outputs-All state (key ∷ keys) o h =
          update_outputs-All state keys _ (update_output-All (key_event key state) o h)

      apply_event-All :
          (event : KeyEvent) (o : Output)
          → All P o.output_down
          → All P
              (apply_event sequence any_key_matches virtual_keys_toggle event trigger context_index
                o).output_down
      unfolding apply_event update_virtual_key
      apply_event-All event o h = ground (
        arith,
        update_outputs-All not (map (λ (d : OutputDown). d.key) o.output_down) o h,
        update_outputs-All event.state any_key_matches o h,
        toggle_virtual_key-All event o h,
        update_output-All event o h,
      )

      pub apply_output-All :
          (output : KeySequence) (o : Output)
          → All P o.output_down
          → All P
              (apply_output sequence any_key_matches virtual_keys_toggle output trigger
                context_index o).output_down
      unfolding apply_output
      apply_output-All [] o h = h
      apply_output-All (event ∷ rest) o h =
          if_rule (λ (o' : Output). All P o'.output_down)
            (splits sequence any_key_matches virtual_keys_toggle event trigger) (λ _. h)
            (λ _. apply_output-All rest _ (apply_event-All event o h))

-- After the release of a key no output is triggered by it.
pub release_triggered-All :
    (key : Key) (context_index : ℤ) (o : Output)
    → All
        (λ d. is_triggered key context_index d ≡ false)
        (release_triggered key context_index o).output_down
unfolding release_triggered
release_triggered-All key context_index o =
    remove_if-All (is_triggered key context_index) o.output_down
