-- ===== src/Stage/OnRelease.antt =====
-- src/runtime/Stage.cpp: the outputs that wait for the release of a key.
use keymapper.Prelude.{
  [], ℕ, zero, suc, ℤ, ◌<◌, ◌≡◌, refl, Bool, true, false, List, ◌∷◌, Option, none, some, map, arith,
  if_rule, if◌then◌else◌, Bool-cases, inl, inr, option_rule, find_if, remove_if, remove_first,
  length, subst, sym, ◌∙◌, ap,
}
use keymapper.Key.{Key}
use keymapper.KeyEvent.{KeyState, up, down, not, state_eq, KeyEvent, KeySequence, key_event}
use keymapper.Stage.State.{Trigger, by_event, OutputDown, OutputOnRelease, Output}
use keymapper.Stage.Sequences.{get_trigger_event}
use keymapper.Stage.Outputs.{
  is_output, on_output, reapply, update_up, update_not, press_output, update_down, update_output_in,
  update_output, toggle_virtual_key, update_virtual_key, update_outputs, apply_event, apply_output,
  splits, is_released_by, continue_loop, continue_output_on_release,
}

-- The output with other outputs that wait.
abbrev pub waiting : List OutputOnRelease → Output → Output
waiting rs o = record o { output_on_release = rs }

-- What waits changes nothing else, and stays as it is.
abbrev pub Ignores : (Output → Output) → Type 0
Ignores f = (rs : List OutputOnRelease) (o : Output) → f (waiting rs o) ≡ waiting rs (f o)

press_output-Ignores :
    (event : KeyEvent) (trigger : Trigger) (context_index : ℤ)
    → Ignores (press_output event trigger context_index)
unfolding press_output
press_output-Ignores event trigger context_index rs o = ground arith

update_down-Ignores :
    (event : KeyEvent) (trigger : Trigger) (context_index : ℤ)
    → Ignores (update_down event trigger context_index)
unfolding update_down
update_down-Ignores event trigger context_index rs o =
    let r = reapply event.key o.output_down o.output_buffer o.temporary_reapplied in
    ground (
      arith,
      press_output-Ignores event trigger context_index rs (record o {
        output_down = r.downs;
        output_buffer = r.buffer;
        temporary_reapplied = r.reapplied;
      }),
    )

update_up-Ignores :
    (event : KeyEvent) (trigger : Trigger) (it : OutputDown) → Ignores (update_up event trigger it)
unfolding update_up
update_up-Ignores event trigger it rs o = ground arith

update_not-Ignores : (event : KeyEvent) (it : OutputDown) → Ignores (update_not event it)
unfolding update_not
update_not-Ignores event it rs o = ground arith

on_output-Ignores :
    (it : Option OutputDown) (f : OutputDown → Output → Output)
    → ((d : OutputDown) → Ignores (f d))
    → Ignores (λ o. on_output it o (λ d. f d o))
on_output-Ignores none f h rs o = refl
on_output-Ignores (some d) f h rs o = h d rs o

update_output_in-Ignores :
    (state : KeyState) (event : KeyEvent) (trigger : Trigger) (context_index : ℤ)
    → Ignores (update_output_in state event trigger context_index)
unfolding update_output_in
update_output_in-Ignores up event trigger context_index rs o =
    on_output-Ignores (find_if (is_output event.key) o.output_down) (update_up event trigger)
      (update_up-Ignores event trigger) rs o
update_output_in-Ignores not event trigger context_index rs o =
    on_output-Ignores (find_if (is_output event.key) o.output_down) (update_not event)
      (update_not-Ignores event) rs o
update_output_in-Ignores down event trigger context_index rs o =
    update_down-Ignores event trigger context_index rs o
update_output_in-Ignores _ event trigger context_index rs o = refl

update_output-Ignores :
    (event : KeyEvent) (trigger : Trigger) (context_index : ℤ)
    → Ignores (update_output event trigger context_index)
unfolding update_output
update_output-Ignores event = update_output_in-Ignores event.state event

module _ (sequence : KeySequence) (any_key_matches : List Key) (virtual_keys_toggle : Bool) where
  toggle_virtual_key-Ignores :
      (event : KeyEvent) (trigger : Trigger) (context_index : ℤ)
      → Ignores (
          toggle_virtual_key sequence any_key_matches virtual_keys_toggle event trigger
            context_index)
  unfolding toggle_virtual_key
  toggle_virtual_key-Ignores event trigger context_index rs o = ground (
    arith,
    update_output-Ignores event trigger context_index rs o,
    update_output-Ignores (key_event event.key down) trigger context_index rs o,
    update_output-Ignores (key_event event.key up) trigger context_index rs
        (update_output (key_event event.key down) trigger context_index o),
  )

  update_outputs-Ignores :
      (state : KeyState) (keys : List Key) (trigger : Trigger) (context_index : ℤ)
      → Ignores (
          update_outputs sequence any_key_matches virtual_keys_toggle state keys trigger
            context_index)
  unfolding update_outputs
  update_outputs-Ignores state [] trigger context_index rs o = refl
  update_outputs-Ignores state (key ∷ keys) trigger context_index rs o =
      ap
        (update_outputs sequence any_key_matches virtual_keys_toggle state keys trigger
          context_index)
        (update_output-Ignores (key_event key state) trigger context_index rs o)
      ∙ update_outputs-Ignores state keys trigger context_index rs
          (update_output (key_event key state) trigger context_index o)

  pub apply_event-Ignores :
      (event : KeyEvent) (trigger : Trigger) (context_index : ℤ)
      → Ignores
          (apply_event sequence any_key_matches virtual_keys_toggle event trigger context_index)
  unfolding apply_event update_virtual_key
  apply_event-Ignores event trigger context_index rs o = ground (
    arith,
    update_output-Ignores event trigger context_index rs o,
    toggle_virtual_key-Ignores event trigger context_index rs o,
    update_outputs-Ignores event.state any_key_matches trigger context_index rs o,
    update_outputs-Ignores not (map (λ (d : OutputDown). d.key) o.output_down) trigger context_index
        rs o,
  )

  -- An output whose trigger is a release is not split.
  apply_output-whole :
      (e : KeyEvent) (output : KeySequence) (event : KeyEvent) (context_index : ℤ) (o : Output)
      → state_eq event.state down ≡ false
      → apply_output sequence any_key_matches virtual_keys_toggle
          (e ∷ output)
          (by_event event)
          context_index
          o
        ≡ apply_output sequence any_key_matches virtual_keys_toggle output
            (by_event event)
            context_index
            (apply_event sequence any_key_matches virtual_keys_toggle e
              (by_event event)
              context_index
              o)
  unfolding apply_output get_trigger_event
  apply_output-whole e output event context_index o h =
      if_rule
        (λ (x : Output).
          x
          ≡ apply_output sequence any_key_matches virtual_keys_toggle output (by_event event)
              context_index
              (apply_event sequence any_key_matches virtual_keys_toggle e (by_event event)
                context_index o))
        (splits sequence any_key_matches virtual_keys_toggle e (by_event event))
        (λ split. ground (arith, split, h)) (λ _. refl)

  -- Nothing more waits.
  apply_output-Ignores :
      (output : KeySequence) (event : KeyEvent) (context_index : ℤ)
      → state_eq event.state down ≡ false
      → Ignores (
          apply_output sequence any_key_matches virtual_keys_toggle output
            (by_event event)
            context_index)
  unfolding apply_output
  apply_output-Ignores [] event context_index h rs o = refl
  apply_output-Ignores (e ∷ output) event context_index h rs o =
      apply_output-whole e output event context_index (waiting rs o) h
      ∙ ap
          (apply_output sequence any_key_matches virtual_keys_toggle output (by_event event)
            context_index)
          (apply_event-Ignores e (by_event event) context_index rs o)
      ∙ apply_output-Ignores output event context_index h rs (
          apply_event sequence any_key_matches virtual_keys_toggle e (by_event event) context_index
            o)
      ∙ ap (waiting rs) (sym (apply_output-whole e output event context_index o h))

remove_if-remove_first :
    (p : OutputOnRelease → Bool) (rs : List OutputOnRelease)
    → remove_if p (remove_first p rs) ≡ remove_if p rs
unfolding remove_if remove_first
remove_if-remove_first p [] = refl
remove_if-remove_first p (r ∷ rs) = ground (arith, remove_if-remove_first p rs)

remove_if-none :
    (p : OutputOnRelease → Bool) (rs : List OutputOnRelease)
    → find_if p rs ≡ none
    → remove_if p rs ≡ rs
unfolding remove_if find_if
remove_if-none p [] h = refl
remove_if-none p (r ∷ rs) h = ground (arith, remove_if-none p rs)

length-remove_first :
    (p : OutputOnRelease → Bool) (rs : List OutputOnRelease) (r : OutputOnRelease)
    → find_if p rs ≡ some r
    → length (remove_first p rs) < length rs
unfolding remove_first find_if
length-remove_first p [] r h = cc
length-remove_first p (x ∷ rs) r h = ground (arith, length-remove_first p rs r)

-- What an operation does for each entry that a test accepts, in order.
abbrev pub apply_where :
    (OutputOnRelease → Bool)
    → (OutputOnRelease → Output → Output)
    → List OutputOnRelease
    → Output
    → Output
apply_where p f [] o = o
apply_where p f (r ∷ rs) o = apply_where p f rs (if p r then f r o else o)

apply_where-refused :
    (p : OutputOnRelease → Bool) (f : OutputOnRelease → Output → Output) (r : OutputOnRelease)
    (rs : List OutputOnRelease) (o : Output)
    → p r ≡ false
    → apply_where p f (r ∷ rs) o ≡ apply_where p f rs o
apply_where-refused p f r rs o h = ap (λ (b : Bool). apply_where p f rs (if b then f r o else o)) h

apply_where-none :
    (p : OutputOnRelease → Bool) (f : OutputOnRelease → Output → Output) (rs : List OutputOnRelease)
    (o : Output)
    → find_if p rs ≡ none
    → apply_where p f rs o ≡ o
unfolding find_if
apply_where-none p f [] o h = refl
apply_where-none p f (r ∷ rs) o h = ground (arith, apply_where-none p f rs o)

apply_where-first :
    (p : OutputOnRelease → Bool) (f : OutputOnRelease → Output → Output) (rs : List OutputOnRelease)
    (r : OutputOnRelease) (o : Output)
    → find_if p rs ≡ some r
    → apply_where p f (remove_first p rs) (f r o) ≡ apply_where p f rs o
unfolding find_if remove_first
apply_where-first p f [] r o h = cc
apply_where-first p f (x ∷ rs) r o h = elim (Bool-cases (p x)) [
  | inl accepted ↦ found accepted h
  | inr refused ↦ later refused h (apply_where-first p f rs r o)
]
  where
    found :
        p x ≡ true
        → find_if p (x ∷ rs) ≡ some r
        → apply_where p f (remove_first p (x ∷ rs)) (f r o) ≡ apply_where p f (x ∷ rs) o
    found accepted e = ground (arith, accepted, e)

    kept : p x ≡ false → remove_first p (x ∷ rs) ≡ x ∷ remove_first p rs
    kept refused = ground (arith, refused)

    later :
        p x ≡ false
        → find_if p (x ∷ rs) ≡ some r
        → (find_if p rs ≡ some r
            → apply_where p f (remove_first p rs) (f r o) ≡ apply_where p f rs o)
        → apply_where p f (remove_first p (x ∷ rs)) (f r o) ≡ apply_where p f (x ∷ rs) o
    later refused e behind =
        ap (λ (l : List OutputOnRelease). apply_where p f l (f r o)) (kept refused)
        ∙ apply_where-refused p f x (remove_first p rs) (f r o) refused
        ∙ behind (subst (λ (b : Bool). (if b then some x else find_if p rs) ≡ some r) refused e)
        ∙ sym (apply_where-refused p f x rs o refused)

module _ (sequence : KeySequence) (any_key_matches : List Key) (virtual_keys_toggle : Bool)
    (event : KeyEvent) (context_index : ℤ) where
  abbrev waits_for : OutputOnRelease → Bool
  waits_for = is_released_by sequence any_key_matches virtual_keys_toggle event context_index

  abbrev pub apply_one : OutputOnRelease → Output → Output
  apply_one r =
      apply_output sequence any_key_matches virtual_keys_toggle r.sequence (by_event event)
        r.context_index

  abbrev Continued : Output → List OutputOnRelease → Output × Bool → Type 0
  Continued o rs r =
      r ≡ (waiting (remove_if waits_for rs) (apply_where waits_for apply_one rs o), true)

  continue_loop-Continued :
      (fuel : ℕ) (o : Output) (rs : List OutputOnRelease)
      → length rs < fuel
      → state_eq event.state down ≡ false
      → Continued o rs (
          continue_loop sequence any_key_matches virtual_keys_toggle fuel event context_index
            (waiting rs o))
  unfolding continue_loop
  continue_loop-Continued zero o rs l h = ground arith
  continue_loop-Continued (suc fuel) o rs l h =
      option_rule (Continued o rs) (find_if waits_for rs)
        (λ missing.
          ap (λ (x : List OutputOnRelease). (waiting x o, true))
            (sym (remove_if-none waits_for rs missing))
          ∙ ap (λ (x : Output). (waiting (remove_if waits_for rs) x, true))
              (sym (apply_where-none waits_for apply_one rs o missing)))
        λ r found.
          if_rule (Continued o rs) (state_eq event.state down) (λ d. ground (arith, d, h))
            λ _.
              ap
                (λ (x : Output).
                  continue_loop sequence any_key_matches virtual_keys_toggle fuel event
                    context_index (waiting (remove_first waits_for x.output_on_release) x))
                (apply_output-Ignores sequence any_key_matches virtual_keys_toggle r.sequence event
                  r.context_index h rs o)
              ∙ continue_loop-Continued fuel (apply_one r o) (remove_first waits_for rs)
                  (omega (arith, length-remove_first waits_for rs r found)) h
              ∙ ap
                  (λ (x : List OutputOnRelease). (
                    waiting x (
                        apply_where waits_for apply_one (remove_first waits_for rs)
                          (apply_one r o)),
                    true,
                  ))
                  (remove_if-remove_first waits_for rs)
              ∙ ap (λ (x : Output). (waiting (remove_if waits_for rs) x, true))
                  (apply_where-first waits_for apply_one rs r o found)

-- At an event that is not a press, every output that waits for it goes out, in the order in which they
-- wait, and no longer waits. What waits for other keys still does, in order, and the event is processed
-- further.
pub continue_output_on_release-Continued :
    (sequence : KeySequence) (any_key_matches : List Key) (virtual_keys_toggle : Bool)
    (event : KeyEvent) (context_index : ℤ) (o : Output)
    → state_eq event.state down ≡ false
    → continue_output_on_release sequence any_key_matches virtual_keys_toggle event context_index o
      ≡ (
        waiting
            (remove_if
              (is_released_by sequence any_key_matches virtual_keys_toggle event context_index)
              o.output_on_release)
            (apply_where
              (is_released_by sequence any_key_matches virtual_keys_toggle event context_index)
              (λ (r : OutputOnRelease).
                apply_output sequence any_key_matches virtual_keys_toggle r.sequence
                  (by_event event)
                  r.context_index)
              o.output_on_release
              o),
        true,
      )
unfolding continue_output_on_release
continue_output_on_release-Continued sequence any_key_matches virtual_keys_toggle event
      context_index o h =
    continue_loop-Continued sequence any_key_matches virtual_keys_toggle event context_index
      (suc (length o.output_on_release)) o o.output_on_release (omega arith) h
