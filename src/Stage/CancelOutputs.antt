-- ===== src/Stage/CancelOutputs.antt =====
-- src/runtime/Stage.cpp: the outputs that wait for a release, when other contexts become active.
use keymapper.Prelude.{
  ℕ, zero, suc, ℤ, pos, ◌≡◌, refl, ◌∙◌, ap, Bool, true, false, ◌||◌, List, [], ◌∷◌, Option, none,
  some, ◌==◌, negate, if_rule, option_rule, All, All-imp, remove_if-All, find_if, remove_if,
  remove_first, push, arith,
}
use keymapper.Key
use keymapper.Key.{Key}
use keymapper.KeyEvent.{down, state_eq, KeyEvent, KeySequence}
use keymapper.Stage.State.{by_event, OutputOnRelease, Output, OutputRef, Stage}
use keymapper.Stage.Sequences.{get_trigger_event, get_trigger_key}
use keymapper.Stage.Outputs.{
  apply_event, apply_output, splits, is_released_by, continue_loop, continue_output_on_release,
  release_triggered,
}
use keymapper.Stage.Contexts.{
  apply_found, context_at, context_down, context_up, find_output, is_context_active,
  cancel_inactive_output_on_release, on_context_active_event, set_active_client_contexts,
  starts_with_context_active, toggle_contexts, update_active_contexts,
}
use keymapper.Stage.OnRelease.{Ignores, apply_event-Ignores}

-- The output waits for a context to become inactive, and for no key.
abbrev pub waits_for_context : OutputOnRelease → Bool
waits_for_context r = r.trigger == Key.context_active

-- The outputs that wait for keys.
abbrev for_keys : Output → List OutputOnRelease
for_keys o = remove_if waits_for_context o.output_on_release

abbrev SameForKeys : Output → Output → Type 0
SameForKeys o o' = for_keys o' ≡ for_keys o

remove_if-push :
    (p : OutputOnRelease → Bool) (rs : List OutputOnRelease) (r : OutputOnRelease)
    → p r ≡ true
    → remove_if p (push rs r) ≡ remove_if p rs
unfolding remove_if
remove_if-push p [] r h = ground (arith, h)
remove_if-push p (x ∷ rs) r h = ground (arith, remove_if-push p rs r h)

-- An entry is erased that the filter takes out as well.
remove_if-remove_first :
    (p q : OutputOnRelease → Bool) (rs : List OutputOnRelease)
    → ((r : OutputOnRelease) → q r ≡ true → p r ≡ true)
    → remove_if p (remove_first q rs) ≡ remove_if p rs
unfolding remove_if remove_first
remove_if-remove_first p q [] h = refl
remove_if-remove_first p q (r ∷ rs) h =
    if_rule (λ (x : List OutputOnRelease). remove_if p x ≡ remove_if p (r ∷ rs)) (q r)
      (λ erased. ground (arith, h r erased)) (λ _. ground (arith, remove_if-remove_first p q rs h))

remove_if-remove_if :
    (p q : OutputOnRelease → Bool) (rs : List OutputOnRelease)
    → remove_if p (remove_if q rs) ≡ remove_if (λ r. p r || q r) rs
unfolding remove_if
remove_if-remove_if p q [] = refl
remove_if-remove_if p q (r ∷ rs) = ground (arith, remove_if-remove_if p q rs)

remove_if-swap :
    (p q : OutputOnRelease → Bool) (rs : List OutputOnRelease)
    → remove_if (λ r. p r || q r) rs ≡ remove_if q (remove_if p rs)
unfolding remove_if
remove_if-swap p q [] = refl
remove_if-swap p q (r ∷ rs) = ground (arith, remove_if-swap p q rs)

Ignores-same :
    (f : Output → Output) (o : Output) → Ignores f → (f o).output_on_release ≡ o.output_on_release
Ignores-same f o h = ap (λ (x : Output). x.output_on_release) (h o.output_on_release o)

module _ (sequence : KeySequence) (matches : List Key) (toggle : Bool) (event : KeyEvent)
    (mark : event.key ≡ Key.context_active) where
  apply_output-SameForKeys :
      (output : KeySequence) (context_index : ℤ) (o : Output)
      → SameForKeys o (apply_output sequence matches toggle output (by_event event) context_index o)
  unfolding apply_output get_trigger_key get_trigger_event
  apply_output-SameForKeys [] context_index o = refl
  apply_output-SameForKeys (e ∷ output) context_index o =
      if_rule (SameForKeys o) (splits sequence matches toggle e (by_event event))
        (λ _. remove_if-push waits_for_context o.output_on_release _ (ground (arith, mark)))
        (λ _.
          apply_output-SameForKeys output context_index
            (apply_event sequence matches toggle e (by_event event) context_index o)
          ∙ ap (remove_if waits_for_context) (
              Ignores-same (apply_event sequence matches toggle e (by_event event) context_index) o
                (apply_event-Ignores sequence matches toggle e (by_event event) context_index)))

  released_mark :
      (context_index : ℤ) (r : OutputOnRelease)
      → is_released_by sequence matches toggle event context_index r ≡ true
      → waits_for_context r ≡ true
  released_mark context_index r h = ground (arith, h, mark)

  continue_loop-SameForKeys :
      (fuel : ℕ) (context_index : ℤ) (o : Output)
      → SameForKeys o (continue_loop sequence matches toggle fuel event context_index o).0
  unfolding continue_loop
  continue_loop-SameForKeys zero context_index o = refl
  continue_loop-SameForKeys (suc fuel) context_index o =
      option_rule (λ (x : Output × Bool). SameForKeys o x.0)
        (find_if (is_released_by sequence matches toggle event context_index) o.output_on_release)
        (λ _. refl)
        λ r _.
          if_rule (λ (x : Output × Bool). SameForKeys o x.0) (state_eq event.state down) (λ _. refl)
            λ _.
              continue_loop-SameForKeys fuel context_index _
              ∙ remove_if-remove_first waits_for_context
                  (is_released_by sequence matches toggle event context_index)
                  (apply_output sequence matches toggle r.sequence (by_event event) r.context_index
                    o).output_on_release
                  (released_mark context_index)
              ∙ apply_output-SameForKeys r.sequence r.context_index o

module _ (s : Stage) (event : KeyEvent) (mark : event.key ≡ Key.context_active) where
  apply_found-SameForKeys :
      (ref : Option OutputRef) (context : ℕ) (o : Output)
      → SameForKeys o (apply_found s ref event context o)
  apply_found-SameForKeys none context o = refl
  apply_found-SameForKeys (some ref) context o =
      apply_output-SameForKeys s.sequence s.any_key_matches s.virtual_keys_toggle event mark
        ref.sequence (pos context) o

  on_context_active_event-SameForKeys :
      (context : ℕ) (o : Output) → SameForKeys o (on_context_active_event s event context o)
  unfolding on_context_active_event continue_output_on_release release_triggered
  on_context_active_event-SameForKeys context o =
      option_rule (SameForKeys o)
        (find_if starts_with_context_active (context_at s.contexts context).inputs) (λ _. refl)
        λ input _.
          if_rule (SameForKeys o) (state_eq event.state down)
            (λ _. apply_found-SameForKeys (find_output s context input.output_index) context o)
            λ _.
              continue_loop-SameForKeys s.sequence s.any_key_matches s.virtual_keys_toggle event
                mark _ (pos context) o

  toggle_contexts-SameForKeys :
      (contexts : List ℕ) (o : Output) → SameForKeys o (toggle_contexts s event contexts o)
  unfolding toggle_contexts
  toggle_contexts-SameForKeys [] o = refl
  toggle_contexts-SameForKeys (context ∷ contexts) o =
      toggle_contexts-SameForKeys contexts (on_context_active_event s event context o)
      ∙ on_context_active_event-SameForKeys context o

update_active_contexts-SameForKeys : (s : Stage) → SameForKeys s.out (update_active_contexts s).out
unfolding update_active_contexts
update_active_contexts-SameForKeys s =
    toggle_contexts-SameForKeys _ context_down refl _ _
    ∙ toggle_contexts-SameForKeys _ context_up refl _ s.out

negated : (b : Bool) → negate b ≡ false → b ≡ true
negated b h = ground arith

-- After `Stage::set_active_client_contexts` every output that waits for a release belongs to a context
-- that is active. Of the outputs that wait for the release of a key, exactly those wait that did before
-- and belong to such a context, in the same order.
pub set_active_client_contexts-cancels :
    (indices : List ℕ) (s : Stage)
    → All
        (λ (r : OutputOnRelease).
          is_context_active (set_active_client_contexts indices s).1 r.context_index ≡ true)
        (set_active_client_contexts indices s).1.out.output_on_release
      × (remove_if waits_for_context (set_active_client_contexts indices s).1.out.output_on_release
          ≡ remove_if
              (λ (r : OutputOnRelease).
                negate (is_context_active (set_active_client_contexts indices s).1 r.context_index)
                || waits_for_context r)
              s.out.output_on_release)
unfolding set_active_client_contexts cancel_inactive_output_on_release is_context_active
set_active_client_contexts-cancels indices s =
    let started : Stage = record s { active_client_contexts = indices } in
    let s' : Stage = update_active_contexts started in
    let inactive : OutputOnRelease → Bool = λ r. negate (is_context_active s' r.context_index) in
    (
      All-imp (λ (r : OutputOnRelease) kept. negated (is_context_active s' r.context_index) kept) _
          (remove_if-All inactive s'.out.output_on_release),
      remove_if-remove_if waits_for_context inactive s'.out.output_on_release
          ∙ remove_if-swap waits_for_context inactive s'.out.output_on_release
          ∙ ap (remove_if inactive) (update_active_contexts-SameForKeys started)
          ∙ remove_if-remove_if inactive waits_for_context s.out.output_on_release,
    )
