-- ===== src/MultiStage/ServerEvents.antt =====
-- src/runtime/MultiStage.cpp: the events for the server on their way through the stages.
use keymapper.Prelude.{
  [], ℕ, ℤ, ◌+◌, ◌≤◌, ◌≡◌, Bool, true, false, ◌&&◌, List, ◌∷◌, arith, ◌==◌, if_rule, count_if,
  count_if-append,
}
use keymapper.KeyEvent.{KeyEvent, KeySequence, event_eq}
use keymapper.Stage.State.{Stage}
use keymapper.Stage.Apply
use keymapper.MultiStage.{
  MultiStage, update, is_server_event, update_stage, pass_event, pass_events, update_one,
  update_stages,
}

abbrev pub same_event : KeyEvent → KeyEvent → Bool
same_event a b = event_eq a b && a.value == b.value

-- How often an event stands in a sequence, with its value.
abbrev pub count : KeyEvent → KeySequence → ℕ
count e events = count_if (same_event e) events

update_stage-keeps :
    (now : ℕ) (device_index : ℤ) (e event : KeyEvent) (p : KeySequence × Stage)
    → count e p.0 ≤ count e (update_stage now device_index event p).0
unfolding update_stage
update_stage-keeps now device_index e event p = omega (arith, count_if-append (same_event e) p.0 _)

-- An event that is not for the server differs from one that is.
same_event-ne :
    (e event : KeyEvent)
    → is_server_event e ≡ true
    → is_server_event event ≡ false
    → same_event e event ≡ false
unfolding is_server_event
same_event-ne e event h n = ground arith

pass_event-keeps :
    (now : ℕ) (device_index : ℤ) (e event : KeyEvent) (p : KeySequence × Stage)
    → is_server_event e ≡ true
    → count e (event ∷ []) + count e p.0 ≤ count e (pass_event now device_index false event p).0
unfolding pass_event count_if
pass_event-keeps now device_index e event p h =
    if_rule (λ (r : KeySequence × Stage). count e (event ∷ []) + count e p.0 ≤ count e r.0)
      (is_server_event event) (λ _. omega (arith, count_if-append (same_event e) p.0 (event ∷ [])))
      λ n. ground (arith, same_event-ne e event h n, update_stage-keeps now device_index e event p)

pass_events-keeps :
    (now : ℕ) (device_index : ℤ) (e : KeyEvent) (events : KeySequence) (p : KeySequence × Stage)
    → is_server_event e ≡ true
    → count e events + count e p.0 ≤ count e (pass_events now device_index false events p).0
unfolding pass_events count_if
pass_events-keeps now device_index e [] p h = omega arith
pass_events-keeps now device_index e (event ∷ events) p h = omega (
  arith,
  pass_event-keeps now device_index e event p h,
  pass_events-keeps now device_index e events (pass_event now device_index false event p) h,
)

passes :
    (now : ℕ) (device_index : ℤ) (e : KeyEvent) (events : KeySequence) (p : KeySequence × Stage)
    → is_server_event e ≡ true
    → count e events ≤ count e (pass_events now device_index false events p).0
passes now device_index e events p h =
    omega (arith, pass_events-keeps now device_index e events p h)

update_one-keeps :
    (now : ℕ) (event : KeyEvent) (device_index : ℤ) (e : KeyEvent) (input : KeySequence) (s : Stage)
    → is_server_event e ≡ true
    → count e input ≤ count e (update_one now event device_index false input s).0
unfolding update_one
update_one-keeps now event device_index e input s h = passes now device_index e input _ h

update_stages-keeps :
    (now : ℕ) (event : KeyEvent) (device_index : ℤ) (e : KeyEvent) (stages : List Stage)
    (input : KeySequence)
    → is_server_event e ≡ true
    → count e input ≤ count e (update_stages now event device_index false stages input).0
unfolding update_stages
update_stages-keeps now event device_index e [] input h = omega arith
update_stages-keeps now event device_index e (s ∷ stages) input h = omega (
  arith,
  update_one-keeps now event device_index e input s h,
  update_stages-keeps now event device_index e stages
      (update_one now event device_index false input s).0 h,
)

first_stage :
    (now : ℕ) (event : KeyEvent) (device_index : ℤ) (s : Stage)
    → (update_one now event device_index true (event ∷ []) s).0
      ≡ (Apply.update now event device_index s).0
unfolding update_one pass_events pass_event update_stage
first_stage now event device_index s = ground arith

-- A server event that the first stage puts out is in the output of `MultiStage::update`, at least as
-- often, whatever stages follow. The buffer is empty before the update, as `reuse_buffer` leaves it.
pub update-keeps :
    (now : ℕ) (event : KeyEvent) (device_index : ℤ) (e : KeyEvent) (s : Stage) (m : MultiStage)
    (stages : List Stage)
    → m.stages ≡ s ∷ stages
    → m.output_buffer ≡ []
    → is_server_event e ≡ true
    → count e (Apply.update now event device_index s).0
      ≤ count e (update now event device_index m).0
unfolding update update_stages
update-keeps now event device_index e s m stages at empty h =
    rw (at, empty, first_stage now event device_index s)
      (update_stages-keeps now event device_index e stages (Apply.update now event device_index s).0
        h)
