-- ===== src/Stage/ExitSequence.antt =====
-- src/runtime/Stage.cpp: `advance_exit_sequence` and `should_exit` over many events.
use keymapper.Prelude.{ℕ, zero, suc, ℤ, ◌≡◌, refl, ◌∙◌, ◌++◌, ap, true, [], ◌∷◌, arith, ◌==◌}
use keymapper.Key
use keymapper.Key.{Key, is_keyboard_key, is_mouse_button, is_mouse_wheel}
use keymapper.KeyEvent.{up, down, KeyEvent, KeySequence, key_event}
use keymapper.Stage.State.{Stage}
use keymapper.Stage.Apply.{advance_position, advance_exit_sequence, should_exit, update}
use keymapper.Stage.Frame.{apply_input-Frame}
use keymapper.Stage.PassThrough.{update_all}

update-position :
    (now : ℕ) (event : KeyEvent) (d : ℤ) (s : Stage)
    → (update now event d s).1.exit_sequence_position
      ≡ advance_position event s.exit_sequence_position
unfolding update advance_exit_sequence
update-position now event d s = ((apply_input-Frame now event d _).1).1

-- The position after all events.
abbrev pub position_after : KeySequence → ℕ → ℕ
position_after [] p = p
position_after (event ∷ events) p = position_after events (advance_position event p)

update_all-position :
    (now : ℕ) (d : ℤ) (events : KeySequence) (s : Stage)
    → (update_all now d events s).1.exit_sequence_position
      ≡ position_after events s.exit_sequence_position
unfolding update_all
update_all-position now d [] s = refl
update_all-position now d (event ∷ events) s =
    update_all-position now d events (update now event d s).1
    ∙ ap (position_after events) (update-position now event d s)

abbrev pub presses : Key → ℕ → KeySequence
presses k zero = []
presses k (suc n) = key_event k down ∷ presses k n

restarts : (k : Key) (p : ℕ) → is_keyboard_key k ≡ true → advance_position (key_event k up) p ≡ 0
unfolding advance_position
restarts k p h = ground arith

position_after-append :
    (xs ys : KeySequence) (p : ℕ)
    → position_after (xs ++ ys) p ≡ position_after ys (position_after xs p)
position_after-append [] ys p = refl
position_after-append (x ∷ xs) ys p = position_after-append xs ys (advance_position x p)

-- Repeats of the key before the position do not count.
repeats :
    (k : Key) (n p : ℕ)
    → advance_position (key_event k down) p ≡ p
    → position_after (presses k n) p ≡ p
repeats k zero p h = refl
repeats k (suc n) p h = ap (position_after (presses k n)) h ∙ repeats k n p h

-- The presses of Shift, Escape and K, the first two with repeats.
abbrev pub exit_presses : ℕ → ℕ → KeySequence
exit_presses m n =
    presses Key.shift_left (suc m) ++ (presses Key.escape (suc n) ++ presses Key.key_k 1)

exit_presses-position : (m n : ℕ) → position_after (exit_presses m n) 0 ≡ 3
unfolding advance_position is_keyboard_key is_mouse_button is_mouse_wheel
exit_presses-position m n =
    rw
      (
        position_after-append (presses Key.shift_left m)
            (presses Key.escape (suc n) ++ presses Key.key_k 1) 1,
        repeats Key.shift_left m 1 refl,
        position_after-append (presses Key.escape n) (presses Key.key_k 1) 2,
        repeats Key.escape n 2 refl,
      )
      refl

-- Whatever came before, the release of a key of the keyboard and then the presses of Shift, Escape
-- and K, with any number of repeats of Shift and of Escape, make the stage ask for the exit,
-- whatever its contexts map these keys to.
pub should_exit-exit_presses :
    (now : ℕ) (d : ℤ) (k : Key) (m n : ℕ) (before : KeySequence) (s : Stage)
    → is_keyboard_key k ≡ true
    → should_exit (update_all now d (before ++ (key_event k up ∷ exit_presses m n)) s).1 ≡ true
unfolding should_exit
should_exit-exit_presses now d k m n before s h =
    let p : ℕ = position_after before s.exit_sequence_position in
    ap (λ (q : ℕ). q == 3)
      (update_all-position now d (before ++ (key_event k up ∷ exit_presses m n)) s
        ∙ position_after-append before (key_event k up ∷ exit_presses m n) s.exit_sequence_position
        ∙ ap (position_after (exit_presses m n)) (restarts k p h)
        ∙ exit_presses-position m n)
