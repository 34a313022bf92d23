-- ===== src/Stage/PassThrough.antt =====
-- src/runtime/Stage.cpp: events of keys that no context maps.
pub mod Idle
mod Press
mod Release
use keymapper.Prelude.{[], ◌≡◌, refl, false, List, ◌∷◌, ◌++◌, All, ℕ, ◌≢◌, ℤ, ◌∙◌}
use keymapper.Key
use keymapper.Key.{is_virtual_key, Key}
use keymapper.KeyEvent.{up, down, KeySequence, key_event}
use keymapper.Stage.Apply.{update}
use keymapper.Stage.State.{Stage}
use keymapper.Stage.PassThrough.Idle.{idle, IsIdle}
use keymapper.Stage.PassThrough.Press.{update-idle}
use keymapper.Stage.PassThrough.Release.{update-pressed}

-- The events of one device one after the other, and all outputs.
unfoldable pub update_all : ℕ → ℤ → KeySequence → Stage → KeySequence × Stage
update_all now d [] s = ([], s)
update_all now d (event ∷ events) s =
    let r = update now event d s in
    let rest = update_all now d events r.1 in (r.0 ++ rest.0, rest.1)

-- Each key is pressed and released.
abbrev pub taps : List Key → KeySequence
taps [] = []
taps (k ∷ ks) = key_event k down ∷ key_event k up ∷ taps ks

abbrev pub IsForwarded : Key → Type 0
IsForwarded k = (is_virtual_key k ≡ false) × (k ≢ Key.timeout)

tap-idle :
    (now : ℕ) (k : Key) (d : ℤ) (s : Stage) (events : KeySequence)
    → IsForwarded k
    → (s' : Stage) × (update_all now d (key_event k down ∷ key_event k up ∷ events) (idle s) ≡ (
      key_event k down ∷ key_event k up ∷ (update_all now d events (idle s')).0,
      (update_all now d events (idle s')).1,
    ))
unfolding update_all
tap-idle now k d s events f =
    let (s1, e1) = update-idle now k d s f.0 f.1 in
    let (s2, e2) = update-pressed now k d s1 f.0 in (s2, rw (e1, e2) refl)

taps-idle :
    (now : ℕ) (d : ℤ) (ks : List Key) (s : Stage)
    → All IsForwarded ks
    → (s' : Stage) × (update_all now d (taps ks) (idle s) ≡ (taps ks, idle s'))
unfolding update_all
taps-idle now d [] s h = (s, refl)
taps-idle now d (k ∷ ks) s h =
    let (s1, e1) = tap-idle now k d s (taps ks) h.0 in
    let (s2, e2) = taps-idle now d ks s1 h.1 in (s2, e1 ∙ rw e2 refl)

-- Where no context is active, nothing is held or awaited and no mapping looks back, any sequence of
-- taps of keys other than virtual keys and the mark for timeouts comes out as it went in, event for
-- event, and the stage is as idle after it.
pub update_all-taps :
    (now : ℕ) (d : ℤ) (ks : List Key) (s : Stage)
    → IsIdle s
    → All IsForwarded ks
    → ((update_all now d (taps ks) s).0 ≡ taps ks) × IsIdle (update_all now d (taps ks) s).1
update_all-taps now d ks s i h = let (s', e) = taps-idle now d ks s h in rw i (rw e (refl, refl))
