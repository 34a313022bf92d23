-- ===== src/Stage/Requests.antt =====
-- src/runtime/Stage.cpp: the operations of a stage as requests, one after the other.
use keymapper.Prelude.{[], ℕ, ℤ, Bool, List, ◌∷◌, remove_if}
use keymapper.Key.{Key}
use keymapper.KeyEvent.{KeyEvent}
use keymapper.Stage.State.{Trigger, OutputDown, Output, Stage}
use keymapper.Stage.Outputs.{update_output}
use keymapper.Stage.Setup.{DeviceDesc, evaluate_device_filters}
use keymapper.Stage.History.{set_history_timing}
use keymapper.Stage.Contexts.{set_active_client_contexts}
use keymapper.Stage.Apply.{reset_suppressed, update}
use keymapper.Stage.Validate.{validate_state}
use keymapper.Stage.Invariant

-- What the client and the devices ask of a stage.
pub data Request : Type 0 where
  key_input : ℕ → KeyEvent → ℤ → Request
  client_contexts : List ℕ → Request
  validation : ℕ → (Key → Bool) → Request
  device_filters : List DeviceDesc → Request
  history_timing : ℕ → Request
  virtual_keys_toggle : Bool → Request

unfoldable pub serve : Request → Stage → Stage
serve (key_input now event device_index) s = (update now event device_index s).1
serve (client_contexts indices) s = (set_active_client_contexts indices s).1
serve (validation now is_down) s = validate_state now is_down s
serve (device_filters devices) s = evaluate_device_filters devices s
serve (history_timing timeout) s = set_history_timing timeout s
serve (virtual_keys_toggle set) s = record s { virtual_keys_toggle = set }

unfoldable pub serve_all : List Request → Stage → Stage
serve_all [] s = s
serve_all (r ∷ rs) s = serve_all rs (serve r s)

module _ (J : List OutputDown → Type 0)
    (updated : (event : KeyEvent) (trigger : Trigger) (context_index : ℤ) (o : Output)
      → J o.output_down
      → J (update_output event trigger context_index o).output_down)
    (removed : (p : OutputDown → Bool) (ds : List OutputDown) → J ds → J (remove_if p ds))
    (reset : (ds : List OutputDown) → J ds → J (reset_suppressed ds)) where
  pub serve_all-Holds :
      (rs : List Request) (s : Stage) → J s.out.output_down → J (serve_all rs s).out.output_down
  unfolding serve_all serve
  serve_all-Holds [] s h = h
  serve_all-Holds (key_input now event device_index ∷ rs) s h =
      serve_all-Holds rs _
        (Invariant.update-Holds J updated removed reset now event device_index s h)
  serve_all-Holds (client_contexts indices ∷ rs) s h =
      serve_all-Holds rs _
        (Invariant.set_active_client_contexts-Holds J updated removed reset indices s h)
  serve_all-Holds (validation now is_down ∷ rs) s h =
      serve_all-Holds rs _ (Invariant.validate_state-Holds J updated removed reset now is_down s h)
  serve_all-Holds (device_filters devices ∷ rs) s h =
      serve_all-Holds rs _ (unfold evaluate_device_filters in h)
  serve_all-Holds (history_timing timeout ∷ rs) s h =
      serve_all-Holds rs _ (unfold set_history_timing in h)
  serve_all-Holds (virtual_keys_toggle set ∷ rs) s h = serve_all-Holds rs _ h
