-- ===== src/ServerState/Requests.antt =====
-- src/server/ServerState.cpp: the messages of the client and the accessors.
use Prim.Native.String.{String}
use text.Mathlib.Text.{◌==◌ as str_eq}
use keymapper.Prelude.{
  ℕ, Bool, true, false, ◌&&◌, ◌||◌, List, Option, none, some, map, if◌then◌else◌, negate, is_empty,
  any, foldl,
}
use keymapper.Key.{Key, is_device_key}
use keymapper.KeyEvent.{KeyState, up, down, KeyEvent, KeySequence, state_eq}
use keymapper.Stage.State.{Stage, no_device_index}
use keymapper.MultiStage
use keymapper.MultiStage.{MultiStage}
use keymapper.ServerState.State.{
  ServerState, Platform, release_all_keys, send_key_sequence, schedule_flush, set_active_contexts,
  reset_configuration, flush_unless_scheduled,
}
use keymapper.ServerState.Input.{translate_input, set_virtual_key_state}
use keymapper.ServerState.Flush.{flush}

unfoldable pub has_configuration : ServerState → Bool
has_configuration s = negate (is_empty s.stage.stages)

unfoldable pub has_active_client_context : ServerState → Bool
has_active_client_context s = negate (is_empty s.stage.active_client_contexts)

abbrev disable_toggle : Stage → Stage
disable_toggle stage = record stage { virtual_keys_toggle = false }

unfoldable pub on_directives_message : List String → ServerState → ServerState
on_directives_message directives s =
    if any (λ (directive : String). str_eq directive "disable-virtual-keys-toggle") directives
    then record s { stage = record s.stage { stages = map disable_toggle s.stage.stages } }
    else s

unfoldable pub on_request_next_key_info_message : ServerState → ServerState
on_request_next_key_info_message s = record (release_all_keys s) { next_key_info_requested = true }

module _ (platform : Platform) (now : ℕ) where
  -- Without stages an error is put out.
  unfoldable pub on_configuration_message : Option MultiStage → ServerState → ServerState
  on_configuration_message none s = s
  on_configuration_message (some stage) s =
      reset_configuration now (flush platform now) (some stage) s

  unfoldable pub on_active_contexts_message : List ℕ → ServerState → ServerState
  on_active_contexts_message = set_active_contexts now (flush platform now)

  unfoldable pub on_set_virtual_key_state_message : Key → KeyState → ServerState → ServerState
  on_set_virtual_key_state_message key state s =
      flush_unless_scheduled now (flush platform now)
        (set_virtual_key_state platform now (flush platform now) key state s)

  unfoldable pub on_validate_state_message : ServerState → ServerState
  on_validate_state_message s = record s {
    stage = MultiStage.validate_state now platform.on_validate_key_is_down s.stage;
  }

  abbrev pub inject : ServerState → KeyEvent → ServerState
  inject s event =
      if (state_eq event.state up || state_eq event.state down) && is_device_key event.key
      then translate_input platform now (flush platform now) event no_device_index s
      else s

  unfoldable pub on_inject_input_message : KeySequence → ServerState → ServerState
  on_inject_input_message sequence s = schedule_flush now 0 (foldl inject s sequence)

  unfoldable pub on_inject_output_message : KeySequence → ServerState → ServerState
  on_inject_output_message sequence s = schedule_flush now 0 (send_key_sequence sequence s)
