-- ===== src/MultiStage/Tests.antt =====
-- Two stages, of which the second maps what the first puts out.
use keymapper.Prelude.{[], ◌≤◌, refl, pos, false, none, List, ◌∷◌, All, map}
use keymapper.Key.{Key, is_virtual_key}
use keymapper.KeyEvent.{up, down, up_async, key_event}
use keymapper.Filter.{Filter}
use keymapper.Stage.State.{Stage, Context, all_device_bits}
use keymapper.Stage.Setup.{make_stage}
use keymapper.Stage.Apply
use keymapper.Stage.Distinct.{Distinct}
use keymapper.Prelude.{
  contains, any, all, find_if, rfind_if, remove_if, remove_first, remove_last, modify_first,
  count_if,
}
use mathlib.Core.Bool.{xor}
use keymapper.Key.{
  is_mouse_button, is_mouse_wheel, is_keyboard_key, is_action_key, is_common_modifier,
  is_device_key,
}
use keymapper.Timeout.{sum_timeouts, make_history_timeout_event}
use keymapper.Stage.Sequences.{
  find_key, rfind_key, count_key_downs, contains_event, has_non_optional, has_output_on_release,
  is_no_might_match_mapping, find_last_down_event, find_last_non_optional, get_trigger_event,
  get_trigger_key, finish_sequence,
}
use keymapper.Stage.Outputs.{
  update_up, update_not, reapply, press_output, update_down, update_output_in, update_output,
  release_events, release_triggered, toggle_virtual_key, update_virtual_key, update_outputs,
  apply_event, apply_output, continue_loop, continue_output_on_release,
}
use keymapper.Stage.Setup.{
  insert_output, sort_outputs, sort_command_outputs, has_mouse_mappings, has_device_filters,
  has_no_might_match_mapping, device_bits, evaluate_device_filters, device_matches_filter,
}
use keymapper.Stage.Contexts.{
  context_at, match_context_modifier_filter, fallthrough_from, fallthrough_context,
  is_context_active, find_command_output, find_override, find_output, on_context_active_event,
  only_first, toggle_contexts, evaluate_contexts, update_active_contexts,
  cancel_inactive_output_on_release,
}
use keymapper.Stage.History.{
  set_history_timing, update_history_timing, is_duplicate, add_timing, add_history_event,
  might_match_input, history_might_match, clean_up, clean_up_history,
}
use keymapper.Stage.Inputs.{
  match_result, match_inputs, match_contexts, match_input, is_physically_pressed,
  forward_from_sequence,
}
use keymapper.Stage.Update.{
  match_start, track_timeout, request_timeout, matched_timeout, filter_result, choose_trigger,
  apply_match, forward_start, finish_round, whole, iterate, match_sequence, match_sequence_fuel,
}
use keymapper.Stage.Apply.{
  suppress_timeout, merge_press, merge_event, record_history, release_in_sequence, reset_suppressed,
  drop_matched_timeouts, finish_input, enter_sequence, process_event, apply_merged, apply_continued,
  apply_input, advance_position, advance_exit_sequence, should_exit,
}
use keymapper.Stage.Validate.{
  is_clear, get_output_keys_down, release_events_of, apply_inputs, validate_state,
}
use keymapper.MatchKeySequence.{match_key_sequence}
use keymapper.Stage.Contexts as StageContexts
use keymapper.MultiStage.{
  MultiStage, is_server_event, make_multi_stage, set_active_client_contexts, update,
}
use keymapper.MultiStage.Contexts.{ActiveFrom, set_active_client_contexts-Active}
use keymapper.MultiStage.Requests.{
  Request, key_input, client_contexts, validation, reused_buffer, serve_all,
  multi_serve_all-Distinct,
}
use keymapper.MultiStage.ServerEvents.{count, update-keeps}

abbrev key_a : Key
key_a = 0x1E

abbrev key_b : Key
key_b = 0x30

abbrev virtual_0 : Key
virtual_0 = 0xF600

abbrev no_filter : Filter
no_filter = record { string = ""; regex = none; invert = false }

-- `key >> output`
abbrev mapping : Key → Key → Context
mapping key output = record {
  inputs =
      record { input = key_event key down ∷ key_event key up_async ∷ []; output_index = pos 0 }
      ∷ [];
  outputs = (key_event output down ∷ []) ∷ [];
  command_outputs = [];
  device_filter = no_filter;
  device_id_filter = no_filter;
  modifier_filter = [];
  matching_device_bits = all_device_bits;
  invert_modifier_filter = false;
  fallthrough = false;
}

-- `A >> Virtual0` before `B >> A`.
abbrev configurations : List (List Context)
configurations =
    (mapping key_a virtual_0 ∷ []) ∷ (mapping key_b key_a ∷ mapping key_a key_b ∷ []) ∷ []

abbrev two_stages : MultiStage
two_stages = make_multi_stage (map make_stage configurations)

set_active_client_contexts-Active_example :
    ActiveFrom (0 ∷ 2 ∷ []) 0 (set_active_client_contexts 0 (0 ∷ 2 ∷ []) two_stages).1.stages
set_active_client_contexts-Active_example =
    set_active_client_contexts-Active 0 (0 ∷ 2 ∷ []) two_stages

abbrev requests : List Request
requests =
    client_contexts 0 (0 ∷ 1 ∷ 2 ∷ [])
    ∷ reused_buffer
    ∷ key_input 1 (key_event key_a down) (pos 0)
    ∷ key_input 2 (key_event key_a up) (pos 0)
    ∷ validation 3 (λ _. false)
    ∷ []

multi_serve_all-Distinct_example :
    All (λ (s : Stage). Distinct s.out.output_down) (serve_all requests two_stages).stages
multi_serve_all-Distinct_example = multi_serve_all-Distinct configurations requests

-- The first stage, when the client has made its context active.
abbrev first : Stage
first =
    (StageContexts.set_active_client_contexts (0 ∷ [])
      (make_stage (mapping key_a virtual_0 ∷ []))).1

abbrev active : MultiStage
active = record two_stages {
  stages = first ∷ make_stage (mapping key_b key_a ∷ mapping key_a key_b ∷ []) ∷ [];
}

-- The first stage puts out Virtual0 for A.
update-keeps_example :
    1 ≤ count (key_event virtual_0 down) (update 1 (key_event key_a down) (pos 0) active).0
unfolding find_key rfind_key count_key_downs contains_event has_non_optional has_output_on_release
    is_no_might_match_mapping find_last_down_event find_last_non_optional get_trigger_event
    get_trigger_key finish_sequence update_up update_not reapply press_output update_down
    update_output_in update_output release_events release_triggered toggle_virtual_key
    update_virtual_key update_outputs apply_event apply_output continue_loop
    continue_output_on_release insert_output sort_outputs sort_command_outputs has_mouse_mappings
    has_device_filters has_no_might_match_mapping make_stage device_bits evaluate_device_filters
    device_matches_filter context_at match_context_modifier_filter fallthrough_from
    fallthrough_context is_context_active find_command_output find_override find_output
    on_context_active_event only_first toggle_contexts evaluate_contexts update_active_contexts
    cancel_inactive_output_on_release StageContexts.set_active_client_contexts set_history_timing
    update_history_timing is_duplicate add_timing add_history_event might_match_input
    history_might_match clean_up clean_up_history match_result match_inputs match_contexts
    match_input is_physically_pressed forward_from_sequence match_start track_timeout
    request_timeout matched_timeout filter_result choose_trigger apply_match forward_start
    finish_round whole iterate match_sequence match_sequence_fuel suppress_timeout merge_press
    merge_event record_history release_in_sequence reset_suppressed drop_matched_timeouts
    finish_input enter_sequence process_event apply_merged apply_continued apply_input
    advance_position advance_exit_sequence should_exit Apply.update is_clear get_output_keys_down
    release_events_of apply_inputs validate_state match_key_sequence xor contains any all find_if
    rfind_if remove_if remove_first remove_last modify_first count_if is_mouse_button is_mouse_wheel
    is_keyboard_key is_virtual_key is_action_key is_common_modifier is_device_key sum_timeouts
    make_history_timeout_event make_multi_stage is_server_event
update-keeps_example =
    update-keeps 1 (key_event key_a down) (pos 0) (key_event virtual_0 down) first active
      (make_stage (mapping key_b key_a ∷ mapping key_a key_b ∷ []) ∷ []) refl refl refl
