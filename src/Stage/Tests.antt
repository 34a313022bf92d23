-- ===== src/Stage/Tests.antt =====
-- Runs of a stage with one context, after src/test/test3_Stage.cpp.
use keymapper.Prelude.{
  [], true, negsuc, arith, negate, ◌&&◌, Bool, ◌≡◌, refl, pos, false, List, ◌∷◌, none, some, ◌++◌,
  All, contains, any, ◌||◌, map, ◌↔◌, all, find_if, rfind_if, remove_if, remove_first, remove_last,
  modify_first, count_if,
}
use mathlib.Core.Bool.{xor}
use keymapper.Key
use keymapper.Key.{
  is_mouse_button, is_mouse_wheel, is_keyboard_key, is_virtual_key, is_action_key,
  is_common_modifier, is_device_key,
}
use keymapper.Timeout.{sum_timeouts, make_history_timeout_event}
use keymapper.KeyEvent.{up, down, up_async, KeyEvent, KeySequence, key_event}
use keymapper.Filter.{Filter}
use keymapper.Stage.Sequences.{
  find_key, rfind_key, count_key_downs, contains_event, has_non_optional, has_output_on_release,
  is_no_might_match_mapping, find_last_down_event, find_last_non_optional, get_trigger_event,
  get_trigger_key, finish_sequence,
}
use keymapper.Stage.Outputs.{
  is_released_by, update_up, update_not, reapply, press_output, update_down, update_output_in,
  update_output, release_events, release_triggered, toggle_virtual_key, update_virtual_key,
  update_outputs, apply_event, apply_output, continue_loop, continue_output_on_release,
}
use keymapper.Stage.Setup.{
  no_output, insert_output, sort_outputs, sort_command_outputs, has_mouse_mappings,
  has_device_filters, has_no_might_match_mapping, make_stage, device_bits, evaluate_device_filters,
  device_matches_filter,
}
use keymapper.Stage.Contexts.{
  context_at, match_context_modifier_filter, fallthrough_from, fallthrough_context,
  is_context_active, find_command_output, find_override, find_output, on_context_active_event,
  only_first, toggle_contexts, evaluate_contexts, update_active_contexts,
  cancel_inactive_output_on_release, set_active_client_contexts,
}
use keymapper.Stage.History.{
  set_history_timing, update_history_timing, is_duplicate, add_timing, add_history_event,
  might_match_input, history_might_match, clean_up, clean_up_history,
}
use keymapper.Stage.Inputs.{
  match_result, match_inputs, match_contexts, match_input, is_physically_pressed,
  forward_from_sequence,
}
use keymapper.Stage.Update.{
  match_start, track_timeout, request_timeout, matched_timeout, filter_result, choose_trigger,
  apply_match, forward_start, finish_round, whole, iterate, match_sequence, match_sequence_fuel,
}
use keymapper.Stage.Apply.{
  suppress_timeout, merge_press, merge_event, record_history, release_in_sequence, reset_suppressed,
  drop_matched_timeouts, finish_input, enter_sequence, process_event, apply_merged, apply_continued,
  apply_input, advance_position, advance_exit_sequence, should_exit, update,
}
use keymapper.Stage.Validate.{
  is_clear, get_output_keys_down, release_events_of, apply_inputs, validate_state,
}
use keymapper.Stage.Update.Termination.{Settled, match_sequence-total}
use keymapper.KeyEvent.Held.{is_held_after}
use keymapper.Stage.Released.Untriggered.{NotTriggeredBy}
use keymapper.Stage.Released.{apply_input-releases, before_release, holds_down}
use keymapper.Stage.Requests.{Request, key_input, client_contexts, serve_all}
use keymapper.Stage.OnRelease.{continue_output_on_release-Continued, waiting, apply_where}
use keymapper.Stage.CancelOutputs.{waits_for_context, set_active_client_contexts-cancels}
use keymapper.Stage.HistoryStart.{IsUseful, clean_up_history-IsUseful}
use keymapper.Stage.ActiveContexts.{stands_for, contains-active_contexts, contains-only_first}
use keymapper.Stage.Commands.{find_command_output-sort}
use keymapper.Stage.PassThrough.{update_all, taps, update_all-taps}
use keymapper.Stage.PassThrough.Idle.{IsIdle}
use keymapper.Stage.ExitSequence.{exit_presses, should_exit-exit_presses}
use keymapper.Stage.Distinct.{Distinct, serve_all-Distinct}
use keymapper.MatchKeySequence.{match_key_sequence}
use keymapper.Stage.State.{
  Output, OutputOnRelease, by_event, by_key, CommandOutput, no_context_index, Stage, Context, Input,
  all_device_bits,
}

abbrev no_filter : Filter
no_filter = record { string = ""; regex = none; invert = false }

abbrev context : List Input → List KeySequence → Context
context inputs outputs = record {
  inputs = inputs;
  outputs = outputs;
  command_outputs = [];
  device_filter = no_filter;
  device_id_filter = no_filter;
  modifier_filter = [];
  matching_device_bits = all_device_bits;
  invert_modifier_filter = false;
  fallthrough = false;
}

abbrev key_a : Key.Key
key_a = 0x1E

abbrev key_b : Key.Key
key_b = 0x30

abbrev key_x : Key.Key
key_x = 0x2D

abbrev key_y : Key.Key
key_y = 0x15

-- `A B >> X`, `B >> Y`
abbrev mappings : List Context
mappings =
    context
      (record {
        input =
            key_event key_a down
            ∷ key_event key_a up_async
            ∷ key_event key_b down
            ∷ key_event key_b up_async
            ∷ [];
        output_index = pos 0;
      }
        ∷ record {
          input = key_event key_b down ∷ key_event key_b up_async ∷ [];
          output_index = pos 1;
        }
        ∷ [])
      ((key_event key_x down ∷ []) ∷ (key_event key_y down ∷ []) ∷ [])
    ∷ []

-- The outputs of a stage for the events of one device.
run : List KeyEvent → Stage → KeySequence
unfolding find_key rfind_key count_key_downs contains_event has_non_optional has_output_on_release
    is_no_might_match_mapping find_last_down_event find_last_non_optional get_trigger_event
    get_trigger_key finish_sequence update_up update_not reapply press_output update_down
    update_output_in update_output release_events release_triggered toggle_virtual_key
    update_virtual_key update_outputs apply_event apply_output continue_loop
    continue_output_on_release insert_output sort_outputs sort_command_outputs has_mouse_mappings
    has_device_filters has_no_might_match_mapping make_stage device_bits evaluate_device_filters
    device_matches_filter context_at match_context_modifier_filter fallthrough_from
    fallthrough_context is_context_active find_command_output find_override find_output
    on_context_active_event only_first toggle_contexts evaluate_contexts update_active_contexts
    cancel_inactive_output_on_release set_active_client_contexts set_history_timing
    update_history_timing is_duplicate add_timing add_history_event might_match_input
    history_might_match clean_up clean_up_history match_result match_inputs match_contexts
    match_input is_physically_pressed forward_from_sequence match_start track_timeout
    request_timeout matched_timeout filter_result choose_trigger apply_match forward_start
    finish_round whole iterate match_sequence match_sequence_fuel suppress_timeout merge_press
    merge_event record_history release_in_sequence reset_suppressed drop_matched_timeouts
    finish_input enter_sequence process_event apply_merged apply_continued apply_input
    advance_position advance_exit_sequence should_exit update is_clear get_output_keys_down
    release_events_of apply_inputs validate_state match_key_sequence xor contains any all find_if
    rfind_if remove_if remove_first remove_last modify_first count_if is_mouse_button is_mouse_wheel
    is_keyboard_key is_virtual_key is_action_key is_common_modifier is_device_key sum_timeouts
    make_history_timeout_event
run [] s = []
run (e ∷ es) s = let r = update 0 e (pos 0) s in r.0 ++ run es r.1

-- The stage when the client has made its context active.
abbrev start : Stage
start = (set_active_client_contexts (0 ∷ []) (make_stage mappings)).1

-- The stage when B is held, so that Y is.
abbrev b_held : Stage
b_held = (update 0 (key_event key_b down) (pos 0) start).1

second_mapping :
    run (key_event key_b down ∷ key_event key_b up ∷ []) start
    ≡ key_event key_y down ∷ key_event key_y up ∷ []
unfolding run
second_mapping = refl

first_mapping :
    run (key_event key_a down ∷ key_event key_b down ∷ []) start ≡ key_event key_x down ∷ []
unfolding run
first_mapping = refl

-- `A B X >> Y`
abbrev three_keys : List Context
three_keys =
    context
      (record {
        input =
            key_event key_a down
            ∷ key_event key_a up_async
            ∷ key_event key_b down
            ∷ key_event key_b up_async
            ∷ key_event key_x down
            ∷ key_event key_x up_async
            ∷ [];
        output_index = pos 0;
      }
        ∷ [])
      ((key_event key_y down ∷ []) ∷ [])
    ∷ []

-- A and B are held back, since the mapping might match, while B holds Y.
abbrev y_held : Stage
y_held = record ((set_active_client_contexts (0 ∷ []) (make_stage three_keys)).1) {
  sequence = key_event key_a down ∷ key_event key_b down ∷ [];
  sequence_might_match = true;
  out = record no_output {
    output_down =
        record {
          key = key_y;
          trigger = by_key key_b;
          suppressed = false;
          temporarily_released = false;
          pressed_twice = false;
          context_index = pos 0;
        }
        ∷ [];
  };
}

apply_input-releases_example :
    All (NotTriggeredBy key_b) (apply_input 0 (key_event key_b up) (pos 0) y_held).out.output_down
    × ((key : Key.Key) (held : Bool)
        → is_held_after key held
            (apply_input 0 (key_event key_b up) (pos 0) y_held).out.output_buffer
          ≡ (is_held_after key held
                (before_release 0 (key_event key_b up) (pos 0) y_held).out.output_buffer
              && negate (
                  any
                    (holds_down key_b key)
                    (before_release 0 (key_event key_b up) (pos 0) y_held).out.output_down)))
unfolding run
apply_input-releases_example =
    apply_input-releases 0 (key_event key_b up) (pos 0) y_held refl (λ e. cc) (λ e. cc) refl

y_goes_up :
    (any
        (holds_down key_b key_y)
        (before_release 0 (key_event key_b up) (pos 0) y_held).out.output_down
      ≡ true)
    × ((apply_input 0 (key_event key_b up) (pos 0) y_held).out.output_buffer
        ≡ key_event key_y up ∷ [])
unfolding run
y_goes_up = (refl, refl)

match_sequence-total_example :
    (s' : Stage) × (match_sequence
        (match_sequence_fuel b_held.sequence)
        (key_event key_b up)
        (pos 0)
        false
        b_held
      ≡ some s')
    × Settled s'
match_sequence-total_example = match_sequence-total (key_event key_b up) (pos 0) b_held

abbrev requests : List Request
requests =
    client_contexts (0 ∷ [])
    ∷ key_input 0 (key_event key_b down) (pos 0)
    ∷ key_input 1 (key_event key_a down) (pos 0)
    ∷ []

serve_all-Distinct_example : Distinct (serve_all requests (make_stage mappings)).out.output_down
serve_all-Distinct_example = serve_all-Distinct mappings requests

-- A stage where Y waits for the release of A, and X for the one of B.
abbrev waiting_outputs : Output
waiting_outputs = record no_output {
  output_on_release =
      record { trigger = key_a; sequence = key_event key_y down ∷ []; context_index = pos 0 }
      ∷ record { trigger = key_b; sequence = key_event key_x down ∷ []; context_index = pos 1 }
      ∷ [];
}

-- Y goes out at the release of A, and X still waits for the one of B.
continue_output_on_release-Continued_example :
    continue_output_on_release [] [] true (key_event key_a up) no_context_index waiting_outputs ≡ (
      waiting
          (remove_if
            (is_released_by [] [] true (key_event key_a up) no_context_index)
            waiting_outputs.output_on_release)
          (apply_where
            (is_released_by [] [] true (key_event key_a up) no_context_index)
            (λ (r : OutputOnRelease).
              apply_output [] [] true r.sequence (by_event (key_event key_a up)) r.context_index)
            waiting_outputs.output_on_release
            waiting_outputs),
      true,
    )
continue_output_on_release-Continued_example =
    continue_output_on_release-Continued [] [] true (key_event key_a up) no_context_index
      waiting_outputs refl

y_goes_out :
    (continue_output_on_release [] [] true
      (key_event key_a up)
      no_context_index
      waiting_outputs).0.output_buffer
    ≡ key_event key_y down ∷ []
unfolding run
y_goes_out = refl

-- Y waits for A in the first context, X for B in one that is not there.
set_active_client_contexts-cancels_example :
    All
      (λ (r : OutputOnRelease).
        is_context_active
          (set_active_client_contexts (0 ∷ []) (record start { out = waiting_outputs })).1
          r.context_index
        ≡ true)
      (set_active_client_contexts
        (0 ∷ [])
        (record start { out = waiting_outputs })).1.out.output_on_release
    × (remove_if waits_for_context
          (set_active_client_contexts
            (0 ∷ [])
            (record start { out = waiting_outputs })).1.out.output_on_release
        ≡ remove_if
            (λ (r : OutputOnRelease).
              negate (
                is_context_active
                  (set_active_client_contexts (0 ∷ []) (record start { out = waiting_outputs })).1
                  r.context_index)
              || waits_for_context r)
            waiting_outputs.output_on_release)
set_active_client_contexts-cancels_example =
    set_active_client_contexts-cancels (0 ∷ []) (record start { out = waiting_outputs })

x_is_cancelled :
    map
      (λ (r : OutputOnRelease). r.trigger)
      (set_active_client_contexts
        (0 ∷ [])
        (record start { out = waiting_outputs })).1.out.output_on_release
    ≡ key_a ∷ []
unfolding run
x_is_cancelled = refl

-- A was tapped, and B is held.
abbrev tapped : Stage
tapped = record start {
  history = key_event key_a down ∷ key_event key_a up ∷ key_event key_b down ∷ [];
}

tap_erased : (clean_up_history tapped).history ≡ key_event key_b down ∷ []
unfolding clean_up_history clean_up contains_event history_might_match might_match_input
    is_no_might_match_mapping context_at any is_common_modifier remove_first
    set_active_client_contexts update_active_contexts evaluate_contexts make_stage
    sort_command_outputs match_context_modifier_filter fallthrough_context fallthrough_from
    toggle_contexts only_first on_context_active_event find_if cancel_inactive_output_on_release xor
tap_erased = refl

clean_up_history-IsUseful_example :
    IsUseful tapped.contexts tapped.active_contexts (clean_up_history tapped).history
    × (((clean_up_history tapped).history ≡ tapped.history)
        ↔ IsUseful tapped.contexts tapped.active_contexts tapped.history)
clean_up_history-IsUseful_example = clean_up_history-IsUseful tapped

contains-active_contexts_example :
    contains 0 (update_active_contexts b_held).active_contexts
    ≡ any (stands_for b_held 0) b_held.active_client_contexts
contains-active_contexts_example = contains-active_contexts b_held 0

contains-only_first_example :
    contains 1 (only_first (0 ∷ 1 ∷ 3 ∷ []) (0 ∷ 2 ∷ []))
    ≡ (contains 1 (0 ∷ 1 ∷ 3 ∷ []) && negate (contains 1 (0 ∷ 2 ∷ [])))
contains-only_first_example =
    contains-only_first 1 (0 ∷ 1 ∷ 3 ∷ []) (0 ∷ 2 ∷ [])
      ((omega arith, (omega arith, tt)), ((omega arith, tt), (tt, tt)))
      ((omega arith, tt), (tt, tt))

abbrev commands : List CommandOutput
commands =
    record { output = key_event key_x down ∷ []; index = negsuc 1 }
    ∷ record { output = key_event key_y down ∷ []; index = negsuc 0 }
    ∷ []

find_command_output-sort_example :
    find_command_output (sort_outputs commands) (negsuc 1) ≡ some (key_event key_x down ∷ [])
unfolding find_if
find_command_output-sort_example =
    find_command_output-sort (negsuc 1) commands ((refl, tt), (tt, tt))

-- The stage before the client has made a context active.
abbrev idle_stage : Stage
idle_stage = make_stage mappings

update_all-taps_example :
    ((update_all 0 (pos 0) (taps (key_a ∷ key_b ∷ [])) idle_stage).0 ≡ taps (key_a ∷ key_b ∷ []))
    × IsIdle (update_all 0 (pos 0) (taps (key_a ∷ key_b ∷ [])) idle_stage).1
unfolding make_stage has_no_might_match_mapping is_no_might_match_mapping is_virtual_key any
update_all-taps_example =
    update_all-taps 0 (pos 0) (key_a ∷ key_b ∷ []) idle_stage refl
      ((refl, λ e. cc), ((refl, λ e. cc), tt))

should_exit-exit_presses_example :
    should_exit
      (update_all 0
        (pos 0)
        ((key_event key_b down ∷ []) ++ (key_event key_b up ∷ exit_presses 2 0))
        start).1
    ≡ true
unfolding is_keyboard_key is_mouse_button is_mouse_wheel
should_exit-exit_presses_example =
    should_exit-exit_presses 0 (pos 0) key_b 2 0 (key_event key_b down ∷ []) start refl

-- Three contexts one behind the other, of which the second has a device filter: the first falls
-- through to the third, past the second, and the third comes again.
abbrev fallthroughs : Stage
fallthroughs = record start {
  contexts =
      record (context [] []) { fallthrough = true }
      ∷ record (context [] []) {
        device_filter = record { string = "keyboard"; regex = none; invert = false };
        fallthrough = true;
      }
      ∷ context [] []
      ∷ [];
  active_client_contexts = 0 ∷ 1 ∷ 2 ∷ [];
}

context_repeated : (update_active_contexts fallthroughs).active_contexts ≡ 2 ∷ 1 ∷ 2 ∷ []
unfolding update_active_contexts evaluate_contexts context_at match_context_modifier_filter
    fallthrough_context fallthrough_from xor all
context_repeated = refl

-- ContextActive of the third context is pressed for each of its two entries.
toggled_twice : only_first (2 ∷ 1 ∷ 2 ∷ []) [] ≡ 2 ∷ 1 ∷ 2 ∷ []
unfolding only_first
toggled_twice = refl
