-- ===== src/Stage/Setup.antt =====
-- src/runtime/Stage.cpp: the construction of a stage from its contexts, and the device filters.
use Prim.Native.String.{String}
use Prim.Native.Nat.{bit_or}
use keymapper.Prelude.{
  ℕ, ◌*◌, ◌/◌, ◌%◌, ◌^◌, ℤ, pos, negsuc, int_lt, Bool, true, false, ◌&&◌, ◌||◌, List, [], ◌∷◌, none,
  map, ◌==◌, if◌then◌else◌, any,
}
use keymapper.Key.{is_mouse_button, is_mouse_wheel}
use keymapper.KeyEvent.{KeySequence}
use keymapper.Filter
use keymapper.Filter.{Filter}
use keymapper.Stage.State.{
  no_device_index, all_device_bits, CommandOutput, Context, Output, Stage, last_event_time,
}
use keymapper.Stage.Sequences.{is_no_might_match_mapping}

-- `std::sort` by falling index. It leaves the order of equal indices open, which here stay as they are.
unfoldable pub insert_output : CommandOutput → List CommandOutput → List CommandOutput
insert_output a [] = a ∷ []
insert_output a (b ∷ bs) = if int_lt a.index b.index then b ∷ insert_output a bs else a ∷ b ∷ bs

unfoldable pub sort_outputs : List CommandOutput → List CommandOutput
sort_outputs [] = []
sort_outputs (a ∷ others) = insert_output a (sort_outputs others)

unfoldable pub sort_command_outputs : List Context → List Context
sort_command_outputs = map (λ (context : Context). record context {
  command_outputs = sort_outputs context.command_outputs;
})

abbrev maps_mouse : KeySequence → Bool
maps_mouse = any (λ event. is_mouse_button event.key || is_mouse_wheel event.key)

unfoldable pub has_mouse_mappings : List Context → Bool
has_mouse_mappings = any (λ context.
    maps_mouse context.modifier_filter || any (λ input. maps_mouse input.input) context.inputs)

abbrev pub has_device_filter : Context → Bool
has_device_filter context =
    Filter.is_set context.device_filter || Filter.is_set context.device_id_filter

unfoldable pub has_device_filters : List Context → Bool
has_device_filters = any has_device_filter

unfoldable pub has_no_might_match_mapping : List Context → Bool
has_no_might_match_mapping =
    any (λ context. any (λ input. is_no_might_match_mapping input.input) context.inputs)

abbrev pub no_output : Output
no_output = record {
  output_down = [];
  output_buffer = [];
  temporary_reapplied = false;
  output_on_release = [];
  current_timeout = none;
}

-- The constructor.
unfoldable pub make_stage : List Context → Stage
make_stage contexts = record {
  contexts = sort_command_outputs contexts;
  has_mouse_mappings = has_mouse_mappings contexts;
  has_device_filter = has_device_filters contexts;
  has_no_might_match_mapping = has_no_might_match_mapping contexts;
  virtual_keys_toggle = true;
  active_client_contexts = [];
  active_contexts = [];
  prev_active_contexts = [];
  exit_sequence_position = 0;
  sequence = [];
  sequence_might_match = false;
  last_pressed_device_index = no_device_index;
  last_repeat_device_index = no_device_index;
  history = [];
  history_timing_state = last_event_time 0;
  out = no_output;
  any_key_matches = [];
}

pub record DeviceDesc : Type 0 where
  pub name : String
  pub id : String

-- `bit` is shifted out of the 64 bits after the last device.
unfoldable pub device_bits : Context → List DeviceDesc → ℕ → ℕ → ℕ
device_bits context [] bit bits = bits
device_bits context (device ∷ devices) bit bits = device_bits context devices (bit * 2 % 2 ^ 64) (
    if Filter.matches context.device_filter device.name false
      && Filter.matches context.device_id_filter device.id false
    then bit_or bits bit
    else bits)

unfoldable pub evaluate_device_filters : List DeviceDesc → Stage → Stage
evaluate_device_filters devices s = record s {
  contexts =
      map
        (λ (context : Context). record context {
          matching_device_bits =
              if has_device_filter context
              then device_bits context devices 1 0
              else all_device_bits;
        })
        s.contexts;
}

unfoldable pub device_matches_filter : Context → ℤ → Bool
device_matches_filter context (pos index) = context.matching_device_bits / 2 ^ index % 2 == 1
device_matches_filter context (negsuc index) =
    if index == 1 then true else context.matching_device_bits == all_device_bits
