-- ===== src/ClientState/Tests.antt =====
-- A client with a context for every window and one for the windows of a class.
use keymapper.Prelude.{◌≡◌, refl, true, false, [], ◌∷◌, none, some, contains, remove_first, any}
use keymapper.Key
use keymapper.Key.{Key}
use keymapper.KeyEvent.{up, down, KeySequence, key_event}
use keymapper.Filter
use keymapper.Filter.{Filter}
use keymapper.Config
use keymapper.Config.{Config, toggle_active_action}
use keymapper.ClientState.{
  ClientState, Window, active_toggled, ensure_all_keys_up, replace_logical_keys, toggle_active,
  sent_active_contexts, track_keys, update_active_contexts, matching_contexts,
  clear_active_contexts, send_active_contexts, has_toggle_active_action,
}
use keymapper.ClientState.Sequences.{ensure_all_keys_up-released}
use keymapper.KeyEvent.Held.{is_held_after}
use keymapper.ClientState.Contexts.{update_active_contexts-matching}

-- `Shift{A` with a release of A only.
abbrev typed : KeySequence
typed = key_event Key.shift down ∷ key_event 30 down ∷ key_event 30 up ∷ []

left_shift_released :
    ensure_all_keys_up (replace_logical_keys typed)
    ≡ key_event Key.shift_left down
      ∷ key_event 30 down
      ∷ key_event 30 up
      ∷ key_event Key.shift_left up
      ∷ []
unfolding ensure_all_keys_up replace_logical_keys track_keys contains remove_first
left_shift_released = refl

ensure_all_keys_up-released_example :
    is_held_after Key.shift_left false (ensure_all_keys_up (replace_logical_keys typed)) ≡ false
ensure_all_keys_up-released_example =
    ensure_all_keys_up-released (replace_logical_keys typed) Key.shift_left

abbrev no_filter : Filter
no_filter = record { string = ""; regex = none; invert = false }

-- For the windows of a class.
abbrev context : Filter → Config.Context
context class_filter = record {
  window_class_filter = class_filter;
  window_title_filter = no_filter;
  window_path_filter = no_filter;
  device_filter = no_filter;
  device_id_filter = no_filter;
  modifier_filter = [];
  inputs = [];
  outputs = [];
  command_outputs = [];
  system_filter_matched = true;
  invert_modifier_filter = false;
  fallthrough = false;
  begin_stage = false;
}

abbrev config : Config
config = record {
  contexts =
      context no_filter ∷ context (record { string = "editor"; regex = none; invert = false }) ∷ [];
  actions = record { type = toggle_active_action; value = "" } ∷ [];
  virtual_key_aliases = [];
  grab_device_filters = [];
  server_directives = [];
  include_filenames = [];
  options = [];
}

abbrev editor : Window
editor = record { window_class = "editor"; window_title = "notes"; window_path = "/bin/editor" }

abbrev client : ClientState
client = record {
  config = config;
  focused_window = record { window_class = ""; window_title = ""; window_path = "" };
  active_contexts = 0 ∷ [];
  active = true;
  effects = [];
}

update_active_contexts-matching_example :
    contains 1 (update_active_contexts (some editor) false client).1.active_contexts ≡ true
unfolding Config.matches Filter.matches
update_active_contexts-matching_example =
    update_active_contexts-matching (some editor) false client 1 refl refl

-- Toggled twice, with the window of the editor focused on: the first context stays active, in which it
-- can be toggled again.
toggled_twice :
    (toggle_active
      (record { sends = λ _. true })
      none
      (toggle_active
        (record { sends = λ _. true })
        none
        (record client { focused_window = editor; active_contexts = 0 ∷ 1 ∷ [] }))).effects
    ≡ sent_active_contexts (0 ∷ [])
      ∷ active_toggled false
      ∷ sent_active_contexts (0 ∷ 1 ∷ [])
      ∷ active_toggled true
      ∷ []
unfolding toggle_active update_active_contexts send_active_contexts clear_active_contexts
    has_toggle_active_action matching_contexts Config.matches Filter.matches any
toggled_twice = refl
