-- ===== src/Config.antt =====
-- src/config/Config.h: the configuration that the client reads and sends to the server.
use Prim.Native.String.{String}
use keymapper.Prelude.{Bool, true, false, ◌&&◌, List}
use keymapper.Key.{Key}
use keymapper.KeyEvent.{KeySequence}
use keymapper.Filter
use keymapper.Filter.{Filter, GrabDeviceFilter}
use keymapper.Stage.State.{Input, CommandOutput}

-- The inputs and command outputs are those of the stage's context, which has the same types.
pub record Context : Type 0 where
  pub window_class_filter : Filter
  pub window_title_filter : Filter
  pub window_path_filter : Filter
  pub device_filter : Filter
  pub device_id_filter : Filter
  pub modifier_filter : KeySequence
  pub inputs : List Input
  pub outputs : List KeySequence
  pub command_outputs : List CommandOutput
  pub system_filter_matched : Bool
  pub invert_modifier_filter : Bool
  pub fallthrough : Bool
  pub begin_stage : Bool

-- `Context::matches`
unfoldable pub matches : Context → String → String → String → Bool
matches c window_class window_title window_path =
    Filter.matches c.window_class_filter window_class false
    && (Filter.matches c.window_title_filter window_title true
        && Filter.matches c.window_path_filter window_path true)

pub data ActionType : Type 0 where
  terminal_command toggle_active_action : ActionType

pub record Action : Type 0 where
  pub type : ActionType
  pub value : String

pub data ConfigOption : Type 0 where
  auto_update_config no_auto_update_config verbose no_tray_icon no_notify : ConfigOption

-- The paths are texts.
pub record Config : Type 0 where
  pub contexts : List Context
  pub actions : List Action
  pub virtual_key_aliases : List (String × Key)
  pub grab_device_filters : List GrabDeviceFilter
  pub server_directives : List String
  pub include_filenames : List String
  pub options : List ConfigOption
