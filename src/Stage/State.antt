-- ===== src/Stage/State.antt =====
-- src/runtime/Stage.h: the contexts of a stage and its state. `int` values of which -1 and -2 are
-- marks are `ℤ`. The members that the functions for the output write stand together, in `Output`.
use keymapper.Prelude.{ℕ, ℤ, negsuc, int_eq, Bool, ◌&&◌, List, Option, ◌==◌}
use keymapper.Key.{Key}
use keymapper.KeyEvent.{KeyEvent, KeySequence}
use keymapper.Filter.{Filter}

abbrev pub no_device_index : ℤ
no_device_index = negsuc 0

abbrev pub any_device_index : ℤ
any_device_index = negsuc 1

-- The default argument of the functions that take a context.
abbrev pub no_context_index : ℤ
no_context_index = negsuc 0

-- `~uint64_t{ }`
abbrev pub all_device_bits : ℕ
all_device_bits = 18446744073709551615

-- `output_index` is positive for direct and negative for command output.
pub record Input : Type 0 where
  pub input : KeySequence
  pub output_index : ℤ

pub record CommandOutput : Type 0 where
  pub output : KeySequence
  pub index : ℤ

pub record Context : Type 0 where
  pub inputs : List Input
  pub outputs : List KeySequence
  pub command_outputs : List CommandOutput
  pub device_filter : Filter
  pub device_id_filter : Filter
  pub modifier_filter : KeySequence
  pub matching_device_bits : ℕ
  pub invert_modifier_filter : Bool
  pub fallthrough : Bool

-- A pointer to an output of a context: the code compares such pointers. A context holds one output
-- for each index.
pub record OutputRef : Type 0 where
  pub context : ℕ
  pub index : ℤ
  pub sequence : KeySequence

abbrev pub ref_eq : OutputRef → OutputRef → Bool
ref_eq a b = a.context == b.context && int_eq a.index b.index

pub data Trigger : Type 0 where
  by_input : KeySequence → Trigger
  by_event : KeyEvent → Trigger
  by_key : Key → Trigger

pub data HistoryTimingState : Type 0 where
  last_event_time : ℕ → HistoryTimingState
  injected : ℕ → HistoryTimingState

pub record OutputOnRelease : Type 0 where
  pub trigger : Key
  pub sequence : KeySequence
  pub context_index : ℤ

pub record OutputDown : Type 0 where
  pub key : Key
  pub trigger : Trigger
  pub suppressed : Bool
  pub temporarily_released : Bool
  pub pressed_twice : Bool
  pub context_index : ℤ

pub record CurrentTimeout : Type 0 where
  pub event : KeyEvent
  pub trigger : Key
  pub matched_output : Option OutputRef
  pub not_exceeded : Bool
  pub virtual_keys_changed : Bool

pub record Output : Type 0 where
  pub output_down : List OutputDown
  pub output_buffer : KeySequence
  pub temporary_reapplied : Bool
  pub output_on_release : List OutputOnRelease
  pub current_timeout : Option CurrentTimeout

pub record Stage : Type 0 where
  pub contexts : List Context
  pub has_mouse_mappings : Bool
  pub has_device_filter : Bool
  pub has_no_might_match_mapping : Bool
  pub virtual_keys_toggle : Bool
  pub active_client_contexts : List ℕ
  pub active_contexts : List ℕ
  pub prev_active_contexts : List ℕ
  pub exit_sequence_position : ℕ
  pub sequence : KeySequence
  pub sequence_might_match : Bool
  pub last_pressed_device_index : ℤ
  pub last_repeat_device_index : ℤ
  pub history : KeySequence
  pub history_timing_state : HistoryTimingState
  pub out : Output
  pub any_key_matches : List Key
