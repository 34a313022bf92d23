-- ===== src/ServerState/State.antt =====
-- src/server/ServerState.h and .cpp: the members of the server's state, what it does to its surroundings,
-- and the operations that translate no input. What is sent and called is recorded in the order in which
-- it is, the time is an argument in milliseconds, and the verbose output is left out.
use Prim.Native.String.{String}
use keymapper.Prelude.{
  ℕ, zero, suc, ◌+◌, Bool, true, false, ◌||◌, List, [], ◌∷◌, ◌++◌, Option, none, some, map,
  if◌then◌else◌, negate, is_empty, push,
}
use keymapper.Key.{Key}
use keymapper.KeyEvent.{KeyState, up, KeyEvent, KeySequence, key_event, default_event}
use keymapper.Stage.Setup.{DeviceDesc}
use keymapper.MultiStage
use keymapper.MultiStage.{MultiStage, make_multi_stage}

pub data Effect : Type 0 where
  sent_key : KeyEvent → Effect
  flushed timeout_cancelled exit_requested : Effect
  -- The delay.
  flush_scheduled : ℕ → Effect
  timeout_scheduled : ℕ → Effect
  -- The index of the action.
  triggered_action : ℕ → Effect
  virtual_key_state : Key → KeyState → Effect
  next_key_info : List Key → DeviceDesc → Effect

-- The overridden methods, of which a result can depend on all that was done before.
pub record Platform : Type 0 where
  pub on_send_key : List Effect → KeyEvent → Bool
  pub on_flushed_send_buffer : List Effect → Bool
  pub on_validate_key_is_down : Key → Bool
  pub devices_error_message : String

pub record ServerState : Type 0 where
  pub stage : MultiStage
  pub send_buffer : KeySequence
  pub virtual_keys_down : List Key
  pub last_key_event : KeyEvent
  pub sending_key : Bool
  pub insert_in_send_buffer_at : Option ℕ
  pub flush_scheduled_at : Option ℕ
  pub timeout_start_at : Option ℕ
  pub timeout : ℕ
  pub cancel_timeout_on_up : Bool
  pub device_descs : List DeviceDesc
  pub next_key_info_requested : Bool
  pub next_key_info_keys : List Key
  pub effects : List Effect

-- The constructor.
abbrev pub initial : ServerState
initial = record {
  stage = make_multi_stage [];
  send_buffer = [];
  virtual_keys_down = [];
  last_key_event = default_event;
  sending_key = false;
  insert_in_send_buffer_at = none;
  flush_scheduled_at = none;
  timeout_start_at = none;
  timeout = 0;
  cancel_timeout_on_up = false;
  device_descs = [];
  next_key_info_requested = false;
  next_key_info_keys = [];
  effects = [];
}

abbrev pub is_some {ℓ} : {A : Type ℓ} → Option A → Bool
is_some none = false
is_some (some a) = true

abbrev pub record_effect : Effect → ServerState → ServerState
record_effect effect s = record s { effects = push s.effects effect }

unfoldable pub release_all_keys : ServerState → ServerState
release_all_keys s = record s {
  send_buffer =
      s.send_buffer
      ++ map (λ (key : Key). key_event key up) (MultiStage.get_output_keys_down s.stage);
}

-- Inserts in front of what is at the place.
abbrev pub insert_at : ℕ → KeySequence → KeySequence → KeySequence
insert_at zero inserted buffer = inserted ++ buffer
insert_at (suc at) inserted [] = inserted
insert_at (suc at) inserted (event ∷ buffer) = event ∷ insert_at at inserted buffer

unfoldable pub send_key_sequence : KeySequence → ServerState → ServerState
send_key_sequence sequence s = record s {
  send_buffer = elim s.insert_in_send_buffer_at [
    | none ↦ s.send_buffer ++ sequence
    | some at ↦ insert_at at sequence s.send_buffer
  ];
}

unfoldable pub schedule_flush : ℕ → ℕ → ServerState → ServerState
schedule_flush now delay s =
    if is_some s.flush_scheduled_at
    then s
    else record_effect (flush_scheduled delay)
        (record s { flush_scheduled_at = some (now + delay) })

unfoldable pub schedule_timeout : ℕ → ℕ → Bool → ServerState → ServerState
schedule_timeout now timeout cancel_on_up s = record_effect (timeout_scheduled timeout) (record s {
  timeout = timeout;
  timeout_start_at = some now;
  cancel_timeout_on_up = cancel_on_up;
})

unfoldable pub cancel_timeout : ServerState → ServerState
cancel_timeout s =
    record_effect timeout_cancelled (record s { timeout_start_at = none; timeout = 0 })

-- In the following functions `flush` is `flush_send_buffer`, which they call.
module _ (now : ℕ) (flush : ServerState → ServerState) where
  abbrev pub flush_unless_scheduled : ServerState → ServerState
  flush_unless_scheduled s = if is_some s.flush_scheduled_at then s else flush s

  unfoldable pub set_active_contexts : List ℕ → ServerState → ServerState
  set_active_contexts indices s =
      let r = MultiStage.set_active_client_contexts now indices s.stage in
      let sent = send_key_sequence r.0 (record s { stage = r.1 }) in
      flush_unless_scheduled (record sent { stage = MultiStage.reuse_buffer sent.stage })

  unfoldable pub evaluate_device_filters : ServerState → ServerState
  evaluate_device_filters s =
      if negate (MultiStage.has_device_filters s.stage) || is_empty s.device_descs
      then s
      else set_active_contexts s.stage.active_client_contexts
          (record s { stage = MultiStage.evaluate_device_filters s.device_descs s.stage })

  -- From the place behind the flush on.
  abbrev pub with_configuration : MultiStage → ServerState → ServerState
  with_configuration stage s = record s {
    stage = stage;
    virtual_keys_down = [];
    flush_scheduled_at = none;
    timeout_start_at = none;
  }

  unfoldable pub reset_configuration : Option MultiStage → ServerState → ServerState
  reset_configuration stage s = evaluate_device_filters (
      with_configuration (elim stage [ none ↦ make_multi_stage [] | some m ↦ m ])
        (flush (release_all_keys s)))

  unfoldable pub set_device_descs : List DeviceDesc → ServerState → ServerState
  set_device_descs descs s = evaluate_device_filters (record s { device_descs = descs })
