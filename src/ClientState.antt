-- ===== src/ClientState.antt =====
-- src/client/ClientState.h and .cpp: the contexts that are active, the configuration that is sent, and
-- the sequences that are injected. What is sent and called is recorded in the order in which it is. The
-- class, the title and the path of the focused window are arguments where the code detects them.
pub mod Sequences
pub mod Contexts
mod Tests
use Prim.Native.String.{String}
use keymapper.Prelude.{
  ℕ, suc, Bool, true, false, List, [], ◌∷◌, ◌++◌, Option, none, some, ◌==◌, if◌then◌else◌, ◌&&◌,
  negate, is_empty, push, any, get_elem?, map, contains, remove_first,
}
use keymapper.Key
use keymapper.Key.{Key}
use keymapper.KeyEvent.{up, down, KeyEvent, KeySequence, key_event, state_eq}
use keymapper.StringIteration.{Text}
use keymapper.ParseKeySequence.Steps.{Environment}
use keymapper.ParseKeySequence.Parse.{parsed, failed, call}
use keymapper.Config
use keymapper.Config.{Config, Context, Action, ActionType, terminal_command, toggle_active_action}

abbrev replace_key : Key → Key → KeyEvent → KeyEvent
replace_key logical key event = if event.key == logical then record event { key = key } else event

abbrev pub replace_logical_key : KeyEvent → KeyEvent
replace_logical_key event =
    replace_key Key.meta Key.meta_left
      (replace_key Key.control Key.control_left (replace_key Key.shift Key.shift_left event))

unfoldable pub replace_logical_keys : KeySequence → KeySequence
replace_logical_keys sequence = map replace_logical_key sequence

-- The body of the loop of `ensure_all_keys_up`.
abbrev pub track_key : List Key → KeyEvent → List Key
track_key keys_down event =
    if state_eq event.state down && negate (contains event.key keys_down)
    then push keys_down event.key
    else if state_eq event.state up && contains event.key keys_down
    then remove_first (λ (key : Key). key == event.key) keys_down
    else keys_down

unfoldable pub track_keys : List Key → KeySequence → List Key
track_keys keys_down [] = keys_down
track_keys keys_down (event ∷ sequence) = track_keys (track_key keys_down event) sequence

unfoldable pub ensure_all_keys_up : KeySequence → KeySequence
ensure_all_keys_up sequence =
    sequence ++ map (λ (key : Key). key_event key up) (track_keys [] sequence)

pub record Window : Type 0 where
  pub window_class : String
  pub window_title : String
  pub window_path : String

pub data Effect : Type 0 where
  sent_config : Config → Effect
  set_virtual_key_aliases : List (String × Key) → Effect
  sent_active_contexts : List ℕ → Effect
  sent_inject_input sent_inject_output : KeySequence → Effect
  executed_terminal_command : String → Effect
  active_toggled : Bool → Effect

pub record ClientState : Type 0 where
  pub config : Config
  pub focused_window : Window
  pub active_contexts : List ℕ
  pub active : Bool
  pub effects : List Effect

-- What the code cannot decide by itself: whether the server's port succeeds in sending.
pub record Server : Type 0 where
  pub sends : List Effect → Bool

abbrev pub record_effect : Effect → ClientState → ClientState
record_effect effect s = record s { effects = push s.effects effect }

abbrev is_toggle_active : Action → Bool
is_toggle_active action = elim action.type [
  | toggle_active_action ↦ true
  | terminal_command ↦ false
]

unfoldable pub has_toggle_active_action : Config → Bool
has_toggle_active_action config = any (λ action. is_toggle_active action) config.actions

-- The indices, from `i` on, of the contexts that match the window.
unfoldable pub matching_contexts : ℕ → Window → List Context → List ℕ
matching_contexts i window [] = []
matching_contexts i window (context ∷ contexts) =
    let rest = matching_contexts (suc i) window contexts in
    if Config.matches context window.window_class window.window_title window.window_path
    then i ∷ rest
    else rest

unfoldable pub clear_active_contexts : ClientState → ClientState
clear_active_contexts s = record s {
  active_contexts = if has_toggle_active_action s.config then 0 ∷ [] else [];
}

abbrev pub same_contexts : List ℕ → List ℕ → Bool
same_contexts [] [] = true
same_contexts (a ∷ left) (b ∷ right) = a == b && same_contexts left right
same_contexts _ _ = false

-- From the window that is focused on.
abbrev pub evaluate_contexts : ClientState → Bool × ClientState
evaluate_contexts s =
    let contexts = matching_contexts 0 s.focused_window s.config.contexts in
    if same_contexts contexts s.active_contexts
    then (false, s)
    else (true, record s { active_contexts = contexts })

-- `update` is the focused window when it is detected to have changed.
unfoldable pub update_active_contexts : Option Window → Bool → ClientState → Bool × ClientState
update_active_contexts update force s = if negate s.active then (false, s) else elim update [
  | some window ↦ evaluate_contexts (record s { focused_window = window })
  | none ↦
      if negate (is_empty s.active_contexts) && negate force
      then (false, s)
      else evaluate_contexts s
]

unfoldable pub send_active_contexts : Server → ClientState → Bool × ClientState
send_active_contexts server s =
    (server.sends s.effects, record_effect (sent_active_contexts s.active_contexts) s)

unfoldable pub send_config : Server → Option Window → ClientState → Bool × ClientState
send_config server update s =
    let sent = record_effect (sent_config s.config) s in
    if negate (server.sends s.effects)
    then (false, sent)
    else (let cleared =
          clear_active_contexts
            (record_effect (set_virtual_key_aliases s.config.virtual_key_aliases) sent) in
        (
          true,
          if cleared.active
              then (send_active_contexts server (update_active_contexts update true cleared).1).1
              else cleared,
        ))

unfoldable pub toggle_active : Server → Option Window → ClientState → ClientState
toggle_active server update s =
    let toggled = record s { active = negate s.active } in
    let ready =
      if toggled.active
      then (update_active_contexts update true toggled).1
      else clear_active_contexts toggled in
    record_effect (active_toggled toggled.active) (send_active_contexts server ready).1

unfoldable pub execute_action : Server → Option Window → Action → ClientState → ClientState
execute_action server update action s = elim action.type [
  | terminal_command ↦ record_effect (executed_terminal_command action.value) s
  | toggle_active_action ↦ toggle_active server update s
]

-- The index is not negative.
unfoldable pub on_execute_action_message : Server → Option Window → ℕ → ClientState → ClientState
on_execute_action_message server update triggered_action s =
    elim (get_elem? s.config.actions triggered_action) [
      | none ↦ s
      | some action ↦ execute_action server update action s
    ]

-- The parser is called for an output and without terminal commands.
abbrev pub for_injection : Environment → Environment
for_injection e = record e { is_input = false; add_terminal_command = none }

abbrev pub injected : KeySequence → KeySequence
injected sequence = ensure_all_keys_up (replace_logical_keys sequence)

unfoldable pub on_inject_input_message :
    Server → Environment → Text → ClientState → Bool × ClientState
on_inject_input_message server e string s = elim (call (for_injection e) string) [
  | parsed sequence ↦
      (server.sends s.effects, record_effect (sent_inject_input (injected sequence)) s)
  | failed error ↦ (false, s)
]

unfoldable pub on_inject_output_message :
    Server → Environment → Text → ClientState → Bool × ClientState
on_inject_output_message server e string s = elim (call (for_injection e) string) [
  | parsed sequence ↦
      (server.sends s.effects, record_effect (sent_inject_output (injected sequence)) s)
  | failed error ↦ (false, s)
]

-- The overload for a single event.
unfoldable pub on_inject_output_event : Server → KeyEvent → ClientState → Bool × ClientState
on_inject_output_event server event s = (
  server.sends s.effects,
  record_effect (sent_inject_output (replace_logical_keys (event ∷ []))) s,
)
