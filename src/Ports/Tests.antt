-- ===== src/Ports/Tests.antt =====
-- Messages between client and server.
use keymapper.Prelude.{
  ◌≡◌, refl, pos, negsuc, true, false, List, [], ◌∷◌, ◌++◌, none, some, map, arith,
}
use keymapper.KeyEvent.{up, down, key_event}
use keymapper.Filter.{Filter}
use keymapper.Config
use keymapper.Connection.{
  Bytes, number_bytes, write_number, write_each, write_all, write_int, send_message,
}
use keymapper.Connection.Frames.{read_pieces}
use keymapper.Ports.Encoding.{StdRegex, is_regex, parse_regex, write_active_contexts}
use keymapper.Ports.Messages.{
  ClientMessage, read_client_message, read_server_message, send_active_contexts, send_config,
  send_next_key_info, send_set_virtual_key_state, write_client_message, write_server_message,
}
use keymapper.Ports.Contexts.{IsWireContext}
use keymapper.Ports.RoundTrip.{
  IsWireMessage, client_calls, read-write_client_message, read-write_server_message, server_calls,
  server_receives-messages,
}

abbrev no_regex : StdRegex
no_regex pattern ignore_case = some (λ text. false)

abbrev no_filter : Filter
no_filter = record { string = ""; regex = none; invert = false }

-- A maps to B, in a stage of its own.
abbrev context : Config.Context
context = record {
  window_class_filter = no_filter;
  window_title_filter = no_filter;
  window_path_filter = no_filter;
  device_filter = record { string = "/mouse/"; regex = none; invert = true };
  device_id_filter = no_filter;
  modifier_filter = [];
  inputs = record { input = key_event 30 down ∷ []; output_index = pos 0 } ∷ [];
  outputs = (key_event 48 down ∷ []) ∷ [];
  command_outputs = record { output = []; index = negsuc 0 } ∷ [];
  system_filter_matched = true;
  invert_modifier_filter = false;
  fallthrough = false;
  begin_stage = true;
}

abbrev configuration : ClientMessage
configuration =
    send_config (record { filter = no_filter; by_id = true } ∷ []) (context ∷ context ∷ [])
      ("a" ∷ [])

configuration-IsWireMessage : IsWireMessage no_regex configuration
unfolding is_regex parse_regex
configuration-IsWireMessage = (
  (omega arith, ((omega arith, refl), tt)),
  (omega arith, (context-IsWireContext, (context-IsWireContext, tt))),
  (omega arith, omega arith),
)
  where
    context-IsWireContext : IsWireContext no_regex context
    context-IsWireContext = record {
      inputs = omega arith;
      outputs = omega arith;
      commands = omega arith;
      device = (omega arith, refl);
      device_id = (omega arith, refl);
      modifiers = omega arith;
    }

read-write_client_message_example :
    read_client_message no_regex (write_client_message configuration ++ 1 ∷ [])
    ≡ some (server_calls no_regex configuration, 1 ∷ [])
read-write_client_message_example =
    read-write_client_message no_regex configuration (1 ∷ []) configuration-IsWireMessage

abbrev messages : List ClientMessage
messages = send_set_virtual_key_state 62976 up ∷ send_active_contexts (pos 1 ∷ []) ∷ []

abbrev pieces : List Bytes
pieces =
    (5 ∷ 0 ∷ 0 ∷ 0 ∷ 7 ∷ 0 ∷ 246 ∷ 0 ∷ [])
    ∷ (0 ∷ 9 ∷ 0 ∷ 0 ∷ 0 ∷ 2 ∷ 1 ∷ 0 ∷ 0 ∷ 0 ∷ 1 ∷ 0 ∷ 0 ∷ [])
    ∷ (0 ∷ [])
    ∷ []

server_receives-messages_example :
    read_pieces (read_client_message no_regex) [] pieces
    ≡ (map (server_calls no_regex) messages, [])
unfolding write_each send_message write_client_message write_number number_bytes
    write_active_contexts write_all write_int
server_receives-messages_example =
    server_receives-messages no_regex messages pieces (omega arith) refl

read-write_server_message_example :
    read_server_message
      (write_server_message (send_next_key_info (30 ∷ []) (record { name = "a"; id = "" })) ++ [])
    ≡ some (client_calls (send_next_key_info (30 ∷ []) (record { name = "a"; id = "" })), [])
read-write_server_message_example =
    read-write_server_message (send_next_key_info (30 ∷ []) (record { name = "a"; id = "" })) []
      (omega arith)

-- `/i` is taken for a regular expression, of which nothing is left to be made one.
slash_and_flag : (is_regex (47 ∷ 105 ∷ []) ≡ true) × (parse_regex no_regex (47 ∷ 105 ∷ []) ≡ none)
unfolding is_regex parse_regex
slash_and_flag = (refl, refl)
