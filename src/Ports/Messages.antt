-- ===== src/Ports/Messages.antt =====
-- src/client/ServerPort.cpp and src/server/ClientPort.cpp: the messages, what is sent for each of them,
-- and the calls of the handler that receives them.
use Prim.Native.String.{String}
use keymapper.Prelude.{ℕ, ℤ, List, [], ◌∷◌, ◌++◌, ◌==◌, if◌then◌else◌}
use keymapper.Key.{Key}
use keymapper.KeyEvent.{KeyState, KeySequence, state_value, state_of}
use keymapper.Filter.{GrabDeviceFilter}
use keymapper.Stage.Setup.{DeviceDesc}
use keymapper.MultiStage.{MultiStage}
use keymapper.Config
use keymapper.Connection.{
  Bytes, Reader, ◌>>=◌, pure, write_number, read_number, write_int, read_int, write_string,
  read_string, write_vector, read_vector,
}
use keymapper.Ports.MessageType
use keymapper.Ports.Encoding.{
  StdRegex, bytes_of, read_active_contexts, read_directives, read_grab_device_filters,
  read_key_sequence, read_stages, string_of, write_active_contexts, write_contexts,
  write_directives, write_grab_device_filters, write_key_sequence,
}

-- The `send_` methods of ServerPort, with their arguments.
pub data ClientMessage : Type 0 where
  send_config : List GrabDeviceFilter → List Config.Context → List String → ClientMessage
  send_active_contexts : List ℤ → ClientMessage
  send_validate_state : ClientMessage
  send_set_virtual_key_state : Key → KeyState → ClientMessage
  send_request_next_key_info : ClientMessage
  send_inject_input : KeySequence → ClientMessage
  send_inject_output : KeySequence → ClientMessage

abbrev pub write_type : ℕ → Bytes
write_type = write_number 1

unfoldable pub write_client_message : ClientMessage → Bytes
write_client_message (send_config filters contexts directives) =
    write_type MessageType.configuration
    ++ (write_grab_device_filters filters
        ++ (write_contexts contexts ++ write_directives directives))
write_client_message (send_active_contexts indices) =
    write_type MessageType.active_contexts ++ write_active_contexts indices
write_client_message send_validate_state = write_type MessageType.validate_state
write_client_message (send_set_virtual_key_state key state) =
    write_type MessageType.set_virtual_key_state
    ++ (write_number 2 key ++ write_number 2 (state_value state))
write_client_message send_request_next_key_info = write_type MessageType.next_key_info
write_client_message (send_inject_input sequence) =
    write_type MessageType.inject_input ++ write_key_sequence sequence
write_client_message (send_inject_output sequence) =
    write_type MessageType.inject_output ++ write_key_sequence sequence

-- The calls of the handler of a server.
pub data ServerCall : Type 0 where
  on_grab_device_filters : List GrabDeviceFilter → ServerCall
  on_configuration : MultiStage → ServerCall
  on_directives : List String → ServerCall
  on_active_contexts : List ℤ → ServerCall
  on_set_virtual_key_state : Key → KeyState → ServerCall
  on_validate_state : ServerCall
  on_request_next_key_info : ServerCall
  on_inject_input : KeySequence → ServerCall
  on_inject_output : KeySequence → ServerCall

unfoldable pub read_configuration : StdRegex → Reader (List ServerCall)
read_configuration std_regex = read_grab_device_filters std_regex >>= λ filters.
    read_stages std_regex >>= λ stages. read_directives >>= λ directives.
    pure (on_grab_device_filters filters ∷ on_configuration stages ∷ on_directives directives ∷ [])

unfoldable pub read_set_virtual_key_state : Reader (List ServerCall)
read_set_virtual_key_state = read_number 2 >>= λ key.
    read_number 2 >>= λ state. pure (on_set_virtual_key_state key (state_of state) ∷ [])

-- The body of the `switch` of ClientPort. A message of another type makes no call.
unfoldable pub read_server_calls : StdRegex → ℕ → Reader (List ServerCall)
read_server_calls std_regex message_type =
    if message_type == MessageType.configuration
    then read_configuration std_regex
    else if message_type == MessageType.active_contexts
    then (read_active_contexts >>= λ indices. pure (on_active_contexts indices ∷ []))
    else if message_type == MessageType.set_virtual_key_state
    then read_set_virtual_key_state
    else if message_type == MessageType.validate_state
    then pure (on_validate_state ∷ [])
    else if message_type == MessageType.next_key_info
    then pure (on_request_next_key_info ∷ [])
    else if message_type == MessageType.inject_input
    then (read_key_sequence >>= λ sequence. pure (on_inject_input sequence ∷ []))
    else if message_type == MessageType.inject_output
    then (read_key_sequence >>= λ sequence. pure (on_inject_output sequence ∷ []))
    else pure []

unfoldable pub read_client_message : StdRegex → Reader (List ServerCall)
read_client_message std_regex =
    read_number 1 >>= λ message_type. read_server_calls std_regex message_type

-- The `send_` methods of ClientPort.
pub data ServerMessage : Type 0 where
  send_triggered_action : ℤ → ServerMessage
  send_virtual_key_state : Key → KeyState → ServerMessage
  send_next_key_info : List Key → DeviceDesc → ServerMessage

unfoldable pub write_server_message : ServerMessage → Bytes
write_server_message (send_triggered_action action) =
    write_type MessageType.execute_action ++ write_int action
write_server_message (send_virtual_key_state key state) =
    write_type MessageType.virtual_key_state
    ++ (write_number 2 key ++ write_number 2 (state_value state))
write_server_message (send_next_key_info keys device) =
    write_type MessageType.next_key_info
    ++ (write_vector 2 keys
        ++ (write_string (bytes_of device.name) ++ write_string (bytes_of device.id)))

-- The calls of the handler of a client.
pub data ClientCall : Type 0 where
  on_execute_action : ℤ → ClientCall
  on_virtual_key_state : Key → KeyState → ClientCall
  on_next_key_info : List Key → DeviceDesc → ClientCall

unfoldable pub read_next_key_info : Reader (List ClientCall)
read_next_key_info = read_vector 2 >>= λ keys. read_string >>= λ name. read_string >>= λ id.
    pure (on_next_key_info keys (record { name = string_of name; id = string_of id }) ∷ [])

unfoldable pub read_virtual_key_state : Reader (List ClientCall)
read_virtual_key_state = read_number 2 >>= λ key.
    read_number 2 >>= λ state. pure (on_virtual_key_state key (state_of state) ∷ [])

-- The body of the `switch` of ServerPort.
unfoldable pub read_client_calls : ℕ → Reader (List ClientCall)
read_client_calls message_type =
    if message_type == MessageType.execute_action
    then (read_int >>= λ action. pure (on_execute_action action ∷ []))
    else if message_type == MessageType.virtual_key_state
    then read_virtual_key_state
    else if message_type == MessageType.next_key_info
    then read_next_key_info
    else pure []

unfoldable pub read_server_message : Reader (List ClientCall)
read_server_message = read_number 1 >>= λ message_type. read_client_calls message_type
