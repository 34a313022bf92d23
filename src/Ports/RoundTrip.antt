-- ===== src/Ports/RoundTrip.antt =====
-- src/client/ServerPort.cpp and src/server/ClientPort.cpp: the calls that a message leads to on the other
-- side, alone and in a stream.
use Prim.Native.String.{String}
use mathlib.Core.List.{append-nil}
use keymapper.Prelude.{
  ℕ, ◌<◌, ◌≡◌, refl, inl, ap, subst, ℤ, some, List, [], ◌∷◌, ◌++◌, map, length, arith, All,
}
use keymapper.Key.{Key}
use keymapper.KeyEvent.{KeyState, state_value, state_of, state_of-value}
use keymapper.Filter.{GrabDeviceFilter}
use keymapper.Stage.Setup.{DeviceDesc}
use keymapper.MultiStage.{make_multi_stage}
use keymapper.Config
use keymapper.Connection.{
  Bytes, Reader, read_int, read_number, write_int, write_number, write_string, write_vector, ◌>>=◌,
}
use keymapper.Connection.Reads.{
  IsInt32, IsSize, Reads, at_last, nothing_read, read_all-Reads, read_bool-Reads, read_int-Reads,
  read_string-Reads, read_u16-Reads, read_u8-Reads, read_vector-Reads, bind-Reads,
}
use keymapper.Connection.Frames.{read_pieces, stream_of, joined, read_pieces-stream}
use keymapper.Ports.Encoding.{
  StdRegex, bytes_of, read_active_contexts, read_directives, read_grab_device_filters, string_of,
  write_active_contexts, write_contexts, write_directives, write_grab_device_filters,
}
use keymapper.Ports.Messages.{
  ClientCall, ClientMessage, ServerCall, ServerMessage, on_active_contexts, on_configuration,
  on_directives, on_execute_action, on_grab_device_filters, on_inject_input, on_inject_output,
  on_next_key_info, on_request_next_key_info, on_set_virtual_key_state, on_validate_state,
  on_virtual_key_state, read_client_calls, read_client_message, read_configuration,
  read_next_key_info, read_server_calls, read_server_message, read_set_virtual_key_state,
  read_virtual_key_state, send_active_contexts, send_config, send_inject_input, send_inject_output,
  send_next_key_info, send_request_next_key_info, send_set_virtual_key_state, send_triggered_action,
  send_validate_state, send_virtual_key_state, write_client_message, write_server_message,
}
use keymapper.Ports.Reads.{
  IsByteString, IsWireFilter, IsWireSequence, read_filter-Reads, read_key_sequence-Reads,
  read_same-Reads, read_through, sent_filter, state_value_lt, string_of-bytes_of,
}
use keymapper.Ports.Contexts.{IsWireContext, read_stages-Reads, sent_stages, split_stages}

-- A sequence of at most 2³² - 1 elements of which each can be written.
abbrev pub AllSized {ℓ} : {A : Type ℓ} → (A → Type 0) → List A → Type 0
AllSized P xs = IsSize (length xs) × All P xs

abbrev pub IsWireMessage : StdRegex → ClientMessage → Type 0
IsWireMessage std_regex (send_config filters contexts directives) =
    AllSized (λ (f : GrabDeviceFilter). IsWireFilter std_regex f.filter) filters
    × AllSized (IsWireContext std_regex) contexts
    × AllSized IsByteString directives
IsWireMessage std_regex (send_active_contexts indices) = AllSized IsInt32 indices
IsWireMessage std_regex (send_set_virtual_key_state key state) = key < 65536
IsWireMessage std_regex (send_inject_input sequence) = IsWireSequence sequence
IsWireMessage std_regex (send_inject_output sequence) = IsWireSequence sequence
IsWireMessage std_regex _ = Unit

abbrev sent_grab_filter : StdRegex → GrabDeviceFilter → GrabDeviceFilter
sent_grab_filter std_regex f = record { filter = sent_filter std_regex f.filter; by_id = f.by_id }

-- What the server is called with for a message of the client.
abbrev pub server_calls : StdRegex → ClientMessage → List ServerCall
server_calls std_regex (send_config filters contexts directives) =
    on_grab_device_filters (map (sent_grab_filter std_regex) filters)
    ∷ on_configuration (make_multi_stage (sent_stages std_regex (split_stages contexts)))
    ∷ on_directives directives
    ∷ []
server_calls std_regex (send_active_contexts indices) = on_active_contexts indices ∷ []
server_calls std_regex send_validate_state = on_validate_state ∷ []
server_calls std_regex (send_set_virtual_key_state key state) =
    on_set_virtual_key_state key state ∷ []
server_calls std_regex send_request_next_key_info = on_request_next_key_info ∷ []
server_calls std_regex (send_inject_input sequence) = on_inject_input sequence ∷ []
server_calls std_regex (send_inject_output sequence) = on_inject_output sequence ∷ []

-- A message that is a type and no more.
type_only :
    {A B : Type 0} {m : Reader A} (f : A → Reader B) {w : Bytes} {a : A} {b : B}
    → Reads m w a
    → Reads (f a) [] b
    → Reads (m >>= f) w b
type_only {m = m} f {w} {b = b} h k =
    subst (λ (v : Bytes). Reads (m >>= f) v b) (append-nil w) (bind-Reads f h k)

read_grab_device_filters-Reads :
    (std_regex : StdRegex) (filters : List GrabDeviceFilter)
    → AllSized (λ (f : GrabDeviceFilter). IsWireFilter std_regex f.filter) filters
    → Reads
        (read_grab_device_filters std_regex)
        (write_grab_device_filters filters)
        (map (sent_grab_filter std_regex) filters)
unfolding read_grab_device_filters write_grab_device_filters
read_grab_device_filters-Reads std_regex filters h =
    read_all-Reads _ _ _ (sent_grab_filter std_regex)
      (λ f valid.
        bind-Reads _ (read_filter-Reads std_regex f.filter valid)
          (at_last _ (read_bool-Reads f.by_id)))
      filters h.0 h.1

read_directives-Reads :
    (directives : List String)
    → AllSized IsByteString directives
    → Reads read_directives (write_directives directives) directives
unfolding read_directives write_directives
read_directives-Reads directives h =
    read_same-Reads IsByteString _ _
      (λ s valid.
        read_through string_of (string_of-bytes_of s valid.0)
          (read_string-Reads (bytes_of s) valid.1))
      directives h.0 h.1

read_configuration-Reads :
    (std_regex : StdRegex) (filters : List GrabDeviceFilter) (contexts : List Config.Context)
    (directives : List String)
    → IsWireMessage std_regex (send_config filters contexts directives)
    → Reads
        (read_configuration std_regex)
        (write_grab_device_filters filters
          ++ (write_contexts contexts ++ write_directives directives))
        (server_calls std_regex (send_config filters contexts directives))
unfolding read_configuration
read_configuration-Reads std_regex filters contexts directives h =
    bind-Reads _ (read_grab_device_filters-Reads std_regex filters h.0) (
      bind-Reads _ (read_stages-Reads std_regex contexts h.1.0 h.1.1)
        (at_last _ (read_directives-Reads directives h.2)))

read_state-Reads :
    (s : KeyState) → Reads (read_number 2) (write_number 2 (state_value s)) (state_value s)
read_state-Reads s = read_u16-Reads (state_value s) (omega (arith, state_value_lt s))

read_active_contexts-Reads :
    (indices : List ℤ)
    → AllSized IsInt32 indices
    → Reads read_active_contexts (write_active_contexts indices) indices
unfolding read_active_contexts write_active_contexts
read_active_contexts-Reads indices h =
    read_same-Reads IsInt32 read_int write_int read_int-Reads indices h.0 h.1

read_set_virtual_key_state-Reads :
    (key : Key) (state : KeyState)
    → key < 65536
    → Reads read_set_virtual_key_state
        (write_number 2 key ++ write_number 2 (state_value state))
        (on_set_virtual_key_state key state ∷ [])
unfolding read_set_virtual_key_state
read_set_virtual_key_state-Reads key state h = bind-Reads _ (read_u16-Reads key h) (
    read_through (λ (n : ℕ). on_set_virtual_key_state key (state_of n) ∷ [])
      (ap (λ (s : KeyState). on_set_virtual_key_state key s ∷ []) (state_of-value state))
      (read_state-Reads state))

read_client_message-Reads :
    (std_regex : StdRegex) (m : ClientMessage)
    → IsWireMessage std_regex m
    → Reads (read_client_message std_regex) (write_client_message m) (server_calls std_regex m)
unfolding read_client_message write_client_message read_server_calls
read_client_message-Reads std_regex (send_config filters contexts directives) h =
    bind-Reads _ (read_u8-Reads 1 (omega arith))
      (read_configuration-Reads std_regex filters contexts directives h)
read_client_message-Reads std_regex (send_active_contexts indices) h =
    bind-Reads _ (read_u8-Reads 2 (omega arith)) (at_last _ (read_active_contexts-Reads indices h))
read_client_message-Reads std_regex send_validate_state h =
    type_only _ (read_u8-Reads 3 (omega arith)) nothing_read
read_client_message-Reads std_regex (send_set_virtual_key_state key state) h =
    bind-Reads _ (read_u8-Reads 7 (omega arith)) (read_set_virtual_key_state-Reads key state h)
read_client_message-Reads std_regex send_request_next_key_info h =
    type_only _ (read_u8-Reads 11 (omega arith)) nothing_read
read_client_message-Reads std_regex (send_inject_input sequence) h =
    bind-Reads _ (read_u8-Reads 12 (omega arith)) (at_last _ (read_key_sequence-Reads sequence h))
read_client_message-Reads std_regex (send_inject_output sequence) h =
    bind-Reads _ (read_u8-Reads 13 (omega arith)) (at_last _ (read_key_sequence-Reads sequence h))

-- What the client writes for a message the server reads as the calls for it, and leaves what is behind
-- it: the configuration with its contexts split into stages where one has the mark, the regular
-- expressions of filters made anew, and all else as it was. The message is one that can be written: its
-- sizes are below 2³², its keys below 2¹⁶, its values below 2¹², its texts bytes, its numbers `int32_t`,
-- and std::regex accepts the regular expressions of its filters.
pub read-write_client_message :
    (std_regex : StdRegex) (m : ClientMessage) (rest : Bytes)
    → IsWireMessage std_regex m
    → read_client_message std_regex (write_client_message m ++ rest)
      ≡ some (server_calls std_regex m, rest)
read-write_client_message std_regex m rest h = (read_client_message-Reads std_regex m h).apply rest

-- A message of the client that also is not too long to be sent.
abbrev pub IsSendable : StdRegex → ClientMessage → Type 0
IsSendable std_regex m = IsWireMessage std_regex m × IsSize (length (write_client_message m))

-- The messages that the client sends one after another lead to the calls of the server for each of
-- them, in this order, however the stream of bytes is cut into the pieces that the server receives. The
-- messages are ones that can be written, and std::regex accepts the regular expressions of their filters.
pub server_receives-messages :
    (std_regex : StdRegex) (ms : List ClientMessage) (pieces : List Bytes)
    → All (IsSendable std_regex) ms
    → joined pieces ≡ stream_of write_client_message ms
    → read_pieces (read_client_message std_regex) [] pieces ≡ (map (server_calls std_regex) ms, [])
server_receives-messages std_regex ms pieces h e =
    read_pieces-stream (read_client_message std_regex) write_client_message (server_calls std_regex)
      (IsSendable std_regex) (λ m valid. (read_client_message-Reads std_regex m valid.0, valid.1))
      ms pieces [] h (inl refl) e

abbrev pub IsWireServerMessage : ServerMessage → Type 0
IsWireServerMessage (send_triggered_action action) = IsInt32 action
IsWireServerMessage (send_virtual_key_state key state) = key < 65536
IsWireServerMessage (send_next_key_info keys device) =
    AllSized (λ (key : Key). key < 65536) keys × IsByteString device.name × IsByteString device.id

-- What the client is called with for a message of the server.
abbrev pub client_calls : ServerMessage → List ClientCall
client_calls (send_triggered_action action) = on_execute_action action ∷ []
client_calls (send_virtual_key_state key state) = on_virtual_key_state key state ∷ []
client_calls (send_next_key_info keys device) = on_next_key_info keys device ∷ []

read_virtual_key_state-Reads :
    (key : Key) (state : KeyState)
    → key < 65536
    → Reads read_virtual_key_state
        (write_number 2 key ++ write_number 2 (state_value state))
        (on_virtual_key_state key state ∷ [])
unfolding read_virtual_key_state
read_virtual_key_state-Reads key state h = bind-Reads _ (read_u16-Reads key h) (
    read_through (λ (n : ℕ). on_virtual_key_state key (state_of n) ∷ [])
      (ap (λ (s : KeyState). on_virtual_key_state key s ∷ []) (state_of-value state))
      (read_state-Reads state))

read_next_key_info-Reads :
    (keys : List Key) (device : DeviceDesc)
    → IsWireServerMessage (send_next_key_info keys device)
    → Reads read_next_key_info
        (write_vector 2 keys
          ++ (write_string (bytes_of device.name) ++ write_string (bytes_of device.id)))
        (on_next_key_info keys device ∷ [])
unfolding read_next_key_info
read_next_key_info-Reads keys device h = bind-Reads _ (read_vector-Reads keys h.0.0 h.0.1) (
    bind-Reads _ (read_string-Reads (bytes_of device.name) h.1.1) (
      read_through _
        (same (string_of-bytes_of device.name h.1.0) (string_of-bytes_of device.id h.2.0))
        (read_string-Reads (bytes_of device.id) h.2.1)))
  where
    same :
        {name id : String}
        → name ≡ device.name
        → id ≡ device.id
        → on_next_key_info keys (record { name = name; id = id }) ∷ []
          ≡ on_next_key_info keys device ∷ []
    same p q = cc

read_server_message-Reads :
    (m : ServerMessage)
    → IsWireServerMessage m
    → Reads read_server_message (write_server_message m) (client_calls m)
unfolding read_server_message write_server_message read_client_calls
read_server_message-Reads (send_triggered_action action) h =
    bind-Reads _ (read_u8-Reads 4 (omega arith)) (at_last _ (read_int-Reads action h))
read_server_message-Reads (send_virtual_key_state key state) h =
    bind-Reads _ (read_u8-Reads 5 (omega arith)) (read_virtual_key_state-Reads key state h)
read_server_message-Reads (send_next_key_info keys device) h =
    bind-Reads _ (read_u8-Reads 11 (omega arith)) (read_next_key_info-Reads keys device h)

-- What the server writes for a message the client reads as the call for it, with what was written, and
-- leaves what is behind it: a triggered action, the state of a virtual key, or the keys that were
-- pressed with the description of their device. The message is one that can be written.
pub read-write_server_message :
    (m : ServerMessage) (rest : Bytes)
    → IsWireServerMessage m
    → read_server_message (write_server_message m ++ rest) ≡ some (client_calls m, rest)
read-write_server_message m rest h = (read_server_message-Reads m h).apply rest
