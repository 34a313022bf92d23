-- ===== src/Lib.antt =====
-- keymapper: a mapper of key events that runs as a client, which reads the configuration and watches
-- the focused window, and a server, which grabs the devices and translates their events.
--
-- The development models the server's core under src/runtime, the server's state around it, the parser
-- of key sequences, the core of the client's state, and what the client and the server send each other:
--   Prelude          Booleans, lists, options and integers that the modules share
--   Key              src/runtime/Key.h: keys are their scan codes, with the predicates on them
--   KeyEvent         src/runtime/KeyEvent.h: the state, the key and the value of an event
--   Timeout          src/runtime/Timeout.h: timeouts as 12-bit values of an event
--   Filter           src/common/Filter.h: the filters on devices and windows
--   MatchKeySequence src/runtime/MatchKeySequence.cpp: an expression of a mapping against the events
--                    that have arrived. `match_round` is one round of its loop
--   Stage            src/runtime/Stage.h and .cpp, the translation of events by the mappings of the
--                    active contexts. `Stage` is the class, and each method of it a function on it:
--                    Stage/State      the record of the members, and the contexts
--                    Stage/Sequences  the functions on sequences in front of the class
--                    Stage/Outputs    update_output, apply_output, release_triggered,
--                                     update_virtual_key, continue_output_on_release
--                    Stage/Setup      the constructor and the device filters
--                    Stage/Contexts   set_active_client_contexts, update_active_contexts, find_output
--                    Stage/History    the history for the no-might-match mappings
--                    Stage/Inputs     match_input, forward_from_sequence
--                    Stage/Update     the loop of apply_input, a round of which is `iterate`
--                    Stage/Apply      apply_input around the loop, advance_exit_sequence, update
--                    Stage/Validate   validate_state, is_clear, get_output_keys_down
--   MultiStage       src/runtime/MultiStage.cpp: stages one behind the other
--   StringIteration  src/config/string_iteration.h: how the parsers read a text from its front;
--                    StringIteration/Commands has what looks past strings, commands and argument lists
--   ParseKeySequence src/config/ParseKeySequence.cpp and .h: the expression of an input or an output as
--                    a sequence of events.
--                    ParseKeySequence/Parser   the members of the class, and the methods on them
--                    ParseKeySequence/Strings  names of keys, strings to type, and commands
--                    ParseKeySequence/Steps    a branch of the loop's body for each token
--                    ParseKeySequence/Parse    the loop of parse, and the checks behind it
--   Connection       src/common/Connection.h: the serializer, the deserializer, send_message and
--                    read_messages on the bytes that have arrived
--   Config           src/config/Config.h: the configuration, with the window filters of a context
--   Ports            the messages: src/common/MessageType.h (Ports/MessageType), and both their
--                    writing and their reading in src/client/ServerPort.cpp and
--                    src/server/ClientPort.cpp (Ports/Encoding the parts, Ports/Messages the whole)
--   ServerState      src/server/ServerState.h and .cpp, without the code for Windows.
--                    ServerState/State     the members, the timeouts and the configuration
--                    ServerState/Input     translate_input and set_virtual_key_state
--                    ServerState/Flush     flush_send_buffer
--                    ServerState/Requests  the handlers of the client's messages
--   ClientState      src/client/ClientState.h and .cpp: the active contexts, the sending of the
--                    configuration, actions, and the sequences that are injected
-- The modules below these hold the theorems, under what they are about.
--
-- ClientState finds the contexts that match the focused window, and toggles them off and on. The client
-- sends the server its configuration, as the stages of a MultiStage, and later which of its
-- contexts are active, as messages that Ports encodes and Connection frames; the server's ClientPort
-- turns each message into a call of a handler of ServerState. ServerState keeps the MultiStage, the
-- buffer of the events to send, the timeout that is pending and the virtual keys that are down. It
-- passes each event of a device to MultiStage, which passes it to its first stage and the
-- output of each stage to the next one. A stage appends the event to its sequence, matches the sequence
-- against the mappings of the active contexts, and either holds the sequence back, since a mapping
-- might match, or applies the output of the mapping that matches, or forwards the start of the
-- sequence. What it presses it keeps in `output_down`, with the trigger at whose release it releases it.
--
-- A method that changes an object returns the changed object. Time is an argument, in milliseconds,
-- where the code reads the clock. `int` values for which -1 and -2 are marks are integers; bit masks
-- of devices are natural numbers. A number that a parser reads keeps the 32 bits of its `int`. A
-- pointer to an output of a context is the context with the index of the output, and a pointer to an
-- input is the sequence. Iterators are the places of lists.
--
-- Loops that are not over a list run on fuel. The matcher gets one round more than its two ranges have
-- events, since a round consumes an event of one of them; the loop of `apply_input` two rounds for
-- each event of the sequence and two more, since a round marks or removes an event or lets matched
-- events be optional; the loop of `continue_output_on_release` a round for each entry, of which a
-- round removes one, and one more; the loop of `clean_up_history` one round more than the history has
-- events, of which a round removes one. The loop of `parse` gets a round more than the text has
-- characters, since a round shortens the text or ends the loop, and the one of `read_messages` a round
-- more than the buffer has bytes. The loops that look past strings and brackets get a round more than
-- the text has characters. The loop of `flush_send_buffer` recurs on the events left to send and
-- on the virtual keys left to toggle, which are nine at most, as in the code.
--
-- What is not in the repository, or is a platform's, is a parameter. A regular expression of a filter is
-- its search as a test on texts, for std::regex_search, and the messages take the construction of such
-- an expression from a pattern, for std::regex, which may throw: a read of a message is an Option, which
-- is `none` where an exception is thrown. The parser of key sequences takes the names of keys, the
-- string typer of the platform and the function that adds a terminal command, which may look at the
-- calls it had before. ServerState takes the methods that a platform overrides, whose results may
-- depend on what was done, and records what it does to the outside as a list of effects; ClientState
-- takes the success of sending likewise, and the focused window where the code detects its change.
--
-- Not modelled: the parser of configuration files and the table of the keys' names under src/config,
-- the client's configuration files and settings, the control program with its ports, the sockets and the
-- handshake of src/common/Host.cpp, and the code of the platforms. The assertions of the code are
-- hypotheses where a theorem needs them.
mod Prelude
pub mod Key
pub mod KeyEvent
pub mod Timeout
pub mod MatchKeySequence
pub mod Filter
pub mod Stage
pub mod MultiStage
pub mod StringIteration
pub mod ParseKeySequence
pub mod Connection
pub mod Config
pub mod Ports
pub mod ServerState
pub mod ClientState
