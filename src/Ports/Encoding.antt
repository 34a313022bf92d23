-- ===== src/Ports/Encoding.antt =====
-- src/client/ServerPort.cpp and src/server/ClientPort.cpp: how the parts of messages are written and
-- read. A text is a list of characters, of which each is a byte of the `std::string`.
use Prim.Native.String.{String}
use Prim.Native.Char.{Char, char, code, IsScalar}
use keymapper.Prelude.{
  ℕ, zero, suc, ◌+◌, ◌-◌, ◌*◌, ◌/◌, ◌%◌, ◌<◌, ℤ, Bool, false, ◌&&◌, List, [], ◌∷◌, ◌++◌, Option,
  none, some, ◌==◌, leb, if◌then◌else◌, negate, length, is_empty, head_or, get_last?, tail,
  drop_last, get_elem?, push, arith,
}
use keymapper.KeyEvent.{KeyEvent, KeySequence, state_value, state_of}
use keymapper.Filter.{Filter, GrabDeviceFilter}
use keymapper.Stage.State.{Input, CommandOutput, Context, Stage, all_device_bits}
use keymapper.Stage.Setup.{make_stage}
use keymapper.MultiStage.{MultiStage, make_multi_stage}
use keymapper.Config
use keymapper.Connection.{
  Bytes, Reader, ◌>>=◌, pure, write_number, read_number, write_bool, read_bool, write_int, read_int,
  write_string, read_string, write_all, read_all, or_throw,
}

abbrev pub bytes_of : String → Bytes
bytes_of String.[] = []
bytes_of (String.◌∷◌ c s) = code c ∷ bytes_of s

pub byte-IsScalar : (n : ℕ) → n < 256 → IsScalar n
byte-IsScalar n h = ground arith

abbrev pub byte_char : ℕ → Char
byte_char n = char (n % 256) (byte-IsScalar (n % 256) (omega arith))

abbrev pub string_of : Bytes → String
string_of [] = String.[]
string_of (b ∷ bytes) = String.◌∷◌ (byte_char b) (string_of bytes)

-- The four bytes of an event as a number: the key, and the state and the value in the bits behind it.
abbrev pub event_bits : KeyEvent → ℕ
event_bits event = event.key + 65536 * (state_value event.state + 16 * event.value)

abbrev pub event_of_bits : ℕ → KeyEvent
event_of_bits n = record { key = n % 65536; state = state_of (n / 65536 % 16); value = n / 1048576 }

unfoldable pub write_event : KeyEvent → Bytes
write_event event = write_number 4 (event_bits event)

unfoldable pub read_event : Reader KeyEvent
read_event = read_number 4 >>= λ n. pure (event_of_bits n)

unfoldable pub write_key_sequence : KeySequence → Bytes
write_key_sequence = write_all write_event

unfoldable pub read_key_sequence : Reader KeySequence
read_key_sequence = read_all read_event

unfoldable pub write_filter : Filter → Bytes
write_filter filter = write_string (bytes_of filter.string) ++ write_bool filter.invert

abbrev holds : ℕ → Option ℕ → Bool
holds c none = false
holds c (some b) = b == c

-- src/common/parse_regex.h
unfoldable pub is_regex : Bytes → Bool
is_regex string =
    leb 2 (length string)
    && (head_or 0 string == b'/'
        && holds b'/'
            (get_elem? string (length string - (if holds b'i' (get_last? string) then 2 else 1))))

-- std::regex: the search for a pattern, with whether it ignores case, or `none` where the constructor
-- throws.
abbrev pub StdRegex : Type 0
StdRegex = String → Bool → Option (String → Bool)

-- Behind the first slash: the flag and the last slash are taken off. For `/i` the code takes off more
-- than there is, which is undefined: also `none`.
abbrev pub parse_pattern : StdRegex → Bool → Bytes → Option (String → Bool)
parse_pattern std_regex ignore_case string =
    let pattern = if ignore_case then drop_last string else string in
    if is_empty pattern then none else std_regex (string_of (drop_last pattern)) ignore_case

unfoldable pub parse_regex : StdRegex → Bytes → Option (String → Bool)
parse_regex std_regex string =
    parse_pattern std_regex (holds b'i' (get_last? (tail string))) (tail string)

abbrev pub with_regex : Filter → Option (String → Bool) → Option Filter
with_regex filter none = none
with_regex filter (some search) = some (record filter { regex = some search })

-- `none` where an exception is thrown.
abbrev pub received_filter : StdRegex → Bytes → Bool → Option Filter
received_filter std_regex string invert =
    let filter : Filter = record { string = string_of string; regex = none; invert = invert } in
    if is_regex string then with_regex filter (parse_regex std_regex string) else some filter

unfoldable pub read_filter : StdRegex → Reader Filter
read_filter std_regex = read_string >>= λ string.
    read_bool >>= λ invert. or_throw (received_filter std_regex string invert)

unfoldable pub write_input : Input → Bytes
write_input input = write_key_sequence input.input ++ write_int input.output_index

unfoldable pub read_input : Reader Input
read_input = read_key_sequence >>= λ input.
    read_int >>= λ index. pure (record { input = input; output_index = index })

unfoldable pub write_command : CommandOutput → Bytes
write_command command = write_key_sequence command.output ++ write_int command.index

unfoldable pub read_command : Reader CommandOutput
read_command = read_key_sequence >>= λ output.
    read_int >>= λ index. pure (record { output = output; index = index })

-- The body of the loop of `write_contexts`.
unfoldable pub write_context : Config.Context → Bytes
write_context c =
    write_bool c.begin_stage
    ++ (write_all write_input c.inputs
        ++ (write_all write_key_sequence c.outputs
            ++ (write_all write_command c.command_outputs
                ++ (write_filter c.device_filter
                    ++ (write_filter c.device_id_filter
                        ++ (write_key_sequence c.modifier_filter
                            ++ (write_bool c.invert_modifier_filter
                                ++ write_bool c.fallthrough)))))))

unfoldable pub write_contexts : List Config.Context → Bytes
write_contexts = write_all write_context

-- A context of `read_stages`, behind the mark of a stage's begin.
unfoldable pub read_context : StdRegex → Reader Context
read_context std_regex = read_all read_input >>= λ inputs. read_all read_key_sequence >>= λ outputs.
    read_all read_command >>= λ commands. read_filter std_regex >>= λ device_filter.
    read_filter std_regex >>= λ device_id_filter. read_key_sequence >>= λ modifier_filter.
    read_bool >>= λ invert. read_bool >>= λ fallthrough. pure (record {
      inputs = inputs;
      outputs = outputs;
      command_outputs = commands;
      device_filter = device_filter;
      device_id_filter = device_id_filter;
      modifier_filter = modifier_filter;
      matching_device_bits = all_device_bits;
      invert_modifier_filter = invert;
      fallthrough = fallthrough;
    })

-- The stages that are complete, and the contexts of the next one.
pub record Stages : Type 0 where
  pub stages : List Stage
  pub contexts : List Context

abbrev pub end_stage : Stages → List Stage
end_stage s =
    if negate (is_empty s.contexts) then push s.stages (make_stage s.contexts) else s.stages

abbrev pub add_context : Stages → Bool → Context → Stages
add_context s begin_stage context =
    if begin_stage && negate (is_empty s.contexts)
    then record { stages = push s.stages (make_stage s.contexts); contexts = context ∷ [] }
    else record { stages = s.stages; contexts = push s.contexts context }

-- So many rounds of the loop of `read_stages`.
unfoldable pub read_stage_loop : StdRegex → ℕ → Stages → Reader Stages
read_stage_loop std_regex zero s = pure s
read_stage_loop std_regex (suc n) s = read_bool >>= λ begin_stage.
    read_context std_regex >>= λ context.
    read_stage_loop std_regex n (add_context s begin_stage context)

unfoldable pub read_stages : StdRegex → Reader MultiStage
read_stages std_regex = read_number 4 >>= λ count.
    read_stage_loop std_regex count (record { stages = []; contexts = [] }) >>= λ s.
    pure (make_multi_stage (end_stage s))

unfoldable pub write_grab_device_filters : List GrabDeviceFilter → Bytes
write_grab_device_filters =
    write_all (λ (f : GrabDeviceFilter). write_filter f.filter ++ write_bool f.by_id)

unfoldable pub read_grab_device_filters : StdRegex → Reader (List GrabDeviceFilter)
read_grab_device_filters std_regex = read_all (
    read_filter std_regex >>= λ filter.
    read_bool >>= λ by_id. pure (record { filter = filter; by_id = by_id }))

unfoldable pub write_directives : List String → Bytes
write_directives = write_all (λ (s : String). write_string (bytes_of s))

unfoldable pub read_directives : Reader (List String)
read_directives = read_all (read_string >>= λ string. pure (string_of string))

unfoldable pub write_active_contexts : List ℤ → Bytes
write_active_contexts = write_all write_int

unfoldable pub read_active_contexts : Reader (List ℤ)
read_active_contexts = read_all read_int
