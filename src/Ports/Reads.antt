-- ===== src/Ports/Reads.antt =====
-- src/client/ServerPort.cpp and src/server/ClientPort.cpp: each side reads what the other has written.
use Prim.Native.String.{String}
use Prim.Native.Char.{Char, char, code}
use text.Mathlib.TextEquality.{Char-path}
use mathlib.Core.List.{map-id}
use keymapper.Prelude.{
  ℕ, ◌/◌, ◌%◌, ◌<◌, ◌≡◌, refl, ap, subst, ◌∙◌, List, length, arith, All, if◌then◌else◌, Option,
  some, none, Bool, true, false, negate, ◌||◌,
}
use keymapper.KeyEvent.{KeyState, KeyEvent, KeySequence, state_value, state_of-value}
use keymapper.Filter.{Filter}
use keymapper.Connection.{Bytes, Reader, pure, or_throw, read_all, write_all, ◌>>=◌}
use keymapper.Connection.Reads.{
  IsSize, Reads, at_last, read_all-Reads, read_bool-Reads, read_string-Reads, read_u32-Reads,
  bind-Reads,
}
use keymapper.Ports.Encoding.{
  StdRegex, byte_char, bytes_of, event_bits, event_of_bits, is_regex, read_event, read_filter,
  read_key_sequence, received_filter, parse_regex, with_regex, string_of, write_event, write_filter,
  write_key_sequence,
}

abbrev pub IsByteString : String → Type 0
IsByteString s = All (λ (c : ℕ). c < 256) (bytes_of s) × IsSize (length (bytes_of s))

byte_char-code : (c : Char) → code c < 256 → byte_char (code c) ≡ c
byte_char-code (char n p) h = Char-path (byte_char n) (char n p) (omega arith)

pub string_of-bytes_of :
    (s : String) → All (λ (c : ℕ). c < 256) (bytes_of s) → string_of (bytes_of s) ≡ s
string_of-bytes_of String.[] h = refl
string_of-bytes_of (String.◌∷◌ c s) h =
    ap (λ (d : Char). String.◌∷◌ d (string_of (bytes_of s))) (byte_char-code c h.0)
    ∙ ap (String.◌∷◌ c) (string_of-bytes_of s h.1)

-- The key takes two bytes and the value twelve bits.
abbrev pub IsWireEvent : KeyEvent → Type 0
IsWireEvent event = (event.key < 65536) × (event.value < 4096)

abbrev pub IsWireSequence : KeySequence → Type 0
IsWireSequence s = IsSize (length s) × All IsWireEvent s

pub state_value_lt : (s : KeyState) → state_value s < 16
state_value_lt KeyState.up = omega arith
state_value_lt _ = omega arith

event_of_bits-bits :
    (event : KeyEvent) → IsWireEvent event → event_of_bits (event_bits event) ≡ event
event_of_bits-bits event h = rw (
  key_part (state_value_lt event.state),
  state_part (state_value_lt event.state),
  value_part (state_value_lt event.state),
  state_of-value event.state,
)
  where
    key_part : state_value event.state < 16 → event_bits event % 65536 ≡ event.key
    key_part l = omega (arith, h)

    state_part :
        state_value event.state < 16 → event_bits event / 65536 % 16 ≡ state_value event.state
    state_part l = omega (arith, h)

    value_part : state_value event.state < 16 → event_bits event / 1048576 ≡ event.value
    value_part l = omega (arith, h)

-- A read of a value that a function makes of what was written.
pub read_through :
    {A B : Type 0} {read : Reader A} {w : Bytes} {a : A} {b : B} (g : A → B)
    → g a ≡ b
    → Reads read w a
    → Reads (read >>= λ x. pure (g x)) w b
read_through {read = read} {w = w} g e h =
    subst (Reads (read >>= λ x. pure (g x)) w) e (at_last g h)

event_bits_lt : (event : KeyEvent) → IsWireEvent event → event_bits event < 4294967296
event_bits_lt event h = omega (arith, h, state_value_lt event.state)

read_event-Reads :
    (event : KeyEvent) → IsWireEvent event → Reads read_event (write_event event) event
unfolding read_event write_event
read_event-Reads event h =
    read_through event_of_bits (event_of_bits-bits event h)
      (read_u32-Reads (event_bits event) (event_bits_lt event h))

-- Elements that are read as they are written.
pub read_same-Reads :
    {A : Type 0} (P : A → Type 0) (read : Reader A) (write : A → Bytes)
    → ((a : A) → P a → Reads read (write a) a)
    → (xs : List A) → IsSize (length xs)
    → All P xs
    → Reads (read_all read) (write_all write xs) xs
read_same-Reads P read write one xs size h =
    subst (Reads (read_all read) (write_all write xs)) (map-id xs)
      (read_all-Reads P read write (λ a. a) one xs size h)

pub read_key_sequence-Reads :
    (s : KeySequence) → IsWireSequence s → Reads read_key_sequence (write_key_sequence s) s
unfolding read_key_sequence write_key_sequence
read_key_sequence-Reads s h =
    read_same-Reads IsWireEvent read_event write_event read_event-Reads s h.0 h.1

-- The regular expression of a filter, if its string is one.
abbrev filter_regex : StdRegex → String → Option (String → Bool)
filter_regex std_regex string =
    if is_regex (bytes_of string) then parse_regex std_regex (bytes_of string) else none

abbrev is_some : Option (String → Bool) → Bool
is_some none = false
is_some (some search) = true

-- A string of bytes, of which a regular expression can be made where it is to be one.
abbrev pub IsWireFilter : StdRegex → Filter → Type 0
IsWireFilter std_regex filter =
    IsByteString filter.string
    × ((negate (is_regex (bytes_of filter.string))
          || is_some (parse_regex std_regex (bytes_of filter.string)))
        ≡ true)

-- The filter as the server has it: its regular expression is made anew.
abbrev pub sent_filter : StdRegex → Filter → Filter
sent_filter std_regex filter = record filter { regex = filter_regex std_regex filter.string }

-- A read of a value that an operation makes of what was written, without throwing.
read_without_throw :
    {A B : Type 0} {read : Reader A} {w : Bytes} {a : A} {b : B} (g : A → Option B)
    → g a ≡ some b
    → Reads read w a
    → Reads (read >>= λ x. or_throw (g x)) w b
unfolding ◌>>=◌ or_throw
read_without_throw {A = A} {B = B} {a = a} {b = b} g e h = record {
  apply = λ rest.
      ap (λ (o : Option (A × Bytes)). elim o [ none ↦ none | some r ↦ or_throw (g r.0) r.1 ])
        (h.apply rest)
      ∙ ap (λ (o : Option B). or_throw o rest) e;
}

received_filter-valid :
    (std_regex : StdRegex) (string : Bytes) (invert : Bool) (regex : Bool)
    (parsed : Option (String → Bool)) (text : String)
    → (negate regex || is_some parsed) ≡ true
    → (if regex
        then with_regex (record { string = text; regex = none; invert = invert }) parsed
        else some (record { string = text; regex = none; invert = invert }))
      ≡ some (record { string = text; regex = if regex then parsed else none; invert = invert })
received_filter-valid std_regex string invert true none text h = cc
received_filter-valid std_regex string invert true (some search) text h = refl
received_filter-valid std_regex string invert false parsed text h = refl

pub read_filter-Reads :
    (std_regex : StdRegex) (filter : Filter)
    → IsWireFilter std_regex filter
    → Reads (read_filter std_regex) (write_filter filter) (sent_filter std_regex filter)
unfolding read_filter write_filter
read_filter-Reads std_regex filter h =
    let string = bytes_of filter.string in
    bind-Reads _ (read_string-Reads string h.0.1) (
      read_without_throw (received_filter std_regex string)
        (ap
            (λ (text : String).
              if is_regex string
              then with_regex (record { string = text; regex = none; invert = filter.invert })
                  (parse_regex std_regex string)
              else some (record { string = text; regex = none; invert = filter.invert }))
            (string_of-bytes_of filter.string h.0.0)
          ∙ received_filter-valid std_regex string filter.invert (is_regex string)
              (parse_regex std_regex string) filter.string h.1)
        (read_bool-Reads filter.invert))
