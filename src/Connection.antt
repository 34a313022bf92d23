-- ===== src/Connection.antt =====
-- src/common/Connection.h: the bytes of messages. A serializer is what it appends to its buffer, and a
-- deserializer the bytes from its place on. Numbers are copied as they lie in memory, with the low byte
-- first.
pub mod Reads
pub mod Frames
mod Tests
use keymapper.Prelude.{
  ℕ, zero, suc, ◌+◌, ◌-◌, ◌*◌, ◌/◌, ◌%◌, ◌≡◌, refl, ℤ, pos, negsuc, Bool, true, false, List, [],
  ◌∷◌, ◌++◌, ◌==◌, Option, none, some, ltb, leb, if◌then◌else◌, negate, length,
}

abbrev pub Bytes : Type 0
Bytes = List ℕ

-- A read gives its result and what is left, or throws an exception.
abbrev pub Reader : Type 0 → Type 0
Reader A = Bytes → Option (A × Bytes)

infixl 5 ◌>>=◌
unfoldable pub ◌>>=◌ : {A B : Type 0} → Reader A → (A → Reader B) → Reader B
◌>>=◌ m f d = elim (m d) [ none ↦ none | some r ↦ f r.0 r.1 ]

unfoldable pub pure : {A : Type 0} → A → Reader A
pure a d = some (a, d)

-- What an operation that may throw gives.
unfoldable pub or_throw : {A : Type 0} → Option A → Reader A
or_throw none d = none
or_throw (some a) d = some (a, d)

abbrev pub take : ℕ → Bytes → Bytes
take zero d = []
take (suc n) [] = []
take (suc n) (b ∷ d) = b ∷ take n d

abbrev pub drop : ℕ → Bytes → Bytes
drop zero d = d
drop (suc n) [] = []
drop (suc n) (b ∷ d) = drop n d

abbrev pub replicate : ℕ → ℕ → Bytes
replicate zero b = []
replicate (suc n) b = b ∷ replicate n b

abbrev pub can_read : ℕ → Bytes → Bool
can_read size d = leb size (length d)

-- `read(data, size)`, with what was in `data`.
unfoldable pub read_bytes : Bytes → ℕ → Reader Bytes
read_bytes result size d =
    some (if can_read size d then (take size d, drop size d) else (result, d))

-- The bytes of a number.
unfoldable pub number_bytes : ℕ → ℕ → Bytes
number_bytes zero n = []
number_bytes (suc size) n = (n % 256) ∷ number_bytes size (n / 256)

unfoldable pub number_of_bytes : Bytes → ℕ
number_of_bytes [] = 0
number_of_bytes (b ∷ bytes) = b + 256 * number_of_bytes bytes

-- `write(value)` of a number with so many bytes.
unfoldable pub write_number : ℕ → ℕ → Bytes
write_number = number_bytes

-- `read<T>()` of a number with so many bytes.
unfoldable pub read_number : ℕ → Reader ℕ
read_number size = read_bytes (replicate size 0) size >>= λ bytes. pure (number_of_bytes bytes)

unfoldable pub write_bool : Bool → Bytes
write_bool b = write_number 1 (if b then 1 else 0)

unfoldable pub read_bool : Reader Bool
read_bool = read_number 1 >>= λ n. pure (negate (n == 0))

-- `int32_t` in two's complement.
abbrev pub int_bits : ℤ → ℕ
int_bits (pos n) = n
int_bits (negsuc n) = 4294967295 - n

abbrev pub int_of_bits : ℕ → ℤ
int_of_bits n = if ltb n 2147483648 then pos n else negsuc (4294967295 - n)

unfoldable pub write_int : ℤ → Bytes
write_int i = write_number 4 (int_bits i)

unfoldable pub read_int : Reader ℤ
read_int = read_number 4 >>= λ n. pure (int_of_bits n)

-- A string is its bytes here.
unfoldable pub write_string : Bytes → Bytes
write_string string = write_number 4 (length string) ++ string

unfoldable pub read_string : Reader Bytes
read_string = read_number 4 >>= λ size. read_bytes (replicate size 32) size

unfoldable pub write_each : {A : Type 0} → (A → Bytes) → List A → Bytes
write_each write [] = []
write_each write (x ∷ xs) = write x ++ write_each write xs

-- So many reads.
unfoldable pub read_each : {A : Type 0} → ℕ → Reader A → Reader (List A)
read_each zero read = pure []
read_each (suc n) read = read >>= λ x. read_each n read >>= λ xs. pure (x ∷ xs)

-- The size of a vector and each of its elements.
unfoldable pub write_all : {A : Type 0} → (A → Bytes) → List A → Bytes
write_all write xs = write_number 4 (length xs) ++ write_each write xs

unfoldable pub read_all : {A : Type 0} → Reader A → Reader (List A)
read_all read = read_number 4 >>= λ size. read_each size read

-- The numbers of so many bytes that lie behind one another.
abbrev pub numbers_of_bytes : ℕ → ℕ → Bytes → List ℕ
numbers_of_bytes zero size bytes = []
numbers_of_bytes (suc n) size bytes =
    number_of_bytes (take size bytes) ∷ numbers_of_bytes n size (drop size bytes)

-- `write(vector)` and `read_vector()` of numbers, which copy all elements at once.
unfoldable pub write_vector : ℕ → List ℕ → Bytes
write_vector size = write_all (write_number size)

unfoldable pub read_vector : ℕ → Reader (List ℕ)
read_vector size = read_number 4 >>= λ count.
    read_bytes (replicate (size * count) 0) (size * count) >>= λ bytes.
    pure (numbers_of_bytes count size bytes)

-- The bytes that `send_message` sends for a message with the given bytes: its size and itself.
unfoldable pub send_message : Bytes → Bytes
send_message buffer = write_number 4 (length buffer) ++ buffer

-- The messages that were deserialized, the result, whether an exception of the deserialization went on
-- to the caller instead, and the bytes that stay in the buffer.
pub record Received (A : Type 0) : Type 0 where
  pub messages : List A
  pub succeeded : Bool
  pub thrown : Bool
  pub buffer : Bytes

abbrev pub prepend : {A : Type 0} → A → Received A → Received A
prepend message r = record r { messages = message ∷ r.messages }

-- The loop ends, or an exception ends it: of the message that throws nothing is kept.
abbrev pub received : {A : Type 0} → List A → Bool → Bytes → Received A
received messages succeeded d = record {
  messages = messages;
  succeeded = succeeded;
  thrown = false;
  buffer = d;
}

abbrev pub threw : {A : Type 0} → Bytes → Received A
threw d = record { messages = []; succeeded = false; thrown = true; buffer = d }

-- The loop over complete messages. A message takes four bytes at least.
unfoldable pub read_loop : {A : Type 0} → ℕ → Reader A → Bytes → Received A
read_loop zero deserialize d = received [] true d
read_loop (suc fuel) deserialize d =
    if negate (can_read 4 d) then received [] true d else elim (read_number 4 d) [
      | none ↦ threw d
      | some (size, behind) ↦
          if negate (can_read size behind) then received [] true d else elim (deserialize behind) [
            | none ↦ threw d
            | some (message, left) ↦
                let rest = read_loop fuel deserialize left in
                if length left + size == length behind
                then prepend message rest
                else received (message ∷ []) false d
          ]
    ]

-- What `read_messages` does with the bytes that it has received, behind those of the buffer. Where it
-- fails it leaves the buffer, with a place that is set anew before it is used.
unfoldable pub read_messages : {A : Type 0} → Reader A → Bytes → Bytes → Received A
read_messages deserialize buffer received =
    let d = buffer ++ received in
    let r = read_loop (suc (length d)) deserialize d in
    if r.succeeded then r else record r { buffer = d }
