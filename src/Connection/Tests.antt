-- ===== src/Connection/Tests.antt =====
-- Streams as a connection receives them.
use keymapper.Prelude.{ℕ, ◌<◌, ◌≡◌, refl, inl, List, [], ◌∷◌, map, length, arith}
use keymapper.Connection.{Bytes, number_bytes, write_number, read_number, write_each, send_message}
use keymapper.Connection.Reads.{Reads, IsSize, read_u16-Reads}
use keymapper.Connection.Frames.{read_pieces, read_pieces-stream}

-- A message is a number of two bytes.
abbrev IsShort : ℕ → Type 0
IsShort n = n < 65536

short_message :
    (n : ℕ)
    → IsShort n
    → Reads (read_number 2) (write_number 2 n) n × IsSize (length (write_number 2 n))
unfolding write_number number_bytes
short_message n h = (read_u16-Reads n h, omega arith)

-- 258 and 3, cut within the size and the number.
abbrev pieces : List Bytes
pieces = (2 ∷ 0 ∷ []) ∷ (0 ∷ 0 ∷ 2 ∷ []) ∷ [] ∷ (1 ∷ 2 ∷ 0 ∷ 0 ∷ 0 ∷ 3 ∷ 0 ∷ []) ∷ []

read_pieces-stream_example :
    read_pieces (read_number 2) [] pieces ≡ (map (λ (n : ℕ). n) (258 ∷ 3 ∷ []), [])
unfolding write_each send_message write_number number_bytes
read_pieces-stream_example =
    read_pieces-stream (read_number 2) (write_number 2) (λ (n : ℕ). n) IsShort short_message
      (258 ∷ 3 ∷ []) pieces [] (omega arith) (inl refl) refl
