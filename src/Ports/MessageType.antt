-- ===== src/Ports/MessageType.antt =====
-- src/common/MessageType.h: the values of the types that are modelled.
use keymapper.Prelude.{ℕ}

abbrev pub configuration : ℕ
configuration = 1

abbrev pub active_contexts : ℕ
active_contexts = 2

abbrev pub validate_state : ℕ
validate_state = 3

abbrev pub execute_action : ℕ
execute_action = 4

abbrev pub virtual_key_state : ℕ
virtual_key_state = 5

abbrev pub set_virtual_key_state : ℕ
set_virtual_key_state = 7

abbrev pub next_key_info : ℕ
next_key_info = 11

abbrev pub inject_input : ℕ
inject_input = 12

abbrev pub inject_output : ℕ
inject_output = 13
