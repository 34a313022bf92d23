-- ===== src/Key.antt =====
-- src/runtime/Key.h: the numbering of the keys and its ranges. The enumeration is open, since keys
-- are made from indices and scan codes, so a key is its `uint16_t`. The constants that the modelled
-- code names have the values of the Linux and Windows branch of the header.
use keymapper.Prelude.{ℕ, Bool, ◌&&◌, ◌||◌, ltb, leb, ◌==◌, negate}

abbrev pub Key : Type 0
Key = ℕ

abbrev pub none : Key
none = 0

abbrev pub escape : Key
escape = 0x01

abbrev pub control_left : Key
control_left = 0x1D

abbrev pub key_k : Key
key_k = 0x25

abbrev pub shift_left : Key
shift_left = 0x2A

abbrev pub shift_right : Key
shift_right = 0x36

abbrev pub alt_left : Key
alt_left = 0x38

abbrev pub control_right : Key
control_right = 0x61

abbrev pub alt_right : Key
alt_right = 0x64

abbrev pub meta_left : Key
meta_left = 0x7D

abbrev pub meta_right : Key
meta_right = 0x7E

abbrev pub button_left : Key
button_left = 0x0110

abbrev pub button_forward : Key
button_forward = 0x0114

abbrev pub wheel_up : Key
wheel_up = 0x0150

abbrev pub wheel_right : Key
wheel_right = 0x0153

abbrev pub last_keyboard_key : Key
last_keyboard_key = 0xEFFF

abbrev pub any : Key
any = 0xF000

abbrev pub timeout : Key
timeout = 0xF001

abbrev pub context_active : Key
context_active = 0xF002

abbrev pub unicode_output : Key
unicode_output = 0xF003

abbrev pub first_action : Key
first_action = 0xF100

abbrev pub last_action : Key
last_action = 0xF4FF

abbrev pub first_logical : Key
first_logical = 0xF500

abbrev pub shift : Key
shift = 0xF500

abbrev pub control : Key
control = 0xF501

abbrev pub meta : Key
meta = 0xF503

abbrev pub last_logical : Key
last_logical = 0xF5FF

abbrev pub first_virtual : Key
first_virtual = 0xF600

abbrev pub first_auto_virtual : Key
first_auto_virtual = 0xF700

abbrev pub last_virtual : Key
last_virtual = 0xFAFF

abbrev pub in_range : Key → Key → Key → Bool
in_range first last key = leb first key && leb key last

unfoldable pub is_action_key : Key → Bool
is_action_key = in_range first_action last_action

unfoldable pub is_logical_key : Key → Bool
is_logical_key = in_range first_logical last_logical

unfoldable pub is_virtual_key : Key → Bool
is_virtual_key = in_range first_virtual last_virtual

unfoldable pub is_mouse_button : Key → Bool
is_mouse_button = in_range button_left button_forward

unfoldable pub is_mouse_wheel : Key → Bool
is_mouse_wheel = in_range wheel_up wheel_right

unfoldable pub is_keyboard_key : Key → Bool
unfolding is_mouse_button is_mouse_wheel
is_keyboard_key key =
    ltb none key
    && (leb key last_keyboard_key && (negate (is_mouse_button key) && negate (is_mouse_wheel key)))

unfoldable pub is_device_key : Key → Bool
unfolding is_keyboard_key is_mouse_button is_mouse_wheel
is_device_key key = is_keyboard_key key || (is_mouse_button key || is_mouse_wheel key)

unfoldable pub is_common_modifier : Key → Bool
is_common_modifier key =
    key == shift_left
    || (key == shift_right
        || (key == control_left
            || (key == control_right
                || (key == alt_left
                    || (key == alt_right || (key == meta_left || key == meta_right))))))
