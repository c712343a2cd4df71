-- ===== src/Keyboard/Keymap.antt =====
-- What the keys of kernel/src/core/keyboard.c mean: modifier and lock bits, characters, and the
-- escape sequences of the keys that have no character.
use walu_os.Prelude.{
  ℕ, ◌-◌, Bool, true, false, not, ◌==◌, if◌then◌else◌, List, [], ◌∷◌, bit_and, bit_or, bit_xor,
}
use mathlib.Core.Bool.{xor}
use walu_os.Keyboard.Keycode.{
  Key, key_leftshift, key_rightshift, key_leftctrl, key_rightctrl, key_leftalt, key_rightalt,
  key_leftmeta, key_rightmeta, key_capslock, key_numlock, key_scrolllock, key_up, key_down,
  key_right, key_left, key_home, key_end, key_insert, key_delete, key_pageup, key_pagedown, key_f1,
  key_f2, key_f3, key_f4, key_f5, key_f6, key_f7, key_f8, key_f9, key_f10, key_f11, key_f12, key_a,
  key_b, key_c, key_d, key_e, key_f, key_g, key_h, key_i, key_j, key_k, key_l, key_m, key_n, key_o,
  key_p, key_q, key_r, key_s, key_t, key_u, key_v, key_w, key_x, key_y, key_z, key_1, key_2, key_3,
  key_4, key_5, key_6, key_7, key_8, key_9, key_0, key_minus, key_equal, key_leftbrace,
  key_rightbrace, key_backslash, key_semicolon, key_apostrophe, key_grave, key_comma, key_dot,
  key_slash, key_space, key_tab, key_enter, key_kpenter, key_backspace, key_esc, key_kp0, key_kp1,
  key_kp2, key_kp3, key_kp4, key_kp5, key_kp6, key_kp7, key_kp8, key_kp9, key_kpdot, key_kpminus,
  key_kpplus, key_kpasterisk, key_kpslash,
}

-- `KBD_MOD_...`
abbrev pub mod_shift : ℕ
mod_shift = 0x01

abbrev pub mod_ctrl : ℕ
mod_ctrl = 0x02

abbrev pub mod_alt : ℕ
mod_alt = 0x04

abbrev pub mod_altgr : ℕ
mod_altgr = 0x08

abbrev pub mod_meta : ℕ
mod_meta = 0x10

-- `KBD_LOCK_...`
abbrev pub lock_caps : ℕ
lock_caps = 0x01

abbrev pub lock_num : ℕ
lock_num = 0x02

abbrev pub lock_scroll : ℕ
lock_scroll = 0x04

abbrev pub has_bit : ℕ → ℕ → Bool
has_bit flags bit = not (bit_and flags bit == 0)

unfoldable pub shift_on : ℕ → Bool
shift_on modifiers = has_bit modifiers mod_shift

unfoldable pub ctrl_on : ℕ → Bool
ctrl_on modifiers = has_bit modifiers mod_ctrl

unfoldable pub num_on : ℕ → Bool
num_on locks = has_bit locks lock_num

-- `~bit` of a byte is `255 - bit`.
unfoldable pub set_modifier_bit : ℕ → ℕ → Bool → ℕ
set_modifier_bit modifiers bit true = bit_or modifiers bit
set_modifier_bit modifiers bit false = bit_and modifiers (255 - bit)

pub record Flags : Type 0 where
  pub modifiers : ℕ
  pub locks : ℕ

abbrev pub modify : Flags → ℕ → Bool → Flags
modify f bit pressed = record f { modifiers = set_modifier_bit f.modifiers bit pressed }

abbrev pub toggle : Flags → ℕ → Bool → Flags
toggle f bit pressed = if pressed then (record f { locks = bit_xor f.locks bit }) else f

-- `kbd_update_state`, on the two globals that it changes.
unfoldable pub update_state : Key → Bool → Flags → Flags
unfolding set_modifier_bit
update_state key_leftshift pressed f = modify f mod_shift pressed
update_state key_rightshift pressed f = modify f mod_shift pressed
update_state key_leftctrl pressed f = modify f mod_ctrl pressed
update_state key_rightctrl pressed f = modify f mod_ctrl pressed
update_state key_leftalt pressed f = modify f mod_alt pressed
update_state key_rightalt pressed f = modify f mod_altgr pressed
update_state key_leftmeta pressed f = modify f mod_meta pressed
update_state key_rightmeta pressed f = modify f mod_meta pressed
update_state key_capslock pressed f = toggle f lock_caps pressed
update_state key_numlock pressed f = toggle f lock_num pressed
update_state key_scrolllock pressed f = toggle f lock_scroll pressed
update_state _ pressed f = f

-- `lower` is a lower-case letter, so the subtraction does not wrap.
unfoldable pub apply_alpha : ℕ → ℕ → ℕ → ℕ
unfolding shift_on ctrl_on
apply_alpha lower modifiers locks =
    let ch = if xor (shift_on modifiers) (has_bit locks lock_caps) then lower - 32 else lower in
    if ctrl_on modifiers then bit_and ch 0x1f else ch

unfoldable pub keycode_to_unicode : Key → ℕ → ℕ → ℕ
unfolding apply_alpha num_on
keycode_to_unicode key_a modifiers locks = apply_alpha b'a' modifiers locks
keycode_to_unicode key_b modifiers locks = apply_alpha b'b' modifiers locks
keycode_to_unicode key_c modifiers locks = apply_alpha b'c' modifiers locks
keycode_to_unicode key_d modifiers locks = apply_alpha b'd' modifiers locks
keycode_to_unicode key_e modifiers locks = apply_alpha b'e' modifiers locks
keycode_to_unicode key_f modifiers locks = apply_alpha b'f' modifiers locks
keycode_to_unicode key_g modifiers locks = apply_alpha b'g' modifiers locks
keycode_to_unicode key_h modifiers locks = apply_alpha b'h' modifiers locks
keycode_to_unicode key_i modifiers locks = apply_alpha b'i' modifiers locks
keycode_to_unicode key_j modifiers locks = apply_alpha b'j' modifiers locks
keycode_to_unicode key_k modifiers locks = apply_alpha b'k' modifiers locks
keycode_to_unicode key_l modifiers locks = apply_alpha b'l' modifiers locks
keycode_to_unicode key_m modifiers locks = apply_alpha b'm' modifiers locks
keycode_to_unicode key_n modifiers locks = apply_alpha b'n' modifiers locks
keycode_to_unicode key_o modifiers locks = apply_alpha b'o' modifiers locks
keycode_to_unicode key_p modifiers locks = apply_alpha b'p' modifiers locks
keycode_to_unicode key_q modifiers locks = apply_alpha b'q' modifiers locks
keycode_to_unicode key_r modifiers locks = apply_alpha b'r' modifiers locks
keycode_to_unicode key_s modifiers locks = apply_alpha b's' modifiers locks
keycode_to_unicode key_t modifiers locks = apply_alpha b't' modifiers locks
keycode_to_unicode key_u modifiers locks = apply_alpha b'u' modifiers locks
keycode_to_unicode key_v modifiers locks = apply_alpha b'v' modifiers locks
keycode_to_unicode key_w modifiers locks = apply_alpha b'w' modifiers locks
keycode_to_unicode key_x modifiers locks = apply_alpha b'x' modifiers locks
keycode_to_unicode key_y modifiers locks = apply_alpha b'y' modifiers locks
keycode_to_unicode key_z modifiers locks = apply_alpha b'z' modifiers locks
keycode_to_unicode key_1 modifiers locks = if shift_on modifiers then 0x21 else b'1'
keycode_to_unicode key_2 modifiers locks =
    if ctrl_on modifiers then 0 else (if shift_on modifiers then 0x40 else b'2')
keycode_to_unicode key_3 modifiers locks = if shift_on modifiers then 0x23 else b'3'
keycode_to_unicode key_4 modifiers locks = if shift_on modifiers then 0x24 else b'4'
keycode_to_unicode key_5 modifiers locks = if shift_on modifiers then 0x25 else b'5'
keycode_to_unicode key_6 modifiers locks =
    if ctrl_on modifiers then 0x1e else (if shift_on modifiers then 0x5e else b'6')
keycode_to_unicode key_7 modifiers locks = if shift_on modifiers then 0x26 else b'7'
keycode_to_unicode key_8 modifiers locks = if shift_on modifiers then 0x2a else b'8'
keycode_to_unicode key_9 modifiers locks = if shift_on modifiers then 0x28 else b'9'
keycode_to_unicode key_0 modifiers locks = if shift_on modifiers then 0x29 else b'0'
keycode_to_unicode key_minus modifiers locks =
    if ctrl_on modifiers then 0x1f else (if shift_on modifiers then 0x5f else 0x2d)
keycode_to_unicode key_equal modifiers locks = if shift_on modifiers then 0x2b else 0x3d
keycode_to_unicode key_leftbrace modifiers locks =
    if ctrl_on modifiers then 0x1b else (if shift_on modifiers then 0x7b else 0x5b)
keycode_to_unicode key_rightbrace modifiers locks =
    if ctrl_on modifiers then 0x1d else (if shift_on modifiers then 0x7d else 0x5d)
keycode_to_unicode key_backslash modifiers locks =
    if ctrl_on modifiers then 0x1c else (if shift_on modifiers then 0x7c else 0x5c)
keycode_to_unicode key_semicolon modifiers locks = if shift_on modifiers then 0x3a else 0x3b
keycode_to_unicode key_apostrophe modifiers locks = if shift_on modifiers then 0x22 else 0x27
keycode_to_unicode key_grave modifiers locks = if shift_on modifiers then 0x7e else 0x60
keycode_to_unicode key_comma modifiers locks = if shift_on modifiers then 0x3c else 0x2c
keycode_to_unicode key_dot modifiers locks = if shift_on modifiers then 0x3e else 0x2e
keycode_to_unicode key_slash modifiers locks = if shift_on modifiers then 0x3f else 0x2f
keycode_to_unicode key_space modifiers locks = 0x20
keycode_to_unicode key_tab modifiers locks = 0x09
keycode_to_unicode key_enter modifiers locks = 0x0a
keycode_to_unicode key_kpenter modifiers locks = 0x0a
keycode_to_unicode key_backspace modifiers locks = 0x08
keycode_to_unicode key_esc modifiers locks = 0x1b
keycode_to_unicode key_kp0 modifiers locks = if num_on locks then b'0' else 0
keycode_to_unicode key_kp1 modifiers locks = if num_on locks then b'1' else 0
keycode_to_unicode key_kp2 modifiers locks = if num_on locks then b'2' else 0
keycode_to_unicode key_kp3 modifiers locks = if num_on locks then b'3' else 0
keycode_to_unicode key_kp4 modifiers locks = if num_on locks then b'4' else 0
keycode_to_unicode key_kp5 modifiers locks = if num_on locks then b'5' else 0
keycode_to_unicode key_kp6 modifiers locks = if num_on locks then b'6' else 0
keycode_to_unicode key_kp7 modifiers locks = if num_on locks then b'7' else 0
keycode_to_unicode key_kp8 modifiers locks = if num_on locks then b'8' else 0
keycode_to_unicode key_kp9 modifiers locks = if num_on locks then b'9' else 0
keycode_to_unicode key_kpdot modifiers locks = if num_on locks then 0x2e else 0
keycode_to_unicode key_kpminus modifiers locks = 0x2d
keycode_to_unicode key_kpplus modifiers locks = 0x2b
keycode_to_unicode key_kpasterisk modifiers locks = 0x2a
keycode_to_unicode key_kpslash modifiers locks = 0x2f
keycode_to_unicode _ modifiers locks = 0

-- The string that `kbd_emit_special_sequence` hands to `kbd_emit_sequence`.
unfoldable pub special_sequence : Key → List ℕ
special_sequence key_up = 0x1b ∷ b'[' ∷ b'A' ∷ []
special_sequence key_down = 0x1b ∷ b'[' ∷ b'B' ∷ []
special_sequence key_right = 0x1b ∷ b'[' ∷ b'C' ∷ []
special_sequence key_left = 0x1b ∷ b'[' ∷ b'D' ∷ []
special_sequence key_home = 0x1b ∷ b'[' ∷ b'H' ∷ []
special_sequence key_end = 0x1b ∷ b'[' ∷ b'F' ∷ []
special_sequence key_insert = 0x1b ∷ b'[' ∷ b'2' ∷ b'~' ∷ []
special_sequence key_delete = 0x1b ∷ b'[' ∷ b'3' ∷ b'~' ∷ []
special_sequence key_pageup = 0x1b ∷ b'[' ∷ b'5' ∷ b'~' ∷ []
special_sequence key_pagedown = 0x1b ∷ b'[' ∷ b'6' ∷ b'~' ∷ []
special_sequence key_f1 = 0x1b ∷ b'O' ∷ b'P' ∷ []
special_sequence key_f2 = 0x1b ∷ b'O' ∷ b'Q' ∷ []
special_sequence key_f3 = 0x1b ∷ b'O' ∷ b'R' ∷ []
special_sequence key_f4 = 0x1b ∷ b'O' ∷ b'S' ∷ []
special_sequence key_f5 = 0x1b ∷ b'[' ∷ b'1' ∷ b'5' ∷ b'~' ∷ []
special_sequence key_f6 = 0x1b ∷ b'[' ∷ b'1' ∷ b'7' ∷ b'~' ∷ []
special_sequence key_f7 = 0x1b ∷ b'[' ∷ b'1' ∷ b'8' ∷ b'~' ∷ []
special_sequence key_f8 = 0x1b ∷ b'[' ∷ b'1' ∷ b'9' ∷ b'~' ∷ []
special_sequence key_f9 = 0x1b ∷ b'[' ∷ b'2' ∷ b'0' ∷ b'~' ∷ []
special_sequence key_f10 = 0x1b ∷ b'[' ∷ b'2' ∷ b'1' ∷ b'~' ∷ []
special_sequence key_f11 = 0x1b ∷ b'[' ∷ b'2' ∷ b'3' ∷ b'~' ∷ []
special_sequence key_f12 = 0x1b ∷ b'[' ∷ b'2' ∷ b'4' ∷ b'~' ∷ []
special_sequence _ = []
