-- ===== src/Keyboard/Ranges.antt =====
-- The ranges of the keys and the flags of kernel/src/core/keyboard.c.
use walu_os.Prelude.{
  ℕ, ◌-◌, ◌≡◌, ◌<◌, refl, inl, inr, Bool, true, false, ltb, ltb→lt, bit_and, bit_or, bit_xor, arith,
  Bool-cases, all_below, all_below-holds,
}
use walu_os.Keyboard.Keycode.{
  Key, number, key_max, scancode_to_key, scancode_to_key_e0, key_leftshift, key_rightshift,
  key_leftctrl, key_rightctrl, key_leftalt, key_rightalt, key_leftmeta, key_rightmeta, key_capslock,
  key_numlock, key_scrolllock,
}
use walu_os.Keyboard.Keymap.{
  Flags, update_state, mod_shift, mod_ctrl, mod_alt, mod_altgr, mod_meta, lock_caps, lock_num,
  lock_scroll, set_modifier_bit, modify, toggle,
}
use walu_os.Keyboard.Defs.{Keyboard, decode}

-- Every code of seven bits gives a key of the enumeration.
plain_table : all_below 128 (λ c. ltb (number (scancode_to_key c)) key_max) ≡ true
unfolding scancode_to_key
plain_table = refl

extended_table : all_below 128 (λ c. ltb (number (scancode_to_key_e0 c)) key_max) ≡ true
unfolding scancode_to_key_e0
extended_table = refl

pub decode-lt : (k : Keyboard) (code : ℕ) → code < 128 → number (decode k code) < key_max
decode-lt k code h = elim (Bool-cases k.extended) [
  | inl e0 ↦ rw e0 (
      ltb→lt _ _ (
        all_below-holds (λ c. ltb (number (scancode_to_key_e0 c)) key_max) 128 extended_table code
          h))
  | inr plain ↦ rw plain (
      ltb→lt _ _
        (all_below-holds (λ c. ltb (number (scancode_to_key c)) key_max) 128 plain_table code h))
]

-- The flags keep to their bits.
with_bit : (m : ℕ) → m < 32 → (bit : ℕ) → bit < 32 → bit_or m bit < 32
with_bit m h bit hb = ltb→lt _ _ (
    all_below-holds (λ b. ltb (bit_or m b) 32) 32
      (all_below-holds (λ n. all_below 32 (λ b. ltb (bit_or n b) 32)) 32 refl m h) bit hb)

without_bit : (m : ℕ) → m < 32 → (mask : ℕ) → mask < 256 → bit_and m mask < 32
without_bit m h mask hm = ltb→lt _ _ (
    all_below-holds (λ b. ltb (bit_and m b) 32) 256
      (all_below-holds (λ n. all_below 256 (λ b. ltb (bit_and n b) 32)) 32 refl m h) mask hm)

toggled : (m : ℕ) → m < 8 → (bit : ℕ) → bit < 8 → bit_xor m bit < 8
toggled m h bit hb = ltb→lt _ _ (
    all_below-holds (λ b. ltb (bit_xor m b) 8) 8
      (all_below-holds (λ n. all_below 8 (λ b. ltb (bit_xor n b) 8)) 8 refl m h) bit hb)

pub record FlagsOk (f : Flags) : Type 0 where
  pub modifiers_in : f.modifiers < 32
  pub locks_in : f.locks < 8

pub modify-FlagsOk :
    (f : Flags) (bit : ℕ) (pressed : Bool) → bit < 32 → FlagsOk f → FlagsOk (modify f bit pressed)
unfolding set_modifier_bit
modify-FlagsOk f bit true h v = record {
  modifiers_in = with_bit f.modifiers v.modifiers_in bit h;
  locks_in = v.locks_in;
}
modify-FlagsOk f bit false h v = record {
  modifiers_in = without_bit f.modifiers v.modifiers_in (255 - bit) (omega arith);
  locks_in = v.locks_in;
}

pub toggle-FlagsOk :
    (f : Flags) (bit : ℕ) (pressed : Bool) → bit < 8 → FlagsOk f → FlagsOk (toggle f bit pressed)
toggle-FlagsOk f bit true h v = record {
  modifiers_in = v.modifiers_in;
  locks_in = toggled f.locks v.locks_in bit h;
}
toggle-FlagsOk f bit false h v = v

pub update_state-FlagsOk :
    (key : Key) (pressed : Bool) (f : Flags) → FlagsOk f → FlagsOk (update_state key pressed f)
unfolding update_state
update_state-FlagsOk key_leftshift p f v = modify-FlagsOk f mod_shift p (omega arith) v
update_state-FlagsOk key_rightshift p f v = modify-FlagsOk f mod_shift p (omega arith) v
update_state-FlagsOk key_leftctrl p f v = modify-FlagsOk f mod_ctrl p (omega arith) v
update_state-FlagsOk key_rightctrl p f v = modify-FlagsOk f mod_ctrl p (omega arith) v
update_state-FlagsOk key_leftalt p f v = modify-FlagsOk f mod_alt p (omega arith) v
update_state-FlagsOk key_rightalt p f v = modify-FlagsOk f mod_altgr p (omega arith) v
update_state-FlagsOk key_leftmeta p f v = modify-FlagsOk f mod_meta p (omega arith) v
update_state-FlagsOk key_rightmeta p f v = modify-FlagsOk f mod_meta p (omega arith) v
update_state-FlagsOk key_capslock p f v = toggle-FlagsOk f lock_caps p (omega arith) v
update_state-FlagsOk key_numlock p f v = toggle-FlagsOk f lock_num p (omega arith) v
update_state-FlagsOk key_scrolllock p f v = toggle-FlagsOk f lock_scroll p (omega arith) v
update_state-FlagsOk _ p f v = v
