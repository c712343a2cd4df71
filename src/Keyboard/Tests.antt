-- ===== src/Keyboard/Tests.antt =====
-- Runs of kernel/src/core/keyboard.c on small inputs, and its theorems at them.
use walu_os.Prelude.{ℕ, ◌≡◌, refl, true, false, Option, List, [], ◌∷◌, ◌++◌, length, arith}
use mathlib.Core.Bool.{xor}
use walu_os.Ring.{is_full, is_empty, put, front, drop_front}
use walu_os.Keyboard.Keycode.{key_none, number, key_rightshift, scancode_to_key}
use walu_os.Keyboard.Keymap.{Flags, shift_on, update_state, keycode_to_unicode, special_sequence}
use walu_os.Keyboard.Defs.{
  Keyboard, KeyEvent, init, push_byte, push_event, emit_utf8, emit_sequence, emit_input_bytes,
  on_key, on_irq, on_irqs, pop_char,
}
use walu_os.Keyboard.Queue.{pending}
use walu_os.Keyboard.Utf8.{encode, emit_utf8-encode}
use walu_os.Keyboard.Event.{pending_events, decoder_of, decode_all}
use walu_os.Keyboard.Irq.{Handles}
use walu_os.Keyboard.Refine.{on_irqs-Handles}
use walu_os.Keyboard.Prefixes.{AtRest, pause, pause_swallows, release_one_shift-on_irqs}

abbrev no_event : KeyEvent
no_event = record {
  keycode = key_none;
  unicode = 0;
  modifiers = 0;
  locks = 0;
  pressed = false;
  repeat = false;
}

-- The keyboard after `keyboard_init`.
abbrev fresh_keyboard : Keyboard
fresh_keyboard = init (record {
  bytes = record { queue = λ i. 0; head = 0; tail = 0 };
  events = record { queue = λ i. no_event; head = 0; tail = 0 };
  extended = true;
  e1_skip = 1;
  flags = record { modifiers = 1; locks = 1 };
  key_down = λ i. true;
  rx_scancode_count = 1;
  drop_byte_count = 1;
  drop_event_count = 1;
})

fresh-AtRest : AtRest fresh_keyboard
unfolding init
fresh-AtRest = record {
  inv = record {
    bytes_ok = record {
      bytes_in = record { head_in = omega arith; tail_in = omega arith };
      drops_fit = omega arith;
    };
    events_in = record { head_in = omega arith; tail_in = omega arith };
    event_drops_fit = omega arith;
    skip_in = omega arith;
    modifiers_in = omega arith;
    locks_in = omega arith;
    rx_fits = omega arith;
  };
  no_e0 = refl;
  no_skip = refl;
}

-- Shift down, H down and up, Shift up, I down.
abbrev capital_h_i : List ℕ
capital_h_i = 0x2a ∷ 0x23 ∷ 0xa3 ∷ 0xaa ∷ 0x17 ∷ []

types_hi : (pop_char (on_irqs fresh_keyboard capital_h_i)).1 ≡ Option.some b'H'
unfolding on_irqs on_irq on_key init push_event push_byte emit_input_bytes emit_utf8 emit_sequence
    is_full is_empty put front drop_front pop_char scancode_to_key update_state keycode_to_unicode
    special_sequence xor
types_hi = refl

on_irqs-Handles_example :
    let (d, es) = decode_all (decoder_of fresh_keyboard) capital_h_i in
    Handles fresh_keyboard d es (length capital_h_i) (on_irqs fresh_keyboard capital_h_i)
on_irqs-Handles_example = on_irqs-Handles capital_h_i fresh-AtRest.inv

emit_utf8-encode_example :
    emit_utf8 fresh_keyboard 0x20ac ≡ emit_sequence fresh_keyboard (encode 0x20ac)
emit_utf8-encode_example = emit_utf8-encode fresh_keyboard 0x20ac

pause_swallows_example :
    let out = on_irqs fresh_keyboard (pause ++ (0x1e ∷ 0x9e ∷ 0x30 ∷ [])) in
    (pending_events out ≡ pending_events fresh_keyboard)
    × (pending out ≡ pending fresh_keyboard)
    × (decoder_of out ≡ decoder_of fresh_keyboard)
pause_swallows_example = pause_swallows 0x1e 0x9e 0x30 fresh-AtRest (
  λ e. absurd (omega arith),
  λ e. absurd (omega arith),
  λ e. absurd (omega arith),
  λ e. absurd (omega arith),
  λ e. absurd (omega arith),
  λ e. absurd (omega arith),
)

release_one_shift-on_irqs_example :
    let out = on_irqs fresh_keyboard (0x2a ∷ 0x36 ∷ 0xaa ∷ []) in
    (out.key_down (number key_rightshift) ≡ true) × (shift_on out.flags.modifiers ≡ false)
release_one_shift-on_irqs_example = release_one_shift-on_irqs fresh-AtRest

abbrev num_locked : Flags
num_locked = record { modifiers = 0; locks = 2 }
