-- ===== src/Keyboard/Defs.antt =====
-- The state and the functions of kernel/src/core/keyboard.c.
use walu_os.Prelude.{
  ℕ, ◌-◌, ◌/◌, Bool, true, false, not, ◌&&◌, ◌||◌, ◌==◌, if◌then◌else◌, ltb, leb, Option, none,
  some, List, [], ◌∷◌, set, u8, inc64, bit_and, bit_or,
}
use walu_os.Ring.{Ring, is_full, is_empty, put, drop_front, front}
use walu_os.Keyboard.Keycode.{Key, number, key_max, scancode_to_key, scancode_to_key_e0}
use walu_os.Keyboard.Keymap.{
  Flags, update_state, keycode_to_unicode, special_sequence, mod_alt, mod_altgr,
}

abbrev pub byte_queue_size : ℕ
byte_queue_size = 1024

abbrev pub event_queue_size : ℕ
event_queue_size = 256

pub record KeyEvent : Type 0 where
  pub keycode : Key
  pub unicode : ℕ  -- uint32_t
  pub modifiers : ℕ  -- uint8_t
  pub locks : ℕ  -- uint8_t
  pub pressed : Bool
  pub repeat : Bool

pub record Keyboard : Type 0 where
  pub bytes : Ring ℕ
  pub events : Ring KeyEvent
  pub extended : Bool
  pub e1_skip : ℕ
  pub flags : Flags
  pub key_down : ℕ → Bool
  pub rx_scancode_count : ℕ  -- uint64_t, as the two below
  pub drop_byte_count : ℕ
  pub drop_event_count : ℕ

unfoldable pub push_byte : Keyboard → ℕ → Keyboard
push_byte k byte =
    if is_full byte_queue_size k.bytes
    then (record k { drop_byte_count = inc64 k.drop_byte_count })
    else (record k { bytes = put byte_queue_size k.bytes byte })

unfoldable pub push_event : Keyboard → KeyEvent → Keyboard
push_event k event =
    if is_full event_queue_size k.events
    then (record k { drop_event_count = inc64 k.drop_event_count })
    else (record k { events = put event_queue_size k.events event })

-- `x >> 6`, `x >> 12` and `x >> 18` are quotients by powers of two.
unfoldable pub emit_utf8 : Keyboard → ℕ → Keyboard
emit_utf8 k cp =
    if leb cp 0x7f
    then push_byte k (u8 cp)
    else (if leb cp 0x7ff
        then push_byte (push_byte k (u8 (bit_or 0xc0 (cp / 64))))
            (u8 (bit_or 0x80 (bit_and cp 0x3f)))
        else (if leb cp 0xffff
            then (if leb 0xd800 cp && leb cp 0xdfff
                then k
                else push_byte
                    (push_byte (push_byte k (u8 (bit_or 0xe0 (cp / 4096))))
                      (u8 (bit_or 0x80 (bit_and (cp / 64) 0x3f))))
                    (u8 (bit_or 0x80 (bit_and cp 0x3f))))
            else (if leb cp 0x10ffff
                then push_byte
                    (push_byte
                      (push_byte (push_byte k (u8 (bit_or 0xf0 (cp / 262144))))
                        (u8 (bit_or 0x80 (bit_and (cp / 4096) 0x3f))))
                      (u8 (bit_or 0x80 (bit_and (cp / 64) 0x3f))))
                    (u8 (bit_or 0x80 (bit_and cp 0x3f)))
                else k)))

-- The bytes of a string before its end.
unfoldable pub emit_sequence : Keyboard → List ℕ → Keyboard
emit_sequence k [] = k
emit_sequence k (b ∷ bs) = emit_sequence (push_byte k b) bs

unfoldable pub emit_input_bytes : Keyboard → KeyEvent → Keyboard
emit_input_bytes k event =
    if not event.pressed
    then k
    else (if not (event.unicode == 0)
        then emit_utf8
            (if not (bit_and event.modifiers (bit_or mod_alt mod_altgr) == 0)
              then push_byte k 0x1b
              else k)
            event.unicode
        else emit_sequence k (special_sequence event.keycode))

unfoldable pub init : Keyboard → Keyboard
init k = record {
  bytes = record k.bytes { head = 0; tail = 0 };
  events = record k.events { head = 0; tail = 0 };
  extended = false;
  e1_skip = 0;
  flags = record { modifiers = 0; locks = 0 };
  key_down = λ i. if ltb i key_max then false else k.key_down i;
  rx_scancode_count = 0;
  drop_byte_count = 0;
  drop_event_count = 0;
}

-- The end of `keyboard_on_irq`, once the key is known.
unfoldable pub on_key : Keyboard → Key → Bool → Keyboard
on_key k key released =
    let pressed = not released in
    let flags = update_state key pressed k.flags in
    let event : KeyEvent = record {
      keycode = key;
      unicode = if pressed then keycode_to_unicode key flags.modifiers flags.locks else 0;
      modifiers = flags.modifiers;
      locks = flags.locks;
      pressed = pressed;
      repeat = if pressed then k.key_down (number key) else false;
    } in
    let noted = record k { key_down = set k.key_down (number key) pressed; flags = flags } in
    emit_input_bytes (push_event noted event) event

-- The key of a code, and the flag for an extended code spent.
abbrev pub decode : Keyboard → ℕ → Key
decode k code = if k.extended then scancode_to_key_e0 code else scancode_to_key code

-- The argument is the byte that `inb` reads from the port.
unfoldable pub on_irq : Keyboard → ℕ → Keyboard
on_irq k0 scancode =
    let k = record k0 { rx_scancode_count = inc64 k0.rx_scancode_count } in
    let released = not (bit_and scancode 0x80 == 0) in
    let code = bit_and scancode 0x7f in
    let key = decode k code in
    let decoded = record k { extended = false } in
    if scancode == 0xe0
    then (record k { extended = true })
    else (if scancode == 0xe1
        then (record k { e1_skip = 5 })
        else (if ltb 0 k.e1_skip
            then (record k { e1_skip = k.e1_skip - 1 })
            else (if number key == 0 || leb key_max (number key)
                then decoded
                else on_key decoded key released)))

unfoldable pub pop_char : Keyboard → Keyboard × Option ℕ
pop_char k =
    if is_empty k.bytes
    then (k, none)
    else (record k { bytes = drop_front byte_queue_size k.bytes }, some (front k.bytes))

unfoldable pub pop_event : Keyboard → Keyboard × Option KeyEvent
pop_event k =
    if is_empty k.events
    then (k, none)
    else (record k { events = drop_front event_queue_size k.events }, some (front k.events))

-- The interrupts of a list of scancodes, in order.
unfoldable pub on_irqs : Keyboard → List ℕ → Keyboard
on_irqs k [] = k
on_irqs k (s ∷ ss) = on_irqs (on_irq k s) ss
