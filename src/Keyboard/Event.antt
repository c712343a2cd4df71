-- ===== src/Keyboard/Event.antt =====
-- The event that a scancode gives in kernel/src/core/keyboard.c, and the bytes that an event gives.
use walu_os.Prelude.{
  ℕ, ◌-◌, ◌%◌, ◌^◌, ◌≡◌, ◌<◌, ◌≤◌, inl, inr, Bool, true, false, ◌==◌, if◌then◌else◌, ltb, List, [],
  ◌∷◌, ◌++◌, set, bit_and, bit_or, Bool-cases,
}
use walu_os.Ring.{InBounds, contents}
use walu_os.Keyboard.Keycode.{Key, number, scancode_to_key, scancode_to_key_e0}
use walu_os.Keyboard.Keymap.{
  Flags, update_state, keycode_to_unicode, special_sequence, mod_alt, mod_altgr,
}
use walu_os.Keyboard.Defs.{
  Keyboard, KeyEvent, event_queue_size, push_byte, emit_sequence, emit_input_bytes,
}
use walu_os.Keyboard.Queue.{ByteQueueOk}
use walu_os.Keyboard.Utf8.{encode, emit_utf8-encode}

-- The events that wait for `keyboard_pop_event`.
abbrev pub pending_events : Keyboard → List KeyEvent
pending_events k = contents event_queue_size k.events

abbrev pub event_capacity : ℕ
event_capacity = 255

-- What holds between two interrupts.
pub record Inv (k : Keyboard) : Type 0 where
  pub bytes_ok : ByteQueueOk k
  pub events_in : InBounds event_queue_size k.events
  pub event_drops_fit : k.drop_event_count < 2 ^ 64
  pub skip_in : k.e1_skip ≤ 5
  pub modifiers_in : k.flags.modifiers < 32
  pub locks_in : k.flags.locks < 8
  pub rx_fits : k.rx_scancode_count < 2 ^ 64

-- The bytes that an event stands for: none at a release, else an escape before the UTF-8 of the
-- character if Alt or AltGr is down, and the key's sequence if it has no character.
unfoldable pub event_bytes : KeyEvent → List ℕ
event_bytes e =
    if e.pressed
    then (if e.unicode == 0
        then special_sequence e.keycode
        else ((if bit_and e.modifiers (bit_or mod_alt mod_altgr) == 0 then [] else (0x1b ∷ []))
            ++ encode e.unicode))
    else []

pub emit_input_bytes-event_bytes :
    (k : Keyboard) (e : KeyEvent) → emit_input_bytes k e ≡ emit_sequence k (event_bytes e)
unfolding emit_input_bytes event_bytes emit_sequence
emit_input_bytes-event_bytes k e = elim (Bool-cases e.pressed) [
  | inr released ↦ rw released
  | inl pressed ↦ elim (Bool-cases (e.unicode == 0)) [
    | inl bare ↦ rw (pressed, bare)
    | inr char ↦ elim (Bool-cases (bit_and e.modifiers (bit_or mod_alt mod_altgr) == 0)) [
      | inl plain ↦ rw (pressed, char, plain) (emit_utf8-encode k e.unicode)
      | inr alt ↦ rw (pressed, char, alt) (emit_utf8-encode (push_byte k 0x1b) e.unicode)
    ]
  ]
]

-- The part of the state that gives a scancode its meaning.
pub record Decoder : Type 0 where
  pub extended : Bool
  pub e1_skip : ℕ
  pub flags : Flags
  pub key_down : ℕ → Bool

abbrev pub decoder_of : Keyboard → Decoder
decoder_of k = record {
  extended = k.extended;
  e1_skip = k.e1_skip;
  flags = k.flags;
  key_down = k.key_down;
}

-- What a scancode is to a decoder: E0 and E1 are prefixes, and E1 has five scancodes skipped.
pub data Code : Type 0 where
  prefix_e0 prefix_e1 skipped keyless : Code
  of_key : Key → Bool → Code

unfoldable pub read_code : Decoder → ℕ → Code
read_code d scancode =
    let code = scancode % 128 in
    let key = if d.extended then scancode_to_key_e0 code else scancode_to_key code in
    if scancode == 0xe0
    then prefix_e0
    else (if scancode == 0xe1
        then prefix_e1
        else (if ltb 0 d.e1_skip
            then skipped
            else (if number key == 0 then keyless else of_key key (bit_and scancode 0x80 == 0))))

abbrev pub next : Decoder → Code → Decoder
next d prefix_e0 = record d { extended = true }
next d prefix_e1 = record d { e1_skip = 5 }
next d skipped = record d { e1_skip = d.e1_skip - 1 }
next d keyless = record d { extended = false }
next d (of_key key pressed) = record d {
  extended = false;
  flags = update_state key pressed d.flags;
  key_down = set d.key_down (number key) pressed;
}

abbrev pub event_of : Decoder → Code → List KeyEvent
event_of d (of_key key pressed) =
    let flags = update_state key pressed d.flags in
    record {
      keycode = key;
      unicode = if pressed then keycode_to_unicode key flags.modifiers flags.locks else 0;
      modifiers = flags.modifiers;
      locks = flags.locks;
      pressed = pressed;
      repeat = if pressed then d.key_down (number key) else false;
    }
    ∷ []
event_of d _ = []

abbrev pub bytes_of : List KeyEvent → List ℕ
bytes_of [] = []
bytes_of (e ∷ es) = event_bytes e ++ bytes_of es

-- The decoder after a list of scancodes, and the events that they gave.
unfoldable pub decode_all : Decoder → List ℕ → Decoder × List KeyEvent
decode_all d [] = (d, [])
decode_all d (s ∷ ss) =
    let code = read_code d s in
    let rest = decode_all (next d code) ss in (rest.0, event_of d code ++ rest.1)
