-- ===== src/Tty/Tests.antt =====
-- The line discipline of kernel/src/core/tty.c on small inputs, and its theorems at them.
use walu_os.Prelude.{
  ℕ, ap, ◌≡◌, refl, ◌∙◌, true, false, inl, List, [], ◌∷◌, ◌++◌, length, replicate, minus_one, All,
  arith,
}
use walu_os.Ring.{contents, count}
use walu_os.Pty
use walu_os.Pty.Alloc.{init-Inv}
use walu_os.Keyboard.Keycode.{key_none, key_f5}
use walu_os.Keyboard.Keymap.{special_sequence}
use walu_os.Keyboard.{Keyboard, KeyEvent}
use walu_os.Keyboard.Queue.{pending, ByteQueueOk}
use walu_os.Tty.Poll.{poll_input, poll_input-inject_bytes}
use walu_os.Tty.SpecialKeys.{Ignores, inject_bytes-special_sequence}
use walu_os.Tty.Defs.{
  Io, Tty, init, inject_bytes, receive, handle_canonical, escape_filter, edit, type_byte,
  is_printable,
}
use walu_os.Tty.Sink.{Inv, waiting, waiting_in}
use walu_os.Tty.Canonical.{editor_of}
use walu_os.Tty.Editor
use walu_os.Tty.Editor.{keep}
use walu_os.Tty.Refine.{Receives, inject_bytes-Receives}
use walu_os.Tty.Lines.{IsText, short_line-waiting}

abbrev no_event : KeyEvent
no_event = record {
  keycode = key_none;
  unicode = 0;
  modifiers = 0;
  locks = 0;
  pressed = false;
  repeat = false;
}

-- The line discipline after its `init`, with no terminal attached.
abbrev fresh_tty : Tty
fresh_tty = init (record {
  read = Pty.zero_ring;
  line = λ i. 0;
  line_len = 0;
  canonical = false;
  echo = false;
  escape_state = 0;
  rx_count = 0;
  drop_count = 0;
  line_overflow_count = 0;
  escape_discard_count = 0;
  line_truncated = false;
  session_id = minus_one;
  session_pty = minus_one;
})

abbrev fresh_io : Io
fresh_io = record { tty = fresh_tty; ptys = Pty.init; console = [] }

fresh-Inv : Inv fresh_io
unfolding init
fresh-Inv = record {
  ptys_inv = init-Inv;
  read_in = record { head_in = omega arith; tail_in = omega arith };
  line_fits = omega arith;
  escape_in = omega arith;
  drop_fits = omega arith;
  overflow_fits = omega arith;
  rx_fits = omega arith;
  escapes_fit = omega arith;
}

fresh-canonical : fresh_io.tty.canonical ≡ true
unfolding init
fresh-canonical = refl

fresh-editor : editor_of fresh_io.tty ≡ keep []
unfolding init
fresh-editor = refl

fresh-waiting : waiting fresh_io ≡ []
unfolding init waiting_in Pty.is_valid Pty.init contents count
fresh-waiting = refl

abbrev hi : List ℕ
hi = b'h' ∷ b'i' ∷ []

hi-IsText : All IsText hi
hi-IsText = (
  inl (omega arith, λ e. absurd (omega arith)),
  (inl (omega arith, λ e. absurd (omega arith)), tt),
)

abbrev typed_keys : List ℕ
typed_keys = b'h' ∷ 0x1b ∷ b'[' ∷ b'A' ∷ b'j' ∷ 0x7f ∷ b'i' ∷ b'\n' ∷ []

inject_bytes-Receives_example :
    Receives fresh_io
      (Editor.run (editor_of fresh_io.tty) typed_keys)
      typed_keys
      (inject_bytes fresh_io typed_keys)
inject_bytes-Receives_example = inject_bytes-Receives typed_keys fresh-Inv fresh-canonical

short_line-waiting_example :
    let out = inject_bytes fresh_io (hi ++ (b'\n' ∷ [])) in
    (waiting out ≡ waiting fresh_io ++ (hi ++ (b'\n' ∷ [])))
    × (editor_of out.tty ≡ keep [])
    × (out.tty.drop_count ≡ fresh_io.tty.drop_count)
    × (out.tty.line_overflow_count ≡ fresh_io.tty.line_overflow_count)
short_line-waiting_example =
    short_line-waiting hi fresh-Inv fresh-canonical fresh-editor hi-IsText (omega arith)
      (omega (arith, ap length fresh-waiting))

abbrev long_text : List ℕ
long_text = replicate 600 b'x'

-- The byte 'h' waits in the keyboard's queue.
abbrev typed_keyboard : Keyboard
typed_keyboard = record {
  bytes = record { queue = λ i. b'h'; head = 1; tail = 0 };
  events = record { queue = λ i. no_event; head = 0; tail = 0 };
  extended = false;
  e1_skip = 0;
  flags = record { modifiers = 0; locks = 0 };
  key_down = λ i. false;
  rx_scancode_count = 1;
  drop_byte_count = 0;
  drop_event_count = 0;
}

poll_input-inject_bytes_example :
    let out = poll_input fresh_io typed_keyboard in
    (out.0 ≡ inject_bytes fresh_io (pending typed_keyboard))
    × (pending out.1 ≡ [])
    × ByteQueueOk out.1
    × (out.1 ≡ record typed_keyboard { bytes = out.1.bytes })
poll_input-inject_bytes_example = poll_input-inject_bytes fresh_io typed_keyboard (record {
  bytes_in = record { head_in = omega arith; tail_in = omega arith };
  drops_fit = omega arith;
})

-- After an `h`, the key F5
abbrev h_typed : Io
h_typed = inject_bytes fresh_io (b'h' ∷ [])

h_typed-Receives :
    Receives fresh_io (Editor.run (editor_of fresh_io.tty) (b'h' ∷ [])) (b'h' ∷ []) h_typed
h_typed-Receives = inject_bytes-Receives (b'h' ∷ []) fresh-Inv fresh-canonical

h_typed_rest : h_typed.tty.escape_state ≡ 0
unfolding inject_bytes receive handle_canonical escape_filter edit type_byte is_printable init
h_typed_rest = refl

inject_bytes-special_sequence_example :
    Ignores h_typed 5 (inject_bytes h_typed (0x1b ∷ b'[' ∷ b'1' ∷ b'5' ∷ b'~' ∷ []))
unfolding special_sequence
inject_bytes-special_sequence_example =
    inject_bytes-special_sequence key_f5 h_typed-Receives.inv
      (h_typed-Receives.mode ∙ fresh-canonical) h_typed_rest
