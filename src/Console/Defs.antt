-- ===== src/Console/Defs.antt =====
-- The functions of kernel/src/core/console.c that take bytes.
use walu_os.Prelude.{
  ℕ, zero, suc, ◌+◌, ◌-◌, ◌*◌, ◌%◌, Bool, true, not, ◌&&◌, ◌||◌, ◌==◌, if◌then◌else◌, ltb, leb,
  List, [], ◌∷◌, u32, bit_and, bit_or,
}
use walu_os.Console.Screen.{
  Console, ansi_ground, ansi_esc, ansi_csi, raw_put_visible, raw_newline, reset_params, backspace,
}
use walu_os.Console.Ansi.{push_current_param, execute_csi}

unfoldable pub emit_codepoint : Console → ℕ → Console
emit_codepoint c codepoint =
    if codepoint == 0
    then c
    else (if leb codepoint 0x7f then raw_put_visible c codepoint else raw_put_visible c b'?')

abbrev pub reset_utf8 : Console → Console
reset_utf8 c = record c { utf8_codepoint = 0; utf8_needed = 0; utf8_total = 0 }

abbrev pub expect : Console → ℕ → ℕ → Console
expect c codepoint n = record c { utf8_codepoint = codepoint; utf8_needed = n; utf8_total = n }

-- A code point that its sequence is too long for, a surrogate, or beyond U+10FFFF
unfoldable pub is_valid : ℕ → ℕ → Bool
is_valid total cp = not (
    total == 1 && ltb cp 0x80
    || total == 2 && ltb cp 0x800
    || total == 3 && ltb cp 0x10000
    || ltb 0x10ffff cp
    || leb 0xd800 cp && leb cp 0xdfff)

unfoldable pub emit_utf8_byte : Console → ℕ → Console
emit_utf8_byte c byte =
    let cp = bit_or (u32 (c.utf8_codepoint * 64)) (bit_and byte 0x3f) in
    let ended =
      record (emit_codepoint (record c { utf8_codepoint = cp; utf8_needed = 0 })
        (if is_valid c.utf8_total cp then cp else b'?')) { utf8_codepoint = 0; utf8_total = 0 } in
    if c.utf8_needed == 0
    then (if bit_and byte 0xe0 == 0xc0
        then expect c (bit_and byte 0x1f) 1
        else (if bit_and byte 0xf0 == 0xe0
            then expect c (bit_and byte 0x0f) 2
            else (if bit_and byte 0xf8 == 0xf0
                then expect c (bit_and byte 0x07) 3
                else emit_codepoint c b'?')))
    else (if not (bit_and byte 0xc0 == 0x80)
        then emit_codepoint (reset_utf8 c) b'?'
        else (if c.utf8_needed == 1
            then ended
            else (record c { utf8_codepoint = cp; utf8_needed = c.utf8_needed - 1 })))

-- The spaces of a tab.
unfoldable pub put_spaces : ℕ → Console → Console
put_spaces zero c = c
put_spaces (suc n) c = put_spaces n (raw_put_visible c 0x20)

unfoldable pub handle_ground_byte : Console → ℕ → Console
handle_ground_byte c byte =
    if byte == 0x1b
    then (record c { ansi_parser_state = ansi_esc })
    else (if byte == b'\n'
        then raw_newline c
        else (if byte == 0x0d
            then (record c { cursor_col = 0 })
            else (if byte == 0x08
                then backspace c
                else (if byte == 0x09
                    then put_spaces (4 - c.cursor_col % 4) c
                    else (if ltb byte 0x20
                        then c
                        else (if ltb byte 0x80
                            then raw_put_visible c byte
                            else emit_utf8_byte c byte))))))

abbrev pub to_ground : Console → Console
to_ground c = record c { ansi_parser_state = ansi_ground }

-- A byte inside a control sequence.
unfoldable pub handle_csi_byte : Console → ℕ → Console
handle_csi_byte c byte =
    if leb b'0' byte && leb byte b'9'
    then (record c {
      ansi_param_current = u32 (c.ansi_param_current * 10 + (byte - b'0'));
      ansi_param_active = true;
    })
    else (if byte == b';'
        then push_current_param c
        else (if leb 0x40 byte && leb byte 0x7e
            then reset_params (to_ground (execute_csi (push_current_param c) byte))
            else to_ground c))

-- `console_putc`, without the copy of the byte to the serial line
unfoldable pub putc : Console → ℕ → Console
putc c byte = elim c.ansi_parser_state [
  | ansi_ground ↦ handle_ground_byte c byte
  | ansi_esc ↦
      if byte == b'['
      then reset_params (record c { ansi_parser_state = ansi_csi })
      else handle_ground_byte (to_ground c) byte
  | ansi_csi ↦ handle_csi_byte c byte
]

-- `console_write`, on the bytes before the end of the string
unfoldable pub write : Console → List ℕ → Console
write c [] = c
write c (b ∷ bs) = write (putc c b) bs
