-- ===== src/Console/Bytes.antt =====
-- The cursor of kernel/src/core/console.c under any bytes.
use walu_os.Prelude.{
  ℕ, zero, suc, ◌-◌, ◌*◌, ◌%◌, ◌≡◌, ◌≤◌, refl, ◌⊎◌, inl, inr, Bool, true, false, not, ◌&&◌, ◌==◌,
  if◌then◌else◌, ltb, leb, u32, List, [], ◌∷◌, bit_and, bit_or, arith,
}
use walu_os.Console.Screen.{Console, AnsiState, ansi_ground, ansi_esc, ansi_csi, reset_params}
use walu_os.Console.Defs.{
  emit_codepoint, is_valid, emit_utf8_byte, put_spaces, handle_ground_byte, handle_csi_byte,
  to_ground, putc, write,
}
use walu_os.Console.Cursor.{Inv, raw_put_visible-Inv, raw_newline-Inv, backspace-Inv}
use walu_os.Console.Bounds.{either, push_current_param-Inv, execute_csi-Inv}

module _ {rows cols : ℕ} where
  emit_codepoint-Inv :
      {c : Console} (cp : ℕ) → Inv rows cols c → Inv rows cols (emit_codepoint c cp)
  unfolding emit_codepoint
  emit_codepoint-Inv cp v =
      either (Inv rows cols) (cp == 0) v (
        either (Inv rows cols) (leb cp 0x7f) (raw_put_visible-Inv cp v)
          (raw_put_visible-Inv b'?' v))

  -- The parsers' registers change, and nothing else that the invariant reads but the counts.
  parsing :
      {c : Console} (state : AnsiState) (count current : ℕ) (active : Bool) (cp needed total : ℕ)
      → count ≤ 8
      → needed ≤ 3
      → Inv rows cols c
      → Inv rows cols (record c {
        ansi_parser_state = state;
        ansi_param_count = count;
        ansi_param_current = current;
        ansi_param_active = active;
        utf8_codepoint = cp;
        utf8_needed = needed;
        utf8_total = total;
      })
  parsing state count current active cp needed total hc hn v = record {
    rows_pos = v.rows_pos;
    cols_pos = v.cols_pos;
    row_in = v.row_in;
    col_in = v.col_in;
    params_in = hc;
    needed_in = hn;
    rows_is = v.rows_is;
    cols_is = v.cols_is;
  }

  emit_utf8_byte-Inv :
      {c : Console} (byte : ℕ) → Inv rows cols c → Inv rows cols (emit_utf8_byte c byte)
  unfolding emit_utf8_byte
  emit_utf8_byte-Inv {c} byte v =
      let cp = bit_or (u32 (c.utf8_codepoint * 64)) (bit_and byte 0x3f) in
      let waiting : (n needed : ℕ)
          → needed ≤ 3
          → (k : ℕ)
          → Inv rows cols (record c { utf8_codepoint = n; utf8_needed = needed; utf8_total = k }) =
        λ n needed h k.
          parsing c.ansi_parser_state c.ansi_param_count c.ansi_param_current c.ansi_param_active n
            needed k v.params_in h v in
      let shown = if is_valid c.utf8_total cp then cp else b'?' in
      let e = emit_codepoint-Inv shown (waiting cp 0 (omega arith) c.utf8_total) in
      either (Inv rows cols) (c.utf8_needed == 0)
        (either (Inv rows cols) (bit_and byte 0xe0 == 0xc0) (waiting _ 1 (omega arith) 1) (
          either (Inv rows cols) (bit_and byte 0xf0 == 0xe0) (waiting _ 2 (omega arith) 2) (
            either (Inv rows cols) (bit_and byte 0xf8 == 0xf0) (waiting _ 3 (omega arith) 3)
              (emit_codepoint-Inv b'?' v))))
        (either (Inv rows cols) (not (bit_and byte 0xc0 == 0x80))
          (emit_codepoint-Inv b'?' (waiting 0 0 (omega arith) 0))
          (either (Inv rows cols) (c.utf8_needed == 1)
            (record {
              rows_pos = e.rows_pos;
              cols_pos = e.cols_pos;
              row_in = e.row_in;
              col_in = e.col_in;
              params_in = e.params_in;
              needed_in = e.needed_in;
              rows_is = e.rows_is;
              cols_is = e.cols_is;
            })
            (waiting cp (c.utf8_needed - 1) (omega (arith, v.needed_in)) c.utf8_total)))

  put_spaces-Inv : (n : ℕ) {c : Console} → Inv rows cols c → Inv rows cols (put_spaces n c)
  unfolding put_spaces
  put_spaces-Inv zero v = v
  put_spaces-Inv (suc n) v = put_spaces-Inv n (raw_put_visible-Inv 0x20 v)

  handle_ground_byte-Inv :
      {c : Console} (byte : ℕ) → Inv rows cols c → Inv rows cols (handle_ground_byte c byte)
  unfolding handle_ground_byte
  handle_ground_byte-Inv {c} byte v =
      either (Inv rows cols) (byte == 0x1b)
        (parsing ansi_esc c.ansi_param_count c.ansi_param_current c.ansi_param_active
          c.utf8_codepoint c.utf8_needed c.utf8_total v.params_in v.needed_in v)
        (either (Inv rows cols) (byte == b'\n') (raw_newline-Inv v) (
          either (Inv rows cols) (byte == 0x0d)
            (record {
              rows_pos = v.rows_pos;
              cols_pos = v.cols_pos;
              row_in = v.row_in;
              col_in = v.cols_pos;
              params_in = v.params_in;
              needed_in = v.needed_in;
              rows_is = v.rows_is;
              cols_is = v.cols_is;
            })
            (either (Inv rows cols) (byte == 0x08) (backspace-Inv v) (
              either (Inv rows cols) (byte == 0x09) (put_spaces-Inv (4 - c.cursor_col % 4) v) (
                either (Inv rows cols) (ltb byte 0x20) v (
                  either (Inv rows cols) (ltb byte 0x80) (raw_put_visible-Inv byte v)
                    (emit_utf8_byte-Inv byte v)))))))

  to_ground-Inv : {c : Console} → Inv rows cols c → Inv rows cols (to_ground c)
  to_ground-Inv {c} v =
      parsing ansi_ground c.ansi_param_count c.ansi_param_current c.ansi_param_active
        c.utf8_codepoint c.utf8_needed c.utf8_total v.params_in v.needed_in v

  reset_params-Inv : {c : Console} → Inv rows cols c → Inv rows cols (reset_params c)
  reset_params-Inv {c} v =
      parsing c.ansi_parser_state 0 0 false c.utf8_codepoint c.utf8_needed c.utf8_total
        (omega arith) v.needed_in v

  handle_csi_byte-Inv :
      {c : Console} (byte : ℕ) → Inv rows cols c → Inv rows cols (handle_csi_byte c byte)
  unfolding handle_csi_byte
  handle_csi_byte-Inv {c} byte v =
      either (Inv rows cols) (leb b'0' byte && leb byte b'9')
        (parsing c.ansi_parser_state c.ansi_param_count _ true c.utf8_codepoint c.utf8_needed
          c.utf8_total v.params_in v.needed_in v)
        (either (Inv rows cols) (byte == b';') (push_current_param-Inv v) (
          either (Inv rows cols) (leb 0x40 byte && leb byte 0x7e)
            (reset_params-Inv (to_ground-Inv (execute_csi-Inv byte (push_current_param-Inv v))))
            (to_ground-Inv v)))

state_cases : (s : AnsiState) → (s ≡ ansi_ground) ⊎ (s ≡ ansi_esc) ⊎ (s ≡ ansi_csi)
state_cases ansi_ground = inl refl
state_cases ansi_esc = inr (inl refl)
state_cases ansi_csi = inr (inr refl)

module _ {rows cols : ℕ} where
  putc-Inv : {c : Console} (byte : ℕ) → Inv rows cols c → Inv rows cols (putc c byte)
  unfolding putc
  putc-Inv {c} byte v = elim (state_cases c.ansi_parser_state) [
    | inl e ↦ rw (e, putc) (handle_ground_byte-Inv byte v)
    | inr (inl e) ↦
        rw (e, putc)
          (either (Inv rows cols) (byte == b'[')
            (parsing ansi_csi 0 0 false c.utf8_codepoint c.utf8_needed c.utf8_total (omega arith)
              v.needed_in v)
            (handle_ground_byte-Inv byte (to_ground-Inv v)))
    | inr (inr e) ↦ rw (e, putc) (handle_csi_byte-Inv byte v)
  ]

  -- Writing any bytes to a console whose cursor is on the screen keeps the size of the screen and
  -- leaves the cursor on it, with at most 8 parameters noted and at most 3 bytes of a UTF-8 sequence
  -- awaited.
  pub write-Inv : (bs : List ℕ) {c : Console} → Inv rows cols c → Inv rows cols (write c bs)
  unfolding write
  write-Inv [] v = v
  write-Inv (b ∷ bs) v = write-Inv bs (putc-Inv b v)
