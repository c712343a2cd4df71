-- ===== src/Tty/Defs.antt =====
-- The state and the functions of kernel/src/core/tty.c. Each function takes the state `Io`, which
-- holds the file's globals, those of pty.c and the calls made to the console, and returns the new one.
use walu_os.Prelude.{
  ℕ, zero, suc, ◌+◌, ◌-◌, Bool, true, false, not, ◌&&◌, ◌||◌, ◌==◌, if◌then◌else◌, ltb, leb, Option,
  none, some, List, [], ◌∷◌, set, ℤ, pos, negsuc, minus_one, inc64,
}
use walu_os.Ring.{Ring, is_full, is_empty, put, drop_front, front}
use walu_os.Pty.{Ptys, is_valid, master_write}

abbrev pub read_queue_size : ℕ
read_queue_size = 2048

abbrev pub line_buffer_size : ℕ
line_buffer_size = 512

pub record Tty : Type 0 where
  pub read : Ring ℕ
  pub line : ℕ → ℕ
  pub line_len : ℕ
  pub canonical : Bool
  pub echo : Bool
  pub escape_state : ℕ
  pub rx_count : ℕ  -- uint64_t, as the three below
  pub drop_count : ℕ
  pub line_overflow_count : ℕ
  pub escape_discard_count : ℕ
  pub line_truncated : Bool
  pub session_id : ℤ
  pub session_pty : ℤ

-- The calls of kernel/include/kernel/console.h that the line discipline and the shell make.
pub data Echo : Type 0 where
  write : List ℕ → Echo
  putc write_dec write_hex : ℕ → Echo
  backspace clear : Echo

pub record Io : Type 0 where
  pub tty : Tty
  pub ptys : Ptys
  pub console : List Echo  -- the latest call first

-- `if (tty_echo)` before a console call
abbrev pub echoes : Io → Echo → Io
echoes io e = if io.tty.echo then (record io { console = e ∷ io.console }) else io

abbrev pub is_nonneg : ℤ → Bool
is_nonneg (pos i) = true
is_nonneg (negsuc i) = false

abbrev pub attached : Io → Bool
attached io = is_nonneg io.tty.session_pty && is_valid io.ptys io.tty.session_pty

abbrev pub count_drop : Io → Io
count_drop io = record io { tty = record io.tty { drop_count = inc64 io.tty.drop_count } }

unfoldable pub enqueue_read : Io → ℕ → Io × Bool
enqueue_read io byte =
    let (ptys', wrote) = master_write io.ptys io.tty.session_pty (some (byte ∷ [])) in
    let sent = record io { ptys = ptys' } in
    if attached io
    then (if wrote == 1 then (sent, true) else (count_drop sent, false))
    else (if is_full read_queue_size io.tty.read then (count_drop io, false) else (
      record io { tty = record io.tty { read = put read_queue_size io.tty.read byte } },
      true,
    ))

-- The loop of `tty_flush_line_buffer` at index `i`, with the number of rounds left first.
unfoldable pub flush_from : ℕ → ℕ → Io → Io
flush_from zero i io = io
flush_from (suc n) i io = flush_from n (i + 1) (enqueue_read io (io.tty.line i)).0

unfoldable pub flush_line_buffer : Io → Io
flush_line_buffer io =
    let done = flush_from io.tty.line_len 0 io in
    record done { tty = record done.tty { line_len = 0 } }

unfoldable pub is_printable : ℕ → Bool
is_printable byte = leb 0x20 byte || byte == 0x09

-- The new state and `*consumed`.
unfoldable pub escape_filter : Tty → ℕ → Tty × Bool
escape_filter t byte =
    if t.escape_state == 0
    then (if byte == 0x1b
        then (
          record t { escape_state = 1; escape_discard_count = inc64 t.escape_discard_count },
          true,
        )
        else (t, false))
    else (let u = record t { escape_discard_count = inc64 t.escape_discard_count } in
        if t.escape_state == 1
        then (record u { escape_state = if byte == b'[' || byte == b'O' then 2 else 0 }, true)
        else (if t.escape_state == 2 && leb b'@' byte && leb byte b'~'
            then (record u { escape_state = 0 }, true)
            else (u, true)))

abbrev pub store : Tty → ℕ → Tty
store t byte = record t { line = set t.line t.line_len byte; line_len = t.line_len + 1 }

abbrev pub overflow : Tty → Tty
overflow t = record t {
  drop_count = inc64 t.drop_count;
  line_overflow_count = inc64 t.line_overflow_count;
  line_truncated = true;
}

-- `byte == 0x03`
unfoldable pub interrupt : Io → ℕ → Io
interrupt io byte =
    let cleared = record io { tty = record io.tty { line_len = 0 } } in
    echoes (enqueue_read cleared byte).0 (write (b'^' ∷ b'C' ∷ b'\n' ∷ []))

unfoldable pub erase : Io → Io
erase io =
    if ltb 0 io.tty.line_len
    then echoes (record io { tty = record io.tty { line_len = io.tty.line_len - 1 } }) backspace
    else io

unfoldable pub end_line : Io → Io
end_line io =
    let t = io.tty in
    let stored = record io {
      tty = if ltb (t.line_len + 1) line_buffer_size then store t b'\n' else overflow t;
    } in
    let flushed = flush_line_buffer (echoes stored (putc b'\n')) in
    record flushed { tty = record flushed.tty { line_truncated = false } }

unfoldable pub end_of_file : Io → ℕ → Io
end_of_file io byte =
    if io.tty.line_len == 0 then (enqueue_read io byte).0 else flush_line_buffer io

unfoldable pub type_byte : Io → ℕ → Io
type_byte io byte =
    let t = io.tty in
    if leb line_buffer_size (t.line_len + 1)
    then (let belled =
          if not t.line_truncated && t.echo
          then (record io { console = putc 0x07 ∷ io.console })
          else io in
        record belled { tty = overflow t })
    else echoes (record io { tty = store t byte }) (putc byte)

-- `tty_handle_canonical` behind its escape filter.
unfoldable pub edit : Io → ℕ → Io
edit io byte =
    if byte == 0x03
    then interrupt io byte
    else (if byte == 0x0c
        then (enqueue_read io byte).0
        else (if byte == 0x08 || byte == 0x7f
            then erase io
            else (if byte == b'\n'
                then end_line io
                else (if byte == 0x04
                    then end_of_file io byte
                    else (if not (is_printable byte) then io else type_byte io byte)))))

unfoldable pub handle_canonical : Io → ℕ → Io
handle_canonical io byte =
    let (t, consumed) = escape_filter io.tty byte in
    let filtered = record io { tty = t } in if consumed then filtered else edit filtered byte

unfoldable pub handle_noncanonical : Io → ℕ → Io
handle_noncanonical io byte = echoes (enqueue_read io byte).0 (putc byte)

-- The read queue's array and the line's keep what they held.
unfoldable pub init : Tty → Tty
init t = record {
  read = record t.read { head = 0; tail = 0 };
  line = t.line;
  line_len = 0;
  canonical = true;
  echo = true;
  escape_state = 0;
  rx_count = 0;
  drop_count = 0;
  line_overflow_count = 0;
  escape_discard_count = 0;
  line_truncated = false;
  session_id = minus_one;
  session_pty = minus_one;
}

-- One round of the loops of `tty_poll_input` and `tty_test_inject_bytes`.
unfoldable pub receive : Io → ℕ → Io
receive io byte =
    let counted = record io { tty = record io.tty { rx_count = inc64 io.tty.rx_count } } in
    if io.tty.canonical then handle_canonical counted byte else handle_noncanonical counted byte

-- `tty_test_inject_bytes` on the bytes of a buffer, and `tty_poll_input` on the bytes that
-- `keyboard_pop_char` gives before it returns false.
unfoldable pub inject_bytes : Io → List ℕ → Io
inject_bytes io [] = io
inject_bytes io (b ∷ bs) = inject_bytes (receive io b) bs

unfoldable pub pop_char : Tty → Tty × Option ℕ
pop_char t =
    if is_empty t.read
    then (t, none)
    else (record t { read = drop_front read_queue_size t.read }, some (front t.read))

abbrev pub set_canonical : Tty → Bool → Tty
set_canonical t enabled = record t { canonical = enabled }

abbrev pub set_echo : Tty → Bool → Tty
set_echo t enabled = record t { echo = enabled }

abbrev pub attach_session : Tty → ℤ → ℤ → Tty
attach_session t session pty = record t { session_id = session; session_pty = pty }
