-- ===== src/Tty/Target.antt =====
-- kernel/src/core/tty.c changes the terminal that it is attached to only in `tty_attach_session`.
use walu_os.Prelude.{
  ℕ, zero, suc, ◌+◌, ◌≡◌, refl, ◌∙◌, Bool, true, false, not, ◌||◌, ◌==◌, ltb, if◌then◌else◌, List,
  [], ◌∷◌, arith, inc64,
}
use walu_os.Tty.Defs.{
  Io, Tty, Echo, echoes, enqueue_read, flush_from, flush_line_buffer, escape_filter, interrupt,
  erase, end_line, end_of_file, type_byte, edit, handle_canonical, handle_noncanonical, receive,
  inject_bytes, is_printable, line_buffer_size, store, overflow, putc, write,
}

record Keeps (io out : Io) : Type 0 where
  same : out.tty.session_pty ≡ io.tty.session_pty

either-Keeps :
    {io : Io} (test : Bool) {a b : Io} → Keeps io a → Keeps io b → Keeps io (if test then a else b)
either-Keeps true x y = x
either-Keeps false x y = y

Keeps-Keeps : {a b c : Io} → Keeps a b → Keeps b c → Keeps a c
Keeps-Keeps x y = record { same = y.same ∙ x.same }

enqueue_read-Keeps : (io : Io) (byte : ℕ) → Keeps io (enqueue_read io byte).0
unfolding enqueue_read
enqueue_read-Keeps io byte = record { same = ground arith }

echoes-Keeps : (io : Io) (e : Echo) → Keeps io (echoes io e)
echoes-Keeps io e = either-Keeps io.tty.echo (record { same = refl }) (record { same = refl })

flush_from-Keeps : (n i : ℕ) (io : Io) → Keeps io (flush_from n i io)
unfolding flush_from
flush_from-Keeps zero i io = record { same = refl }
flush_from-Keeps (suc n) i io =
    Keeps-Keeps (enqueue_read-Keeps io (io.tty.line i))
      (flush_from-Keeps n (i + 1) (enqueue_read io (io.tty.line i)).0)

flush_line_buffer-Keeps : (io : Io) → Keeps io (flush_line_buffer io)
unfolding flush_line_buffer
flush_line_buffer-Keeps io = record { same = (flush_from-Keeps io.tty.line_len 0 io).same }

escape_filter_same : (t : Tty) (byte : ℕ) → (escape_filter t byte).0.session_pty ≡ t.session_pty
unfolding escape_filter
escape_filter_same t byte = ground arith

interrupt-Keeps : (io : Io) (byte : ℕ) → Keeps io (interrupt io byte)
unfolding interrupt
interrupt-Keeps io byte =
    let cleared = record io { tty = record io.tty { line_len = 0 } } in
    let start : Keeps io cleared = record { same = refl } in
    Keeps-Keeps start (
      Keeps-Keeps (enqueue_read-Keeps cleared byte)
        (echoes-Keeps (enqueue_read cleared byte).0 (write (b'^' ∷ b'C' ∷ b'\n' ∷ []))))

erase-Keeps : (io : Io) → Keeps io (erase io)
unfolding erase
erase-Keeps io = record { same = ground arith }

end_line-Keeps : (io : Io) → Keeps io (end_line io)
unfolding end_line
end_line-Keeps io =
    let t = io.tty in
    let stored = record io {
      tty = if ltb (t.line_len + 1) line_buffer_size then store t b'\n' else overflow t;
    } in
    let start : Keeps io stored = record { same = ground arith } in
    let flushed = Keeps-Keeps start (
      Keeps-Keeps (echoes-Keeps stored (putc b'\n'))
        (flush_line_buffer-Keeps (echoes stored (putc b'\n')))) in
    record { same = flushed.same }

end_of_file-Keeps : (io : Io) (byte : ℕ) → Keeps io (end_of_file io byte)
unfolding end_of_file
end_of_file-Keeps io byte =
    either-Keeps (io.tty.line_len == 0) (enqueue_read-Keeps io byte) (flush_line_buffer-Keeps io)

type_byte-Keeps : (io : Io) (byte : ℕ) → Keeps io (type_byte io byte)
unfolding type_byte
type_byte-Keeps io byte = record { same = ground arith }

edit-Keeps : (io : Io) (byte : ℕ) → Keeps io (edit io byte)
unfolding edit
edit-Keeps io byte = either-Keeps (byte == 0x03) (interrupt-Keeps io byte) (
    either-Keeps (byte == 0x0c) (enqueue_read-Keeps io byte) (
      either-Keeps (byte == 0x08 || byte == 0x7f) (erase-Keeps io) (
        either-Keeps (byte == b'\n') (end_line-Keeps io) (
          either-Keeps (byte == 0x04) (end_of_file-Keeps io byte) (
            either-Keeps (not (is_printable byte)) (record { same = refl })
              (type_byte-Keeps io byte))))))

handle_canonical-Keeps : (io : Io) (byte : ℕ) → Keeps io (handle_canonical io byte)
unfolding handle_canonical
handle_canonical-Keeps io byte =
    let filtered = record io { tty = (escape_filter io.tty byte).0 } in
    let same_filtered : Keeps io filtered = record { same = escape_filter_same io.tty byte } in
    either-Keeps (escape_filter io.tty byte).1 same_filtered
      (Keeps-Keeps same_filtered (edit-Keeps filtered byte))

receive-Keeps : (io : Io) (byte : ℕ) → Keeps io (receive io byte)
unfolding receive handle_noncanonical
receive-Keeps io byte =
    let counted = record io { tty = record io.tty { rx_count = inc64 io.tty.rx_count } } in
    let start : Keeps io counted = record { same = refl } in
    either-Keeps io.tty.canonical (Keeps-Keeps start (handle_canonical-Keeps counted byte)) (
      Keeps-Keeps start (
        Keeps-Keeps (enqueue_read-Keeps counted byte)
          (echoes-Keeps (enqueue_read counted byte).0 (putc byte))))

-- Bytes leave the line discipline attached to the terminal that it was attached to.
pub inject_bytes-session_pty :
    (io : Io) (bs : List ℕ) → (inject_bytes io bs).tty.session_pty ≡ io.tty.session_pty
unfolding inject_bytes
inject_bytes-session_pty io [] = refl
inject_bytes-session_pty io (b ∷ bs) =
    inject_bytes-session_pty (receive io b) bs ∙ (receive-Keeps io b).same
