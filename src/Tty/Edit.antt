-- ===== src/Tty/Edit.antt =====
-- Each key of canonical mode of kernel/src/core/tty.c against the line editor.
use walu_os.Prelude.{
  ℕ, ◌+◌, ◌-◌, ◌≡◌, ◌<◌, refl, sym, subst, inl, inr, true, false, not, ◌&&◌, ◌||◌, ◌==◌, ==_iff,
  ltb, leb, lt→ltb, ltb→lt, le→ltb_false, if◌then◌else◌, List, [], ◌∷◌, set, length, arith,
  Bool-cases,
}
use mathlib.Core.List.{reverse}
use walu_os.Tty.Defs.{
  Io, write, putc, backspace, edit, interrupt, erase, end_line, end_of_file, type_byte,
  enqueue_read, flush_line_buffer, store, overflow, is_printable, line_buffer_size,
}
use walu_os.Tty.Sink.{Inv}
use walu_os.Tty.Flush.{Delivers-nil}
use walu_os.Tty.Canonical.{
  typed, length-typed, typed-store, Handles, Same, Same-refl, delivered, Refused, Counts-Refused,
}
use walu_os.Tty.Keys.{
  with_line, line-Inv, with_line-Same, overflow-Inv, unseen, unseen-Inv, unseen-Same,
  Handles-echoes, Handles-Same, without_last-typed, send_pending-typed, in_ground, unchanged, send,
  flush-Handles,
}
use walu_os.Tty.Editor
use walu_os.Tty.Editor.{Editor, Escape, resting, Step, keep, send_line, send_pending, key}
use walu_os.Tty.Ending.{typed_empty, without_last_empty, belled, finish_line, finish_line-Handles}

module _ {io : Io} (v : Inv io) (g : io.tty.escape_state ≡ 0) where
  abbrev line_now : List ℕ
  line_now = typed io.tty.line io.tty.line_len

  interrupt-Handles :
      (b : ℕ)
      → Handles io (record { editor = keep []; out = b ∷ []; lost = 0; eaten = 0 }) (interrupt io b)
  unfolding interrupt with_line
  interrupt-Handles b = Handles-echoes (write (b'^' ∷ b'C' ∷ b'\n' ∷ [])) (
      Handles-Same (with_line-Same io io.tty.line 0)
        (send (line-Inv v io.tty.line 0 (omega arith)) g b))

  erase-Handles :
      Handles io
        (record { editor = keep (Editor.without_last line_now); out = []; lost = 0; eaten = 0 })
        (erase io)
  unfolding erase with_line
  erase-Handles =
      let n = io.tty.line_len in
      let moved =
        Handles-Same (with_line-Same io io.tty.line (n - 1))
          (unchanged (line-Inv v io.tty.line (n - 1) (omega (arith, v.line_fits))) g) in
      let moved' =
        subst
          (λ line.
            Handles io (record { editor = keep line; out = []; lost = 0; eaten = 0 })
              (record io { tty = record io.tty { line_len = n - 1 } }))
          (without_last-typed io.tty.line n) moved in
      elim (Bool-cases (ltb 0 n)) [
        | inl some_byte ↦ rw some_byte (Handles-echoes backspace moved')
        | inr empty ↦
            let e : n ≡ 0 = ground arith in
            rw empty (
              subst
                (λ line.
                  Handles io (record { editor = keep line; out = []; lost = 0; eaten = 0 }) io)
                (sym (without_last_empty io.tty.line n e)) (unchanged v g))
      ]

  end_of_file-Handles :
      Handles io
        (record { editor = keep []; out = send_pending line_now; lost = 0; eaten = 0 })
        (end_of_file io 0x04)
  unfolding end_of_file
  end_of_file-Handles = elim (Bool-cases (io.tty.line_len == 0)) [
    | inl empty ↦
        let nothing : line_now ≡ [] = typed_empty io.tty.line io.tty.line_len (ground arith) in
        rw empty (
          subst
            (λ l.
              Handles io (record { editor = keep []; out = send_pending l; lost = 0; eaten = 0 })
                (enqueue_read io 0x04).0)
            (sym nothing)
            (subst
              (λ l.
                Handles io (record { editor = keep l; out = 0x04 ∷ []; lost = 0; eaten = 0 })
                  (enqueue_read io 0x04).0)
              nothing (send v g 0x04)))
    | inr some_bytes ↦ rw some_bytes (
        subst
          (λ bs.
            Handles io (record { editor = keep []; out = bs; lost = 0; eaten = 0 })
              (flush_line_buffer io))
          (sym (send_pending-typed io.tty.line io.tty.line_len (λ e. ground arith)))
          (flush-Handles v g))
  ]

  refused : Refused io (record io { tty = overflow io.tty })
  refused = record {
    waits = refl;
    drops = refl;
    overflows = refl;
    mode = refl;
    target = refl;
    counted = refl;
    escapes = refl;
  }

  -- Storing a byte where the line has room for it.
  store-Handles :
      (b : ℕ)
      → io.tty.line_len + 1 < line_buffer_size
      → Inv (record io { tty = store io.tty b })
        × Same io (record io { tty = store io.tty b })
        × (typed (store io.tty b).line (store io.tty b).line_len ≡ b ∷ line_now)
  unfolding with_line
  store-Handles b room =
      let line = set io.tty.line io.tty.line_len b in
      (
        line-Inv v line (io.tty.line_len + 1) room,
        with_line-Same io line (io.tty.line_len + 1),
        typed-store io.tty.line io.tty.line_len b,
      )

  type_byte-Handles :
      (b : ℕ)
      → Handles io
          (if ltb (length line_now) Editor.line_max
            then (record { editor = keep (b ∷ line_now); out = []; lost = 0; eaten = 0 })
            else (record { editor = keep line_now; out = []; lost = 1; eaten = 0 }))
          (type_byte io b)
  unfolding type_byte unseen
  type_byte-Handles b = elim (Bool-cases (leb line_buffer_size (io.tty.line_len + 1))) [
    | inl full ↦
        let no_room : ltb (length line_now) Editor.line_max ≡ false =
          le→ltb_false _ _ (ground (arith, length-typed io.tty.line io.tty.line_len)) in
        let (console, same) = belled io (not io.tty.line_truncated && io.tty.echo) (putc 0x07) in
        rw (full, no_room)
          (subst (Handles io (record { editor = keep line_now; out = []; lost = 1; eaten = 0 }))
            (sym same)
            (record {
              inv = unseen-Inv console true (overflow-Inv v);
              edits = in_ground v g line_now;
              counts =
                  Counts-Refused refused
                    (delivered (overflow-Inv v) (Delivers-nil (overflow-Inv v)))
                    (unseen-Same console true);
            }))
    | inr more ↦
        let room : ltb (length line_now) Editor.line_max ≡ true =
          lt→ltb _ _ (ground (arith, length-typed io.tty.line io.tty.line_len)) in
        let (v', same, line) = store-Handles b (ground arith) in
        rw (more, room)
          (Handles-echoes (putc b) (
            subst
              (λ l.
                Handles io (record { editor = keep l; out = []; lost = 0; eaten = 0 })
                  (record io { tty = store io.tty b }))
              line (Handles-Same same (unchanged v' g))))
  ]

  end_line-Handles : Handles io (send_line line_now) (end_line io)
  unfolding end_line finish_line
  end_line-Handles = elim (Bool-cases (ltb (io.tty.line_len + 1) line_buffer_size)) [
    | inl more ↦
        let room : ltb (length line_now) Editor.line_max ≡ true =
          lt→ltb _ _ (ground (arith, length-typed io.tty.line io.tty.line_len)) in
        let (v', same, line) = store-Handles b'\n' (ltb→lt _ _ more) in
        rw (more, room)
          (Handles-Same same (
            subst
              (λ l.
                Handles (record io { tty = store io.tty b'\n' })
                  (record { editor = keep []; out = reverse l; lost = 0; eaten = 0 })
                  (finish_line (record io { tty = store io.tty b'\n' })))
              line (finish_line-Handles v' g)))
    | inr full ↦
        let no_room : ltb (length line_now) Editor.line_max ≡ false =
          le→ltb_false _ _ (ground (arith, length-typed io.tty.line io.tty.line_len)) in
        let h = finish_line-Handles (overflow-Inv v) g in
        rw (full, no_room)
          (record {
            inv = h.inv;
            edits = h.edits;
            counts =
                Counts-Refused refused h.counts
                  (Same-refl (finish_line (record io { tty = overflow io.tty })));
          })
  ]

  pub edit-Handles : (b : ℕ) → Handles io (key line_now b) (edit io b)
  unfolding edit key is_printable Editor.is_text
  edit-Handles b = elim (Bool-cases (b == 0x03)) [
    | inl e ↦ rw e (interrupt-Handles b)
    | inr not_etx ↦ elim (Bool-cases (b == 0x0c)) [
      | inl e ↦ rw (not_etx, e) (send v g b)
      | inr not_ff ↦ elim (Bool-cases (b == 0x08 || b == 0x7f)) [
        | inl e ↦ rw (not_etx, not_ff, e) erase-Handles
        | inr not_bs ↦ elim (Bool-cases (b == b'\n')) [
          | inl e ↦ rw (not_etx, not_ff, not_bs, e) end_line-Handles
          | inr not_nl ↦ elim (Bool-cases (b == 0x04)) [
            | inl e ↦
                rw (not_etx, not_ff, not_bs, not_nl, e)
                  (subst
                    (λ c.
                      Handles io
                        (record {
                          editor = keep [];
                          out = send_pending line_now;
                          lost = 0;
                          eaten = 0;
                        })
                        (end_of_file io c))
                    (sym ((==_iff b 0x04).0 e)) end_of_file-Handles)
            | inr not_eot ↦ elim (Bool-cases (leb 0x20 b || b == 0x09)) [
              | inl e ↦ rw (not_etx, not_ff, not_bs, not_nl, not_eot, e) (type_byte-Handles b)
              | inr e ↦ rw (not_etx, not_ff, not_bs, not_nl, not_eot, e) (unchanged v g)
            ]
          ]
        ]
      ]
    ]
  ]
