-- ===== src/Tty/Refine.antt =====
-- Canonical mode of kernel/src/core/tty.c against the line editor, over any bytes.
use walu_os.Prelude.{
  ℕ, zero, suc, ◌+◌, ◌-◌, ◌≡◌, ◌≤◌, refl, ap, sym, subst, ◌∙◌, inl, inr, true, false, ◌&&◌, ◌||◌,
  ◌==◌, ==_iff, leb, List, [], ◌∷◌, ◌++◌, append_assoc, length, length-append, length-take, take,
  u64, inc64, arith, Bool-cases, ◌⊎◌,
}
use walu_os.Tty.Defs.{Io, attached, escape_filter, handle_canonical, receive, inject_bytes}
use walu_os.Tty.Sink.{Inv, waiting, capacity, length-waiting}
use walu_os.Ring.Offer.{take-take-append}
use walu_os.Tty.Flush.{Delivers-nil}
use walu_os.Tty.Canonical.{typed, editor_of, escape_of, Handles, delivered}
use walu_os.Tty.Edit.{edit-Handles}
use walu_os.Tty.Editor
use walu_os.Tty.Editor.{Editor, Escape, resting, started, control, Step, press_in, press}

escape_cases : (n : ℕ) → n ≤ 2 → (n ≡ 0) ⊎ (n ≡ 1) ⊎ (n ≡ 2)
escape_cases n h = omega arith

escape_of_zero : (n : ℕ) → (n == 0) ≡ true → escape_of n ≡ resting
escape_of_zero n h = rw ((==_iff n 0).0 h)

escape_of_one : (n : ℕ) → (n == 1) ≡ true → escape_of n ≡ started
escape_of_one n h = rw ((==_iff n 1).0 h)

escape_of_two : (n : ℕ) → (n == 0) ≡ false → (n == 1) ≡ false → escape_of n ≡ control
escape_of_two zero h k = cc
escape_of_two (suc zero) h k = cc
escape_of_two (suc (suc n)) h k = refl

module _ {io : Io} (v : Inv io) where
  -- The filter swallows a byte: only the state of the filter and its counter change.
  abbrev swallowed : ℕ → Io
  swallowed state = record io {
    tty = record io.tty {
      escape_state = state;
      escape_discard_count = inc64 io.tty.escape_discard_count;
    };
  }

  swallow :
      (state : ℕ) {e : Escape}
      → state ≤ 2
      → escape_of state ≡ e
      → Handles io (Editor.silent (typed io.tty.line io.tty.line_len) e) (swallowed state)
  swallow state {e} h same =
      let c = delivered {e = editor_of io.tty} v (Delivers-nil v) in
      record {
        inv = record {
          ptys_inv = v.ptys_inv;
          read_in = v.read_in;
          line_fits = v.line_fits;
          escape_in = h;
          drop_fits = v.drop_fits;
          overflow_fits = v.overflow_fits;
          rx_fits = v.rx_fits;
          escapes_fit = omega arith;
        };
        edits = ap (λ k. record { line = typed io.tty.line io.tty.line_len; escape = k }) same;
        counts = record {
          reads = c.reads;
          drops = c.drops;
          overflows = c.overflows;
          mode = refl;
          target = refl;
          counted = refl;
          escapes = refl;
        };
      }

  handle_canonical-Handles :
      (b : ℕ) → Handles io (press (editor_of io.tty) b) (handle_canonical io b)
  unfolding handle_canonical escape_filter press press_in
  handle_canonical-Handles b = elim (Bool-cases (io.tty.escape_state == 0)) [
    | inl z ↦ elim (Bool-cases (b == 0x1b)) [
      | inl e ↦ rw (z, escape_of_zero io.tty.escape_state z, e) (swallow 1 (omega arith) refl)
      | inr e ↦
          rw (z, escape_of_zero io.tty.escape_state z, e)
            (edit-Handles v ((==_iff io.tty.escape_state 0).0 z) b)
    ]
    | inr nz ↦ elim (Bool-cases (io.tty.escape_state == 1)) [
      | inl one ↦ elim (Bool-cases (b == b'[' || b == b'O')) [
        | inl e ↦
            rw (nz, escape_of_one io.tty.escape_state one, one, e) (swallow 2 (omega arith) refl)
        | inr e ↦
            rw (nz, escape_of_one io.tty.escape_state one, one, e) (swallow 0 (omega arith) refl)
      ]
      | inr not_one ↦
          let two : (io.tty.escape_state == 2) ≡ true = ground (arith, v.escape_in) in
          let same = escape_of_two io.tty.escape_state nz not_one in
          elim (Bool-cases (leb b'@' b && leb b b'~')) [
            | inl e ↦ rw (nz, same, not_one, two, e) (swallow 0 (omega arith) refl)
            | inr e ↦
                rw (nz, same, not_one, two, e)
                  (swallow io.tty.escape_state (omega (arith, v.escape_in)) same)
          ]
    ]
  ]

-- Received bytes are counted; for the rest, `receive` is canonical mode's handler.
pub record Receives (io : Io) (s : Step) (bs : List ℕ) (out : Io) : Type 0 where
  pub inv : Inv out
  pub edits : editor_of out.tty ≡ s.editor
  pub reads : waiting out ≡ take capacity (waiting io ++ s.out)
  pub drops :
      out.tty.drop_count
      ≡ u64 (io.tty.drop_count + (length (waiting io) + length s.out - capacity) + s.lost)
  pub overflows : out.tty.line_overflow_count ≡ u64 (io.tty.line_overflow_count + s.lost)
  pub mode : out.tty.canonical ≡ io.tty.canonical
  pub target : attached out ≡ attached io
  pub counted : out.tty.rx_count ≡ u64 (io.tty.rx_count + length bs)
  pub escapes : out.tty.escape_discard_count ≡ u64 (io.tty.escape_discard_count + s.eaten)

receive_canonical :
    (io : Io) (b : ℕ)
    → io.tty.canonical ≡ true
    → receive io b
      ≡ handle_canonical (record io { tty = record io.tty { rx_count = inc64 io.tty.rx_count } }) b
unfolding receive
receive_canonical io b on = simp on

receive-Receives :
    {io : Io} (b : ℕ)
    → Inv io
    → io.tty.canonical ≡ true
    → Receives io (press (editor_of io.tty) b) (b ∷ []) (receive io b)
receive-Receives {io} b v on =
    let v' : Inv (record io { tty = record io.tty { rx_count = inc64 io.tty.rx_count } }) = record {
      ptys_inv = v.ptys_inv;
      read_in = v.read_in;
      line_fits = v.line_fits;
      escape_in = v.escape_in;
      drop_fits = v.drop_fits;
      overflow_fits = v.overflow_fits;
      rx_fits = omega arith;
      escapes_fit = v.escapes_fit;
    } in
    let h = handle_canonical-Handles v' b in
    subst (Receives io (press (editor_of io.tty) b) (b ∷ [])) (sym (receive_canonical io b on))
      (record {
        inv = h.inv;
        edits = h.edits;
        reads = h.counts.reads;
        drops = h.counts.drops;
        overflows = h.counts.overflows;
        mode = h.counts.mode;
        target = h.counts.target;
        counted = h.counts.counted;
        escapes = h.counts.escapes;
      })

Receives-append :
    {io mid out : Io} {s t : Step} {cs bs : List ℕ}
    → Inv io
    → Receives io s cs mid
    → Receives mid t bs out
    → Receives io
        (record {
          editor = t.editor;
          out = s.out ++ t.out;
          lost = s.lost + t.lost;
          eaten = s.eaten + t.eaten;
        })
        (cs ++ bs)
        out
Receives-append {io} {mid} {out} {s} {t} {cs} {bs} v h r = record {
  inv = r.inv;
  edits = r.edits;
  reads =
      r.reads
      ∙ rw h.reads (
          take-take-append capacity (waiting io ++ s.out) t.out
          ∙ ap (take capacity) (append_assoc (waiting io) s.out t.out));
  drops = omega (
    arith,
    r.drops,
    h.drops,
    ap length h.reads,
    length-take capacity (waiting io ++ s.out),
    length-append (waiting io) s.out,
    length-append s.out t.out,
    length-waiting v,
  );
  overflows = omega (arith, r.overflows, h.overflows);
  mode = r.mode ∙ h.mode;
  target = r.target ∙ h.target;
  counted = omega (arith, r.counted, h.counted, length-append cs bs);
  escapes = omega (arith, r.escapes, h.escapes);
}

-- In canonical mode, on any bytes at all, the line discipline keeps its invariant and does what the
-- line editor does: the line being typed and the escape filter are the editor's, the reader's queue is
-- what it was followed by what the editor sends, cut at 2047 bytes. Its four counters grow (modulo 2 ^ 64) by
-- the number of bytes received, of those that the queue or the line had no room for, of those of the line
-- alone, and of those that belong to an escape sequence.
pub inject_bytes-Receives :
    (bs : List ℕ) {io : Io}
    → Inv io
    → io.tty.canonical ≡ true
    → Receives io (Editor.run (editor_of io.tty) bs) bs (inject_bytes io bs)
unfolding inject_bytes Editor.run
inject_bytes-Receives [] {io} v on = record {
  inv = v;
  edits = refl;
  reads = (delivered {e = editor_of io.tty} v (Delivers-nil v)).reads;
  drops = omega (arith, v.drop_fits, length-waiting v);
  overflows = omega (arith, v.overflow_fits);
  mode = refl;
  target = refl;
  counted = omega (arith, v.rx_fits);
  escapes = omega (arith, v.escapes_fit);
}
inject_bytes-Receives (b ∷ bs) {io} v on =
    let h = receive-Receives b v on in
    let r = inject_bytes-Receives bs h.inv (h.mode ∙ on) in
    Receives-append v h (
      subst (λ e. Receives (receive io b) (Editor.run e bs) bs (inject_bytes (receive io b) bs))
        h.edits r)
