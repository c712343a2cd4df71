-- ===== src/Tty/Sink.antt =====
-- Where the line discipline of kernel/src/core/tty.c delivers bytes: the queue of the attached
-- terminal, or the file's own read queue.
use walu_os.Prelude.{
  ℕ, ◌+◌, ◌-◌, ◌^◌, ◌≡◌, ◌<◌, ◌≤◌, refl, ap, sym, ◌∙◌, inl, inr, true, false, ◌&&◌, ◌==◌, ==_iff,
  if◌then◌else◌, some, List, [], ◌∷◌, ◌++◌, append-nil, length, length-append, take, take_all,
  take-append_length, ℤ, u64, arith, Bool-cases,
}
use walu_os.Ring.{Ring, InBounds, is_full, contents, count}
use walu_os.Ring.Fifo.{length-contents, count-lt, is_full_iff, put-InBounds, contents-put}
use walu_os.Pty.{Ptys, is_valid, master_write, index, queue_size}
use walu_os.Pty.Transfer.{Elsewhere, master_write-Sent, is_valid-Elsewhere}
use walu_os.Pty.Transfer
use walu_os.Tty.Defs.{
  Io, attached, is_nonneg, count_drop, enqueue_read, read_queue_size, line_buffer_size,
}

-- The bytes that wait for the reader.
unfoldable pub waiting_in : Ptys → ℤ → Ring ℕ → List ℕ
waiting_in p id read =
    if is_nonneg id && is_valid p id
    then contents queue_size (p.slots (index id)).m2s
    else contents read_queue_size read

abbrev pub waiting : Io → List ℕ
waiting io = waiting_in io.ptys io.tty.session_pty io.tty.read

-- A queue of 2048 cells holds 2047 bytes.
abbrev pub capacity : ℕ
capacity = 2047

-- What holds between two calls.
pub record Inv (io : Io) : Type 0 where
  pub ptys_inv : Transfer.Inv io.ptys
  pub read_in : InBounds read_queue_size io.tty.read
  pub line_fits : io.tty.line_len < line_buffer_size
  pub escape_in : io.tty.escape_state ≤ 2
  pub drop_fits : io.tty.drop_count < 2 ^ 64
  pub overflow_fits : io.tty.line_overflow_count < 2 ^ 64
  pub rx_fits : io.tty.rx_count < 2 ^ 64
  pub escapes_fit : io.tty.escape_discard_count < 2 ^ 64

-- `bs` went to the reader's queue, as far as they fit, each byte that did not was counted, and nothing
-- else of the line discipline's state changed.
pub record Delivers (io : Io) (bs : List ℕ) (out : Io) : Type 0 where
  pub inv : Inv out
  pub reads : waiting out ≡ take capacity (waiting io ++ bs)
  pub drops :
      out.tty.drop_count ≡ u64 (io.tty.drop_count + (length (waiting io) + length bs - capacity))
  pub rest : out.tty ≡ record io.tty { read = out.tty.read; drop_count = out.tty.drop_count }
  pub same_target : attached out ≡ attached io
  pub silent : out.console ≡ io.console

pub length-waiting : {io : Io} → Inv io → length (waiting io) ≤ capacity
unfolding waiting_in
length-waiting {io} v = elim (Bool-cases (attached io)) [
  | inl on ↦ rw on (
      omega (
        arith,
        length-contents queue_size _ (v.ptys_inv.slots_in (index io.tty.session_pty)).0,
        count-lt queue_size _ (v.ptys_inv.slots_in (index io.tty.session_pty)).0,
      ))
  | inr off ↦
      rw off
        (omega (arith, length-contents queue_size _ v.read_in, count-lt queue_size _ v.read_in))
]

take_full : (n : ℕ) (xs ys : List ℕ) → length xs ≡ n → take n (xs ++ ys) ≡ xs
take_full n xs ys e = rw (← e) (take-append_length xs ys)

take_room : (n : ℕ) (xs ys : List ℕ) → length xs + length ys ≤ n → take n (xs ++ ys) ≡ xs ++ ys
take_room n xs ys h = take_all n (xs ++ ys) (omega (arith, length-append xs ys))

module _ {io : Io} (b : ℕ) (v : Inv io) where
  -- The two ways of a byte, once it is known which queue it is for and whether that has room.
  dropped :
      (q : Ptys)
      → Transfer.Inv q
      → attached (record io { ptys = q }) ≡ attached io
      → waiting (record io { ptys = q }) ≡ waiting io
      → length (waiting io) ≡ capacity
      → Delivers io (b ∷ []) (count_drop (record io { ptys = q }))
  unfolding waiting_in
  dropped q vq same kept full = record {
    inv = record {
      ptys_inv = vq;
      read_in = v.read_in;
      line_fits = v.line_fits;
      escape_in = v.escape_in;
      drop_fits = omega arith;
      overflow_fits = v.overflow_fits;
      rx_fits = v.rx_fits;
      escapes_fit = v.escapes_fit;
    };
    reads = kept ∙ sym (take_full capacity (waiting io) (b ∷ []) full);
    drops = ap (λ (k : ℕ). u64 (io.tty.drop_count + k)) (omega arith);
    rest = refl;
    same_target = same;
    silent = refl;
  }

  accepted :
      {out : Io}
      → Inv out
      → waiting out ≡ waiting io ++ (b ∷ [])
      → length (waiting io) < capacity
      → out.tty ≡ record io.tty { read = out.tty.read; drop_count = out.tty.drop_count }
      → out.tty.drop_count ≡ io.tty.drop_count
      → attached out ≡ attached io
      → out.console ≡ io.console
      → Delivers io (b ∷ []) out
  accepted vo reads room rest drops same silent = record {
    inv = vo;
    reads = reads ∙ sym (take_room capacity (waiting io) (b ∷ []) (omega arith));
    drops = drops ∙ omega (arith, v.drop_fits);
    rest = rest;
    same_target = same;
    silent = silent;
  }

  to_read_queue : attached io ≡ false → Delivers io (b ∷ []) (enqueue_read io b).0
  unfolding enqueue_read waiting_in
  to_read_queue off =
      let r = io.tty.read in
      let n = length-contents queue_size r v.read_in in
      let f = is_full_iff queue_size r v.read_in in
      elim (Bool-cases (is_full read_queue_size r)) [
        | inl full ↦
            rw (off, full)
              (dropped io.ptys v.ptys_inv refl refl (rw off (omega (arith, n, f.0 full))))
        | inr more ↦
            let room : count queue_size r + 1 < queue_size =
              ground (arith, count-lt queue_size r v.read_in, f) in
            rw (off, more)
              (accepted
                (record {
                  ptys_inv = v.ptys_inv;
                  read_in = put-InBounds queue_size r v.read_in b;
                  line_fits = v.line_fits;
                  escape_in = v.escape_in;
                  drop_fits = v.drop_fits;
                  overflow_fits = v.overflow_fits;
                  rx_fits = v.rx_fits;
                  escapes_fit = v.escapes_fit;
                })
                (rw off (contents-put queue_size r v.read_in b room)) (rw off (omega (arith, n)))
                refl refl refl refl)
      ]

  to_terminal : attached io ≡ true → Delivers io (b ∷ []) (enqueue_read io b).0
  unfolding enqueue_read waiting_in
  to_terminal on =
      let id = io.tty.session_pty in
      let ok : is_valid io.ptys id ≡ true = ground arith in
      let (sent, same, e, inv) = master_write-Sent v.ptys_inv id ok (b ∷ []) in
      let n =
        length-contents queue_size (io.ptys.slots (index id)).m2s
          (v.ptys_inv.slots_in (index id)).0 in
      let on' : attached (record io { ptys = q }) ≡ true =
        ground (arith, is_valid-Elsewhere ok e) in
      let vo : Inv (record io { ptys = q }) = record {
        ptys_inv = inv;
        read_in = v.read_in;
        line_fits = v.line_fits;
        escape_in = v.escape_in;
        drop_fits = v.drop_fits;
        overflow_fits = v.overflow_fits;
        rx_fits = v.rx_fits;
        escapes_fit = v.escapes_fit;
      } in
      elim (Bool-cases (wrote == 1)) [
        | inl yes_one ↦
            let one : wrote ≡ 1 = (==_iff wrote 1).0 yes_one in
            rw (on, yes_one)
              (accepted vo (rw (on', on) (sent.bytes ∙ rw one))
                (rw on (omega (arith, n, sent.sent))) refl refl (on' ∙ sym on) refl)
        | inr not_one ↦
            let none_sent : wrote ≡ 0 = ground (arith, sent.sent) in
            rw (on, not_one)
              (dropped q inv (on' ∙ sym on) (rw (on', on) (sent.bytes ∙ rw (none_sent, append-nil)))
                (rw on (
                  omega (
                    arith,
                    n,
                    sent.sent,
                    v.ptys_inv,
                    count-lt queue_size _ (v.ptys_inv.slots_in (index id)).0,
                  ))))
      ]
    where
      q : Ptys
      q = (master_write io.ptys io.tty.session_pty (some (b ∷ []))).0

      wrote : ℕ
      wrote = (master_write io.ptys io.tty.session_pty (some (b ∷ []))).1

pub enqueue_read-Delivers : {io : Io} (b : ℕ) → Inv io → Delivers io (b ∷ []) (enqueue_read io b).0
enqueue_read-Delivers {io} b v = elim (Bool-cases (attached io)) [
  | inl on ↦ to_terminal b v on
  | inr off ↦ to_read_queue b v off
]
