-- ===== src/Shell/Poll.antt =====
-- `shell_poll` of kernel/src/core/shell.c on a line that has been typed: from the keyboard's queue through
-- tty.c and the terminal of the active session (pty.c, session.c) to `execute_command`.
use walu_os.Prelude.{
  ℕ, suc, ◌≤◌, ◌≡◌, ◌≢◌, refl, ap, sym, subst, ◌∙◌, true, ◌==◌, [], ◌∷◌, ◌++◌, Bytes, codes, All,
  length, length-append, take, take_all, drop, drop_all, drop_while, ℤ, arith,
}
use walu_os.Ring.{contents}
use walu_os.Keyboard.Queue.{pending, ByteQueueOk}
use walu_os.Tty.{Io, is_nonneg, attached, inject_bytes}
use walu_os.Tty.Sink.{Inv, waiting, waiting_in}
use walu_os.Tty.Canonical.{editor_of}
use walu_os.Tty.Editor.{keep}
use walu_os.Tty.Lines.{IsText, short_line-waiting}
use walu_os.Tty.Refine.{inject_bytes-Receives}
use walu_os.Tty.Poll.{poll_input-inject_bytes}
use walu_os.Tty.Target.{inject_bytes-session_pty}
use walu_os.Pty.{Ptys, is_valid, index, slave_read, queue_size}
use walu_os.Pty.Transfer.{slave_read-TookFront, is_valid-Elsewhere}
use walu_os.Pty.Transfer
use walu_os.Session.{active_pty}
use walu_os.Shell.Defs.{Kernel, shell_prompt}
use walu_os.Shell.Loop.{execute_command, take_bytes, read_from, polled, shell_poll}
use walu_os.Shell.Quiet.{execute_command-Same}
use walu_os.Shell.Line.{entered, take_bytes-line}

abbrev pub with_ptys : Kernel → Ptys → Kernel
with_ptys k p = record k { io = record k.io { ptys = p } }

module _ (n : ℕ) (id : ℤ) (k : Kernel) where
  read_from_cons :
      {b : ℕ} {bs : Bytes}
      → (slave_read k.io.ptys id true 128).1 ≡ b ∷ bs
      → read_from (suc n) id k
        ≡ read_from n id (take_bytes (with_ptys k (slave_read k.io.ptys id true 128).0) (b ∷ bs))
  unfolding read_from
  read_from_cons e = rw (e, read_from) refl

  -- One round of the loop, by what the terminal gives.
  pub read_from_some :
      (bytes : Bytes)
      → (slave_read k.io.ptys id true 128).1 ≡ bytes
      → bytes ≢ []
      → read_from (suc n) id k
        ≡ read_from n id (take_bytes (with_ptys k (slave_read k.io.ptys id true 128).0) bytes)
  read_from_some [] e ne = absurd (ne refl)
  read_from_some (b ∷ bs) e ne = read_from_cons e

  pub read_from_none :
      (slave_read k.io.ptys id true 128).1 ≡ []
      → read_from (suc n) id k ≡ with_ptys k (slave_read k.io.ptys id true 128).0
  unfolding read_from
  read_from_none e = rw (e, read_from) refl

-- The line `text` has been taken by the poll that led from `k` to `done`: the terminals were `between`
-- while it was executed, and `last` behind it.
pub record Executes (k : Kernel) (text : Bytes) (done : Kernel) : Type 0 where
  pub between : Ptys
  pub last : Ptys
  pub received : (polled k).io ≡ inject_bytes k.io (text ++ b'\n' ∷ [])
  pub ran :
      done
      ≡ with_ptys
          (shell_prompt
            (record (execute_command (entered (with_ptys (polled k) between) text) text) {
              shell_len = 0;
            }))
          last
  pub emptied : contents queue_size (last.slots (index k.io.tty.session_pty)).m2s ≡ []
  pub keys_emptied : pending done.keyboard ≡ []

-- What holds at the prompt: the line discipline is at an empty line, attached to the terminal of the active session,
-- and nothing waits there.
pub record AtPrompt (k : Kernel) : Type 0 where
  pub io_inv : Inv k.io
  pub keyboard_ok : ByteQueueOk k.keyboard
  pub canonical : k.io.tty.canonical ≡ true
  pub line_empty : editor_of k.io.tty ≡ keep []
  pub is_attached : attached k.io ≡ true
  pub foreground : active_pty k.sessions ≡ k.io.tty.session_pty
  pub nothing_waits : waiting k.io ≡ []
  pub shell_empty : k.shell_len ≡ 0

pub waiting-attached :
    (io : Io)
    → attached io ≡ true
    → waiting io ≡ contents queue_size (io.ptys.slots (index io.tty.session_pty)).m2s
unfolding waiting_in
waiting-attached io h = rw h refl

pub attached-is_valid : (io : Io) → attached io ≡ true → is_valid io.ptys io.tty.session_pty ≡ true
attached-is_valid io h = ground (arith, h)

-- The shell once a text has been executed.
abbrev finished : Kernel → Bytes → Kernel
finished k text = shell_prompt (record (execute_command (entered k text) text) { shell_len = 0 })

finished_ptys :
    (k : Kernel) (text : Bytes)
    → (finished k text).io.ptys ≡ (execute_command (entered k text) text).io.ptys
unfolding shell_prompt
finished_ptys k text = refl

finished_keyboard :
    (k : Kernel) (text : Bytes)
    → (finished k text).keyboard ≡ (execute_command (entered k text) text).keyboard
unfolding shell_prompt
finished_keyboard k text = refl

module _ (k : Kernel) (v : AtPrompt k) where
  pub active_loop :
      (rounds : ℕ) → shell_poll rounds k ≡ read_from queue_size k.io.tty.session_pty (polled k)
  unfolding shell_poll
  active_loop rounds =
      let seen : is_nonneg k.io.tty.session_pty ≡ true = ground (arith, v.is_attached) in
      rw (v.foreground, seen) refl

  -- What the slave reads of a queue that holds a text of at most 128 bytes.
  pub read_all_of :
      (p : Ptys) (text : Bytes)
      → Transfer.Inv p
      → is_valid p k.io.tty.session_pty ≡ true
      → contents queue_size (p.slots (index k.io.tty.session_pty)).m2s ≡ text
      → length text ≤ 128
      → let (q, bytes) = slave_read p k.io.tty.session_pty true 128 in
        (bytes ≡ text)
        × (contents queue_size (q.slots (index k.io.tty.session_pty)).m2s ≡ [])
        × Transfer.Inv q
        × (is_valid q k.io.tty.session_pty ≡ true)
  read_all_of p text inv ok holds few =
      let (took, other, dropped, elsewhere, inv') =
        slave_read-TookFront inv k.io.tty.session_pty ok 128 in
      (
        took.bytes ∙ ap (take 128) holds ∙ take_all 128 text few,
        took.left ∙ ap (drop 128) holds ∙ drop_all 128 text few,
        inv',
        is_valid-Elsewhere ok elsewhere,
      )

  -- The line discipline has put the line into the queue of the terminal.
  queued :
      (text : Bytes)
      → All IsText text
      → length text ≤ 127
      → let io = inject_bytes k.io (text ++ b'\n' ∷ []) in
        (contents queue_size (io.ptys.slots (index k.io.tty.session_pty)).m2s ≡ text ++ b'\n' ∷ [])
        × (is_valid io.ptys k.io.tty.session_pty ≡ true)
        × Transfer.Inv io.ptys
  queued text t few =
      let line = text ++ b'\n' ∷ [] in
      let io = inject_bytes k.io line in
      let delivered =
        short_line-waiting text v.io_inv v.canonical v.line_empty t (omega (arith, few))
          (omega (arith, few, ap length v.nothing_waits)) in
      let received = inject_bytes-Receives line v.io_inv v.canonical in
      let still : attached io ≡ true = received.target ∙ v.is_attached in
      let same_id = inject_bytes-session_pty k.io line in
      (
        ap (λ id. contents queue_size (io.ptys.slots (index id)).m2s) (sym same_id)
            ∙ sym (waiting-attached io still)
            ∙ delivered.0
            ∙ rw (v.nothing_waits) refl,
        ap (is_valid io.ptys) (sym same_id) ∙ attached-is_valid io still,
        received.inv.ptys_inv,
      )

  -- A line of at most 127 bytes of text that waits in the keyboard's queue at the prompt, other than the self-test, is
  -- executed as it was typed by the next `shell_poll`, which then returns with an empty line behind a new
  -- prompt, and with nothing left in the queue of the terminal nor in that of the keyboard.
  pub shell_poll-Executes :
      (rounds : ℕ) (text : Bytes)
      → pending k.keyboard ≡ text ++ b'\n' ∷ []
      → All IsText text
      → length text ≤ 127
      → drop_while (λ c. c == b' ') text ≢ codes "selftest"
      → Executes k text (shell_poll rounds k)
  shell_poll-Executes rounds text typed t few ne =
      let id = k.io.tty.session_pty in
      let line = text ++ b'\n' ∷ [] in
      let poll = poll_input-inject_bytes k.io k.keyboard v.keyboard_ok in
      let received : (polled k).io ≡ inject_bytes k.io line =
        poll.0 ∙ ap (inject_bytes k.io) typed in
      let (holds, valid, inv) =
        subst
          (λ (io : Io).
            (contents queue_size (io.ptys.slots (index id)).m2s ≡ line)
            × (is_valid io.ptys id ≡ true)
            × Transfer.Inv io.ptys)
          (sym received) (queued text t few) in
      let first =
        read_all_of (polled k).io.ptys line inv valid holds
          (omega (arith, few, length-append text (b'\n' ∷ []))) in
      let between = (slave_read (polled k).io.ptys id true 128).0 in
      let second = read_all_of between [] first.2 first.3 first.1 (omega arith) in
      let k1 = with_ptys (polled k) between in
      let done = finished k1 text in
      let quiet = execute_command-Same (entered k1 text) text ne in
      let none_left : (slave_read done.io.ptys id true 128).1 ≡ [] =
        ap (λ p. (slave_read p id true 128).1) (finished_ptys k1 text ∙ quiet.ptys) ∙ second.0 in
      let some_line : line ≢ [] =
        λ z. absurd (omega (arith, length-append text (b'\n' ∷ []), ap length z)) in
      let last = (slave_read done.io.ptys id true 128).0 in
      let ran : shell_poll rounds k ≡ with_ptys done last =
        active_loop rounds
        ∙ read_from_some 2047 id (polled k) line first.0 some_line
        ∙ ap (read_from 2047 id)
            (take_bytes-line k1 text v.shell_empty t ∙ ap (finished k1) (take_all 127 text few))
        ∙ read_from_none 2046 id done none_left in
      record {
        between = between;
        last = last;
        received = received;
        ran = ran;
        emptied =
            ap (λ p. contents queue_size ((slave_read p id true 128).0.slots (index id)).m2s)
              (finished_ptys k1 text ∙ quiet.ptys)
            ∙ second.1;
        keys_emptied =
            ap (λ x. pending x.keyboard) ran
            ∙ ap pending (finished_keyboard k1 text ∙ quiet.keyboard)
            ∙ poll.1;
      }
