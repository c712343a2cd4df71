-- ===== src/Shell/Tests.antt =====
-- The shell at its prompt.
use walu_os.Prelude.{
  ℕ, zero, suc, ◌≡◌, refl, true, false, inl, [], ◌∷◌, ◌++◌, Bytes, codes, All, pos, ◌==◌, arith,
}
use walu_os.Ring.{contents, count}
use walu_os.Pty
use walu_os.Session.{active_pty, find, find_from}
use walu_os.Keyboard.Keycode.{key_none}
use walu_os.Keyboard.Queue.{pending}
use walu_os.Tty.{write, clear, inject_bytes}
use walu_os.Tty.Lines.{IsText}
use walu_os.Tty.Sink.{waiting_in}
use walu_os.Shell.Defs.{Kernel, line_text, text_from}
use walu_os.Shell.Loop.{shell_poll}
use walu_os.Shell.Stale.{send_and_redraw, shell_poll-redraw_stale}
use walu_os.Shell.Poll.{AtPrompt, Executes, shell_poll-Executes}

abbrev at : Bytes → ℕ → ℕ
at [] i = 0
at (b ∷ bs) zero = b
at (b ∷ bs) (suc i) = at bs i

abbrev help : Bytes
help = codes "help"

-- The kernel with `help` and the end of the line in the keyboard's queue, and `meminfo` in the shell's buffer.
abbrev booted : Kernel
booted = record {
  keyboard = record {
    bytes = record { queue = at (help ++ b'\n' ∷ []); head = 5; tail = 0 };
    events = record {
      queue = λ i. record {
        keycode = key_none;
        unicode = 0;
        modifiers = 0;
        locks = 0;
        pressed = false;
        repeat = false;
      };
      head = 0;
      tail = 0;
    };
    extended = false;
    e1_skip = 0;
    flags = record { modifiers = 0; locks = 0 };
    key_down = λ i. false;
    rx_scancode_count = 0;
    drop_byte_count = 0;
    drop_event_count = 0;
  };
  io = record {
    tty = record {
      read = Pty.zero_ring;
      line = λ i. 0;
      line_len = 0;
      canonical = true;
      echo = true;
      escape_state = 0;
      rx_count = 0;
      drop_count = 0;
      line_overflow_count = 0;
      escape_discard_count = 0;
      line_truncated = false;
      session_id = pos 1;
      session_pty = pos 0;
    };
    ptys = record {
      slots = λ i. record { allocated = true; m2s = Pty.zero_ring; s2m = Pty.zero_ring };
      dropped_bytes = 0;
      invalid_ops = 0;
    };
    console = [];
  };
  sessions = record {
    entries = λ i. record { in_use = i == 0; id = pos 1; leader_pid = 1; controlling_pty = pos 0 };
    active = pos 1;
    invalid_ops = 0;
  };
  pmm = record { frame_bitmap = λ i. 0; total_frames = 4096; used_frames = 0 };
  ticks = 0;
  history = record { entries = λ i. []; head = 0; count = 0; pushed = 0 };
  shell_line = at (codes "meminfo");
  shell_len = 0;
}

help-IsText : All IsText help
help-IsText = (
  inl (omega arith, λ e. absurd (omega arith)),
  (
    inl (omega arith, λ e. absurd (omega arith)),
    (
      inl (omega arith, λ e. absurd (omega arith)),
      (inl (omega arith, λ e. absurd (omega arith)), tt),
    ),
  ),
)

booted-AtPrompt : AtPrompt booted
unfolding waiting_in Pty.is_valid contents count active_pty find find_from
booted-AtPrompt = record {
  io_inv = record {
    ptys_inv = record {
      slots_in = λ i. (
        record { head_in = omega arith; tail_in = omega arith },
        record { head_in = omega arith; tail_in = omega arith },
      );
      dropped_fits = omega arith;
    };
    read_in = record { head_in = omega arith; tail_in = omega arith };
    line_fits = omega arith;
    escape_in = omega arith;
    drop_fits = omega arith;
    overflow_fits = omega arith;
    rx_fits = omega arith;
    escapes_fit = omega arith;
  };
  keyboard_ok = record {
    bytes_in = record { head_in = omega arith; tail_in = omega arith };
    drops_fit = omega arith;
  };
  canonical = refl;
  line_empty = refl;
  is_attached = refl;
  foreground = refl;
  nothing_waits = refl;
  shell_empty = refl;
}

booted_pending : pending booted.keyboard ≡ help ++ b'\n' ∷ []
unfolding contents count
booted_pending = refl

booted_stale : line_text booted ≡ codes "meminfo"
unfolding text_from
booted_stale = refl

-- The keys of `help`, Ctrl+D and Ctrl+L in the keyboard's queue.
abbrev interrupted : Kernel
interrupted = record booted {
  keyboard = record booted.keyboard {
    bytes = record { queue = at (help ++ send_and_redraw); head = 6; tail = 0 };
  };
}

interrupted-AtPrompt : AtPrompt interrupted
interrupted-AtPrompt = record {
  io_inv = booted-AtPrompt.io_inv;
  keyboard_ok = record {
    bytes_in = record { head_in = omega arith; tail_in = omega arith };
    drops_fit = omega arith;
  };
  canonical = refl;
  line_empty = refl;
  is_attached = booted-AtPrompt.is_attached;
  foreground = booted-AtPrompt.foreground;
  nothing_waits = booted-AtPrompt.nothing_waits;
  shell_empty = refl;
}

interrupted_pending : pending interrupted.keyboard ≡ help ++ send_and_redraw
unfolding contents count
interrupted_pending = refl

shell_poll-redraw_stale_example :
    (shell_poll 1 interrupted).io.console
    ≡ write (help ++ codes "nfo")
      ∷ write (codes "\u{1b}[1;32mwalu\u{1b}[0m> ")
      ∷ clear
      ∷ (inject_bytes interrupted.io (help ++ send_and_redraw)).console
shell_poll-redraw_stale_example =
    shell_poll-redraw_stale interrupted interrupted-AtPrompt 1 help (codes "meminfo")
      interrupted_pending booted_stale help-IsText (omega arith) (omega arith) (omega arith)

shell_poll-Executes_example : Executes booted help (shell_poll 1 booted)
shell_poll-Executes_example =
    shell_poll-Executes booted booted-AtPrompt 1 help booted_pending help-IsText (omega arith)
      (λ e. cc)
