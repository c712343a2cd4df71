-- ===== src/Startup/Prompt.antt =====
-- What the start of the kernel establishes.
use walu_os.Prelude.{ℕ, ◌≡◌, ◌<◌, refl, false, [], pos, arith, set_all, lt→ltb}
use walu_os.Ring.{contents, count}
use walu_os.Keyboard
use walu_os.Keyboard.Event
use walu_os.Keyboard.Event.{pending_events}
use walu_os.Keyboard.Keycode.{key_max}
use walu_os.Keyboard.Queue.{pending}
use walu_os.Tty
use walu_os.Tty.Sink.{waiting_in}
use walu_os.Pty
use walu_os.Pty.Alloc.{init-Inv, opened-SlotInBounds}
use walu_os.Pty.Transfer.{SlotInBounds}
use walu_os.Session
use walu_os.Shell.Defs.{Kernel, says, shell_prompt}
use walu_os.Shell.Loop.{shell_init}
use walu_os.Shell.Poll.{AtPrompt}
use walu_os.Startup.Defs.{reset, open_session, bring_up}

-- The part of the state that `shell_poll` relies on.
pub bring_up-AtPrompt : (k : Kernel) → AtPrompt (bring_up k)
unfolding bring_up reset open_session shell_init says shell_prompt Keyboard.init Tty.init Pty.init
    Pty.alloc Pty.alloc_from Session.init Session.create Session.create_from
    Session.set_controlling_pty Session.set_active Session.find Session.find_from Session.active_pty
    waiting_in Pty.is_valid contents count
bring_up-AtPrompt k = record {
  io_inv = record {
    ptys_inv = record {
      slots_in =
          set_all SlotInBounds (Pty.init).slots 0 (Pty.opened ((Pty.init).slots 0))
            init-Inv.slots_in (opened-SlotInBounds ((Pty.init).slots 0));
      dropped_fits = omega arith;
    };
    read_in = record { head_in = omega arith; tail_in = omega arith };
    line_fits = omega arith;
    escape_in = omega arith;
    drop_fits = omega arith;
    overflow_fits = omega arith;
    rx_fits = omega arith;
    escapes_fit = omega arith;
  };
  keyboard_ok = record {
    bytes_in = record { head_in = omega arith; tail_in = omega arith };
    drops_fit = omega arith;
  };
  canonical = refl;
  line_empty = refl;
  is_attached = refl;
  foreground = refl;
  nothing_waits = refl;
  shell_empty = refl;
}

-- The kernel once it is up. The keyboard knows of no key, prefix, modifier or lock and holds no event or
-- byte; the ten counters of the keyboard, the line discipline, the terminals and the sessions are 0.
pub record Started (k : Kernel) : Type 0 where
  pub at_prompt : AtPrompt k
  pub keyboard_ok : Event.Inv k.keyboard
  pub no_bytes : pending k.keyboard ≡ []
  pub no_events : pending_events k.keyboard ≡ []
  pub no_prefix : (k.keyboard.extended ≡ false) × (k.keyboard.e1_skip ≡ 0)
  pub no_flags : k.keyboard.flags ≡ record { modifiers = 0; locks = 0 }
  pub no_key : (i : ℕ) → i < key_max → k.keyboard.key_down i ≡ false
  pub keyboard_counts :
      (k.keyboard.rx_scancode_count ≡ 0)
      × (k.keyboard.drop_byte_count ≡ 0)
      × (k.keyboard.drop_event_count ≡ 0)
  pub tty_counts :
      (k.io.tty.rx_count ≡ 0)
      × (k.io.tty.drop_count ≡ 0)
      × (k.io.tty.line_overflow_count ≡ 0)
      × (k.io.tty.escape_discard_count ≡ 0)
  pub pty_counts : (k.io.ptys.dropped_bytes ≡ 0) × (k.io.ptys.invalid_ops ≡ 0)
  pub session_count : k.sessions.invalid_ops ≡ 0
  pub first_session :
      (k.sessions.active ≡ pos 1) × (k.io.tty.session_id ≡ pos 1) × (k.io.tty.session_pty ≡ pos 0)

-- Whatever the memory of the kernel holds before, after the start the shell is at its prompt: session 1 is
-- active, its pseudo terminal is the one that the terminal is attached to, the line editor is in
-- canonical mode with an empty line, no byte waits to be read and the line of the shell is empty. The
-- keyboard holds no byte and no event and has no prefix, modifier, lock or key down; every queue is
-- within its bounds, and the counters of keyboard, tty, pty and session are 0.
pub bring_up-Started : (k : Kernel) → Started (bring_up k)
unfolding bring_up reset open_session shell_init says shell_prompt Keyboard.init Tty.init Pty.init
    Pty.alloc Pty.alloc_from Session.init Session.create Session.create_from
    Session.set_controlling_pty Session.set_active Session.find Session.find_from Pty.is_valid
    contents count
bring_up-Started k = record {
  at_prompt = bring_up-AtPrompt k;
  keyboard_ok = record {
    bytes_ok = (bring_up-AtPrompt k).keyboard_ok;
    events_in = record { head_in = omega arith; tail_in = omega arith };
    event_drops_fit = omega arith;
    skip_in = omega arith;
    modifiers_in = omega arith;
    locks_in = omega arith;
    rx_fits = omega arith;
  };
  no_bytes = refl;
  no_events = refl;
  no_prefix = (refl, refl);
  no_flags = refl;
  no_key = λ i lt. rw (lt→ltb i key_max lt);
  keyboard_counts = (refl, refl, refl);
  tty_counts = (refl, refl, refl, refl);
  pty_counts = (refl, refl);
  session_count = refl;
  first_session = (refl, refl, refl);
}
