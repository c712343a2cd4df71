-- ===== src/Startup/Tests.antt =====
-- The start of the kernel out of memory in disorder.
use walu_os.Prelude.{◌==◌, true, false, [], pos}
use walu_os.Keyboard.Keycode.{key_none}
use walu_os.Pty
use walu_os.Shell.Defs.{Kernel}
use walu_os.Startup.Defs.{bring_up}
use walu_os.Startup.Prompt.{Started, bring_up-Started}

-- Every queue and length is out of its bounds.
abbrev disordered : Kernel
disordered = record {
  keyboard = record {
    bytes = record { queue = λ i. i; head = 5000; tail = 7 };
    events = record {
      queue = λ i. record {
        keycode = key_none;
        unicode = 0;
        modifiers = 0;
        locks = 0;
        pressed = false;
        repeat = false;
      };
      head = 0;
      tail = 0;
    };
    extended = false;
    e1_skip = 0;
    flags = record { modifiers = 0; locks = 0 };
    key_down = λ i. false;
    rx_scancode_count = 0;
    drop_byte_count = 0;
    drop_event_count = 0;
  };
  io = record {
    tty = record {
      read = Pty.zero_ring;
      line = λ i. 0;
      line_len = 999;
      canonical = false;
      echo = true;
      escape_state = 0;
      rx_count = 0;
      drop_count = 0;
      line_overflow_count = 0;
      escape_discard_count = 0;
      line_truncated = false;
      session_id = pos 1;
      session_pty = pos 0;
    };
    ptys = record {
      slots = λ i. record { allocated = true; m2s = Pty.zero_ring; s2m = Pty.zero_ring };
      dropped_bytes = 0;
      invalid_ops = 0;
    };
    console = [];
  };
  sessions = record {
    entries = λ i. record { in_use = i == 0; id = pos 1; leader_pid = 1; controlling_pty = pos 0 };
    active = pos 4;
    invalid_ops = 0;
  };
  pmm = record { frame_bitmap = λ i. 0; total_frames = 4096; used_frames = 0 };
  ticks = 0;
  history = record { entries = λ i. []; head = 0; count = 0; pushed = 0 };
  shell_line = λ i. i;
  shell_len = 200;
}

bring_up-Started_example : Started (bring_up disordered)
bring_up-Started_example = bring_up-Started disordered
