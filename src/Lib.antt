-- ===== src/Lib.antt =====
-- Verification of the input path of the Walu OS kernel (kernel/src/core/keyboard.c, tty.c, pty.c,
-- session.c and shell.c), of its console (console.c), frames (pmm.c), page tables (vmm.c) and framebuffer
-- (video.c), and of the programs of its userland (userland/walud, userland/authd, userland/storaged).
--
-- A scancode reaches `keyboard_on_irq`, which keeps modifiers, locks and held keys, queues a key event
-- and queues the bytes that the key stands for. `tty_poll_input` takes those bytes; in canonical mode
-- it edits a line, and delivers it to the terminal (pty.c) of the session it is attached to, or to its
-- own read queue. session.c keeps which terminal controls which session and which session is active;
-- `shell_poll` reads from the terminal of the active session, gathers a line and executes it. walud reads
-- a unit file and starts a program as the unit's user, authd checks passwords against a policy and the
-- shadow file, storaged decides whether a device may be formatted.
--
-- Files and code:
-- - Prelude: tests, lists, machine words, arrays and binary digits that the other files share. Text,
--   Lines and Tokens have what the programs use of the C library (strcmp, snprintf, fgets, strtok_r).
-- - Ring: the circular queue that keyboard.c, tty.c and pty.c write out (`next = (head + 1) % SIZE`).
--   Wrap has its arithmetic, Fifo its refinement to a list, Offer the queue that drops when full.
-- - Pty: kernel/src/core/pty.c. Defs has one function for each of the file; the globals are a record
--   that each takes and returns. Channel and Transfer are about one transfer, Alloc about
--   `pty_alloc`, Refusals about calls without a terminal, Spec is the specification and Refine relates the two.
-- - Session: kernel/src/core/session.c, in the same way. A pointer to an entry is its index.
-- - Keyboard: kernel/src/core/keyboard.c and kernel/include/kernel/keyboard.h. Keycode has the keys
--   and the scancode tables, Keymap what keys mean, Defs the state and the functions; the byte that
--   `inb` reads is the argument of `on_irq`. Event is the specification (a decoder of scancodes and
--   the bytes of an event); Queue, Notes, Irq and Refine relate the two. Utf8, Modifiers and Prefixes are
--   about the encoder, the modifier keys and sequences of scancodes.
-- - Tty: kernel/src/core/tty.c. The branches of `tty_handle_canonical` are functions of their own
--   (interrupt, erase, end_line, end_of_file, type_byte). The console is the list of calls made of it.
--   Editor is the specification, Sink and Flush are about delivery, Canonical, Keys, Ending and Edit
--   about single bytes, Refine about all. Lines and SpecialKeys are about whole lines and sequences.
--   Target is about the terminal it is attached to. Poll has the loop over the keyboard's queue.
-- - Console: kernel/src/core/console.c. Screen has the grid, the cursor and what is drawn, Ansi the escape
--   sequences, Defs the functions that take bytes, Numbers those that print numbers; Cursor, Bounds
--   and Bytes are about the cursor, Position about the sequence that places it. Both backends keep the
--   same grid; what is sent to the serial line and the pixels of a glyph are left out.
-- - Pmm: kernel/src/core/pmm.c. Defs has the bitmap and the allocators; Cells is about one byte of
--   the bitmap, Bitmap about the set of frames and its count, Frames about allocating and freeing,
--   Region about `mark_region`. Boot has `pmm_init`: Tags the walk of the loader's information block,
--   Layout the blocks that describe a list of tags, Freed and Init what is free afterwards.
-- - Vmm: kernel/src/core/vmm.c. Defs has the functions, Walk the processor's walk over the tables, which is
--   the specification. Tables has the invariant, Link and Ensure are about `ensure_table`, Entry about the
--   bits of an entry, Store about its effect on all walks, Map about `vmm_map_2m`. `invlpg` is left out.
--   BootTables has tables as boot.S lays them out.
-- - Video: kernel/src/core/video.c, with the reads of the information block of Pmm. Defs has the functions;
--   Probe is about the walk over the tags, Identity about the mapping of the framebuffer.
-- - Shell: kernel/src/core/shell.c. Defs has the kernel's state as the shell sees it, History the
--   commands kept by rust/src/lib.rs, Reports the commands that print, Selftest `cmd_selftest`, Loop
--   `execute_command` and `shell_poll`. Line is about the line typed, Redraw and Stale about the form feed, Quiet about
--   what commands leave alone, Poll about the way from the keyboard to `execute_command`.
-- - Startup: kernel/src/core/kernel.c, from `keyboard_init` to `shell_init`. Defs has the code and Prompt
--   the state that it leaves.
-- - Userland: a program is a function from its arguments and what the system answers (a record) to the
--   list of what it does and its exit code. Effects has these and userland/common/log.c.
--   Storaged: userland/storaged/storaged.c. Mounts has the mount table and `fscanf`, Defs the options
--   and the probe, Commands the commands; Options, Table and Logs are about parts, Audit and
--   Safety about whole runs.
--   Authd: userland/authd/authd.c. Policy, Shadow and Defs have the code; Strength is about the policy,
--   Accounts about the shadow file as a table, Unset about accounts without a password. `crypt` is a
--   parameter.
--   Walud: userland/walud/walud.c. Trim, Unit, Start and Defs have the code; a child process is the list
--   of its acts. Trimmed is about `trim`, Lines and Render about files that are written out, Bounds about
--   the buffers, Launch about the program that is run.
--
-- Numbers: a `uint64_t` counter wraps at 2 ^ 64, written out. `int` identifiers are integers. `>> k` is
-- a quotient by 2 ^ k and `&`, `|`, `^` are the operations on binary digits; `&` with a constant of adjacent
-- ones is a quotient and a remainder in pmm.c, vmm.c and video.c. Arrays are functions of the index, and
-- page tables are words of the memory.
--
-- Loops: those over a fixed table count the rounds left (8 slots, 16 entries, the length of the line);
-- those over a buffer follow its list. The loop of `tty_poll_input` has 1024 rounds, one more than the
-- keyboard's queue can hold bytes. The walks of `pmm_init` and of
-- `video_probe_multiboot`, and the loop of `shell_poll` over the queue of tty.c, take their number of
-- rounds as an argument; the loop over the terminal has 2048 rounds, more than its queue can hold bytes, and the scan of the mount
-- table one round more than the file has bytes.
--
-- Not modelled: an interrupt that comes while a function of the kernel runs, the functions that return
-- one global, and the rest of the kernel (interrupt controllers, the bring-up of the hardware).
-- Texts of the userland's arguments hold no null byte, and the programs' output always succeeds.

pub mod Prelude
pub mod Ring
pub mod Pty
pub mod Session
pub mod Tty
pub mod Keyboard
pub mod Console
pub mod Pmm
pub mod Vmm
pub mod Video
pub mod Shell
pub mod Startup
pub mod Userland
