-- ===== src/Shell/Selftest.antt =====
-- `cmd_selftest` of kernel/src/core/shell.c.
use walu_os.Prelude.{
  ℕ, zero, suc, ◌+◌, ◌%◌, Bool, true, not, ◌&&◌, ◌||◌, ◌==◌, leb, if◌then◌else◌, some, [], ◌∷◌,
  ◌++◌, Bytes, codes, replicate, length, ℤ, minus_one,
}
use walu_os.Tty.{write, is_nonneg, inject_bytes}
use walu_os.Pty.{Ptys, alloc, master_write, slave_read, queue_size}
use walu_os.Shell.Defs.{Kernel, says, drain_active_pty}

-- The first loop: `n` letters from index `i` on.
unfoldable pub letters : ℕ → ℕ → Bytes
letters zero i = []
letters (suc n) i = (b'A' + i % 26) ∷ letters n (i + 1)

-- The loop that reads back, with the number of rounds left first and the bytes read so far.
unfoldable pub read_all : ℕ → Ptys → ℤ → ℕ → Ptys × ℕ
read_all zero p id total = (p, total)
read_all (suc n) p id total =
    let (p', bytes) = slave_read p id true 256 in
    elim bytes [ [] ↦ (p', total) | b ∷ bs ↦ read_all n p' id (total + length (b ∷ bs)) ]

-- The line of 899 bytes and its end.
abbrev pub long_line : Bytes
long_line = replicate 899 b'x' ++ b'\n' ∷ []

-- The transfers on the new terminal, and whether as much came back as went in.
abbrev pub transfer : Ptys → ℤ → Ptys × Bool
transfer p test_pty =
    let (wrote_to, wrote) = master_write p test_pty (some (letters 4096 0)) in
    let (read_from, total_read) = read_all queue_size wrote_to test_pty 0 in
    let (refused, none_written) = master_write read_from minus_one (some (b'A' ∷ [])) in
    (refused, not (wrote == 0 || not (total_read == wrote)))

-- Behind the transfers: the long line, the drain and the verdict.
abbrev pub overflow_test : Kernel → Bool → Kernel
overflow_test k ok =
    let over_before = k.io.tty.line_overflow_count in
    let io = inject_bytes k.io long_line in
    let passed = ok && not (leb io.tty.line_overflow_count over_before) in
    says (drain_active_pty (record k { io = io }))
      (write (codes "selftest: ") ∷ write (if passed then codes "PASS\n" else codes "FAIL\n") ∷ [])

unfoldable pub cmd_selftest : Kernel → Kernel
cmd_selftest k =
    let (p, test_pty) = alloc k.io.ptys in
    let allocated = record k { io = record k.io { ptys = p } } in
    if not (is_nonneg test_pty)
    then says allocated (write (codes "selftest: pty alloc failed\n") ∷ [])
    else (let (q, ok) = transfer p test_pty in
        overflow_test (record k { io = record k.io { ptys = q } }) ok)
