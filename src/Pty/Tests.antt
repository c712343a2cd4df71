-- ===== src/Pty/Tests.antt =====
-- Runs of kernel/src/core/pty.c on small inputs, and its theorems at them.
use walu_os.Prelude.{ℕ, ◌+◌, ◌%◌, ◌^◌, ◌≡◌, refl, true, some, List, [], ◌∷◌, pos, minus_one, arith}
use walu_os.Ring.{is_full, is_empty, put, drop_front, front, count, contents}
use walu_os.Pty.Defs.{
  Ptys, queue_size, queue_write, queue_read, init, is_valid, alloc_from, alloc, master_write,
  slave_write, master_read, slave_read,
}
use walu_os.Pty.Refusals.{NoTerminal, closed, refused}
use walu_os.Pty.Transfer.{Inv, slave_read-master_write}
use walu_os.Pty.Alloc.{Search, alloc-Search, init-Inv, alloc-Inv}
use walu_os.Pty.Spec
use walu_os.Pty.Spec.{
  Op, open_pty, send_to_slave, send_to_master, read_as_slave, read_as_master, Reply, accepted,
  bytes,
}
use walu_os.Pty.Refine.{view, run, step, run_refines}

-- One terminal, number 0, is open.
abbrev one_open : Ptys
one_open = (alloc init).0

one_open-Inv : Inv one_open
one_open-Inv = alloc-Inv init-Inv

abbrev hello : List ℕ
hello = 104 ∷ 105 ∷ []

one_open_valid : is_valid one_open (pos 0) ≡ true
unfolding is_valid alloc alloc_from init
one_open_valid = refl

second_closed : NoTerminal one_open (pos 1)
unfolding alloc alloc_from init
second_closed = closed 1 refl

no_input : contents queue_size (one_open.slots 0).m2s ≡ []
unfolding alloc alloc_from init contents count
no_input = refl

abbrev script : List Op
script =
    open_pty
    ∷ send_to_slave (pos 0) (some hello)
    ∷ send_to_slave minus_one (some hello)
    ∷ read_as_slave (pos 0) true 1
    ∷ read_as_slave (pos 0) true 8
    ∷ read_as_master (pos 0) true 8
    ∷ []

script_runs :
    run init script
    ≡ Reply.opened (pos 0)
      ∷ accepted 2
      ∷ accepted 0
      ∷ bytes (104 ∷ [])
      ∷ bytes (105 ∷ [])
      ∷ bytes []
      ∷ []
unfolding run step init alloc alloc_from master_write slave_read master_read queue_write queue_read
    is_full is_empty put drop_front front
script_runs = refl

run_refines_example : run init script ≡ Spec.run (view init) script
run_refines_example = run_refines script init-Inv

alloc-Search_example : Search 0 8 one_open (alloc one_open)
alloc-Search_example = alloc-Search one_open

refused_example :
    let q = record one_open { invalid_ops = (one_open.invalid_ops + 1) % 2 ^ 64 } in
    (master_write one_open (pos 1) (some hello) ≡ (q, 0))
    × (slave_write one_open (pos 1) (some hello) ≡ (q, 0))
    × (slave_read one_open (pos 1) true 4 ≡ (q, []))
    × (master_read one_open (pos 1) true 4 ≡ (q, []))
refused_example = refused one_open (pos 1) (some hello) true 4 second_closed

slave_read-master_write_example :
    let (q, wrote) = master_write one_open (pos 0) (some hello) in
    let (r, got) = slave_read q (pos 0) true 64 in
    (wrote ≡ 2)
    × (got ≡ hello)
    × (contents queue_size (r.slots 0).m2s ≡ [])
    × (r.dropped_bytes ≡ one_open.dropped_bytes)
slave_read-master_write_example =
    slave_read-master_write (pos 0) hello 64 one_open-Inv one_open_valid no_input (omega arith)
      (omega arith)
