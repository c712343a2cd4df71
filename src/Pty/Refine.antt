-- ===== src/Pty/Refine.antt =====
-- kernel/src/core/pty.c against its specification, over sequences of calls.
use walu_os.Prelude.{
  ℕ, zero, suc, ◌+◌, ◌≡◌, refl, ap, ◌∙◌, inl, inr, true, false, Option, none, some, List, [], ◌∷◌,
  set, map-set, ==_refl, ==_ne, fun_ext, ℤ, pos, negsuc, arith, Bool-cases, if◌then◌else◌,
}
use walu_os.Ring.{contents}
use walu_os.Ring.Fifo.{length-contents}
use walu_os.Pty.Defs.{
  Ptys, Slot, opened as reopened, pty_max, queue_size, is_valid, index, alloc_from, alloc,
  master_write, master_read, slave_write, slave_read,
}
use native.Mathlib.Decide.{ℕ_discrete}
use walu_os.Pty.Transfer.{
  Inv, Elsewhere, refused_null, master_write-Inv, slave_write-Inv, slave_read-Inv, master_read-Inv,
  master_write-Sent, slave_write-Sent, slave_read-TookFront, master_read-TookFront,
}
use walu_os.Pty.Alloc.{contents-opened, alloc-Inv}
use walu_os.Pty.Spec
use walu_os.Pty.Spec.{
  Pipe, Pipes, Op, Reply, open_pty, send_to_slave, send_to_master, read_as_slave, read_as_master,
  opened, accepted, bytes, pipe_at,
}

abbrev pub pipe_of : Slot → Option Pipe
pipe_of s =
    if s.allocated
    then some
        (record { to_slave = contents queue_size s.m2s; to_master = contents queue_size s.s2m })
    else none

abbrev pub view : Ptys → Pipes
view p i = pipe_of (p.slots i)

unfoldable pub step : Ptys → Op → Ptys × Reply
step p open_pty = let (q, id) = alloc p in (q, opened id)
step p (send_to_slave id buf) = let (q, n) = master_write p id buf in (q, accepted n)
step p (send_to_master id buf) = let (q, n) = slave_write p id buf in (q, accepted n)
step p (read_as_slave id has_buf n) = let (q, got) = slave_read p id has_buf n in (q, bytes got)
step p (read_as_master id has_buf n) = let (q, got) = master_read p id has_buf n in (q, bytes got)

unfoldable pub run : Ptys → List Op → List Reply
run p [] = []
run p (op ∷ ops) = let (q, r) = step p op in r ∷ run q ops

is_valid-pipe_at :
    (p : Ptys) (id : ℤ)
    → pipe_at (view p) id ≡ (if is_valid p id then pipe_of (p.slots (index id)) else none)
unfolding is_valid
is_valid-pipe_at p (pos i) = ground arith
is_valid-pipe_at p (negsuc i) = refl

valid-allocated : (p : Ptys) (id : ℤ) → is_valid p id ≡ true → (p.slots (index id)).allocated ≡ true
unfolding is_valid
valid-allocated p (pos i) h = ground arith
valid-allocated p (negsuc i) h = cc

-- An operation on one terminal changes the view there alone.
view-Elsewhere :
    {p : Ptys} {id : ℤ} {q : Ptys}
    → is_valid p id ≡ true
    → Elsewhere p id q
    → let s = q.slots (index id) in
      view q
      ≡ set (view p) (index id) (
          some (record {
            to_slave = contents queue_size s.m2s;
            to_master = contents queue_size s.s2m;
          }))
view-Elsewhere {p} {id} {q} ok e = fun_ext λ i. elim (ℕ_discrete i (index id)) [
  | yes same ↦ rw (same, ==_refl (index id), e.taken, valid-allocated p id ok)
  | no other ↦ rw (==_ne i (index id) other, e.others i other)
]

module _ {p : Ptys} (v : Inv p) (id : ℤ) where
  send_to_slave_refines :
      (buf : List ℕ)
      → let (q, n) = master_write p id (some buf) in
        (view q, accepted n) ≡ Spec.send_slave (view p) id buf (pipe_at (view p) id)
  send_to_slave_refines buf = elim (Bool-cases (is_valid p id)) [
    | inl ok ↦
        let (s, same, e, inv) = master_write-Sent v id ok buf in
        let full = length-contents queue_size (p.slots (index id)).m2s (v.slots_in (index id)).0 in
        let n : (master_write p id (some buf)).1
            ≡ Spec.fits (contents queue_size (p.slots (index id)).m2s) buf =
          omega (arith, s.sent) in
        rw (
          is_valid-pipe_at p id,
          ok,
          valid-allocated p id ok,
          view-Elsewhere ok e,
          s.bytes,
          same,
          n,
        )
    | inr bad ↦ rw (is_valid-pipe_at p id, bad) (unfold master_write in rw bad)
  ]

  send_to_master_refines :
      (buf : List ℕ)
      → let (q, n) = slave_write p id (some buf) in
        (view q, accepted n) ≡ Spec.send_master (view p) id buf (pipe_at (view p) id)
  send_to_master_refines buf = elim (Bool-cases (is_valid p id)) [
    | inl ok ↦
        let (s, same, e, inv) = slave_write-Sent v id ok buf in
        let full = length-contents queue_size (p.slots (index id)).s2m (v.slots_in (index id)).1 in
        let n : (slave_write p id (some buf)).1
            ≡ Spec.fits (contents queue_size (p.slots (index id)).s2m) buf =
          omega (arith, s.sent) in
        rw (
          is_valid-pipe_at p id,
          ok,
          valid-allocated p id ok,
          view-Elsewhere ok e,
          s.bytes,
          same,
          n,
        )
    | inr bad ↦ rw (is_valid-pipe_at p id, bad) (unfold slave_write in rw bad)
  ]

  read_as_slave_refines :
      (n : ℕ)
      → let (q, got) = slave_read p id true n in
        (view q, bytes got) ≡ Spec.take_slave (view p) id n (pipe_at (view p) id)
  read_as_slave_refines n = elim (Bool-cases (is_valid p id)) [
    | inl ok ↦
        let (t, same, kept, e, inv) = slave_read-TookFront v id ok n in
        rw (
          is_valid-pipe_at p id,
          ok,
          valid-allocated p id ok,
          view-Elsewhere ok e,
          t.left,
          same,
          t.bytes,
        )
    | inr bad ↦ rw (is_valid-pipe_at p id, bad) (unfold slave_read in rw bad)
  ]

  read_as_master_refines :
      (n : ℕ)
      → let (q, got) = master_read p id true n in
        (view q, bytes got) ≡ Spec.take_master (view p) id n (pipe_at (view p) id)
  read_as_master_refines n = elim (Bool-cases (is_valid p id)) [
    | inl ok ↦
        let (t, same, kept, e, inv) = master_read-TookFront v id ok n in
        rw (
          is_valid-pipe_at p id,
          ok,
          valid-allocated p id ok,
          view-Elsewhere ok e,
          t.left,
          same,
          t.bytes,
        )
    | inr bad ↦ rw (is_valid-pipe_at p id, bad) (unfold master_read in rw bad)
  ]

-- A slot that has just been opened holds no byte, whatever its arrays hold.
pipe_of-opened : (s : Slot) → pipe_of (reopened s) ≡ some (record { to_slave = []; to_master = [] })
pipe_of-opened s = rw (contents-opened s.m2s.queue, contents-opened s.s2m.queue)

open_refines :
    (n i : ℕ) (p : Ptys)
    → let (q, id) = alloc_from n i p in (view q, opened id) ≡ Spec.open_from n i (view p)
unfolding alloc_from Spec.open_from
open_refines zero i p = refl
open_refines (suc n) i p = elim (Bool-cases (p.slots i).allocated) [
  | inl old ↦ rw (old, Spec.open_from) (open_refines n (i + 1) p)
  | inr new ↦
      rw (new, Spec.open_from)
        (ap (λ (a : Pipes). (a, opened (pos i)))
          (map-set pipe_of p.slots i (reopened (p.slots i))
            ∙ ap (set (view p) i) (pipe_of-opened (p.slots i))))
]

-- Every operation answers as the specification does, and leaves the terminals in the state that the
-- specification goes to.
step_refines :
    {p : Ptys} (op : Op) → Inv p → let (q, r) = step p op in (view q, r) ≡ Spec.step (view p) op
unfolding step Spec.step alloc
step_refines {p} open_pty v = open_refines pty_max 0 p
step_refines (send_to_slave id none) v = unfold master_write in refl
step_refines (send_to_slave id (some buf)) v = send_to_slave_refines v id buf
step_refines (send_to_master id none) v = unfold slave_write in refl
step_refines (send_to_master id (some buf)) v = send_to_master_refines v id buf
step_refines {p} (read_as_slave id false n) v = rw (refused_null p id n).2
step_refines (read_as_slave id true n) v = read_as_slave_refines v id n
step_refines {p} (read_as_master id false n) v = rw (refused_null p id n).3
step_refines (read_as_master id true n) v = read_as_master_refines v id n

step-Inv : {p : Ptys} (op : Op) → Inv p → Inv (step p op).0
unfolding step
step-Inv open_pty v = alloc-Inv v
step-Inv (send_to_slave id buf) v = master_write-Inv v id buf
step-Inv (send_to_master id buf) v = slave_write-Inv v id buf
step-Inv (read_as_slave id has_buf n) v = slave_read-Inv v id has_buf n
step-Inv (read_as_master id has_buf n) v = master_read-Inv v id has_buf n

-- Started where the invariant holds, `pty.c` answers every sequence of calls (opening a terminal,
-- writing and reading at either end, with any identifier, a null buffer included) exactly as the
-- specification does from the same open terminals and queues.
pub run_refines : (ops : List Op) {p : Ptys} → Inv p → run p ops ≡ Spec.run (view p) ops
unfolding run Spec.run
run_refines [] v = refl
run_refines (op ∷ ops) v = rw (run_refines ops (step-Inv op v), ← step_refines op v)
