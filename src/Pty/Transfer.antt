-- ===== src/Pty/Transfer.antt =====
-- The four transfer functions of kernel/src/core/pty.c.
use walu_os.Prelude.{
  ℕ, ◌^◌, ◌≡◌, ◌≢◌, ◌<◌, ◌≤◌, refl, ap, ◌∙◌, inl, inr, Bool, true, false, Option, none, some, List,
  [], ==_refl, set_other, set_all, length, take_all, drop_all, set, ℤ, pos, negsuc, inc64, arith,
  Bool-cases,
}
use walu_os.Ring.Fifo.{length-contents}
use walu_os.Ring.{InBounds, contents}
use walu_os.Pty.Defs.{
  Ptys, Slot, queue_size, queue_write, is_valid, index, master_write, master_read, slave_write,
  slave_read, invalid,
}
use walu_os.Pty.Channel.{TookFront, queue_read-TookFront, Sent, queue_write-Sent}

abbrev pub SlotInBounds : Slot → Type 0
SlotInBounds s = InBounds queue_size s.m2s × InBounds queue_size s.s2m

-- What holds between two calls: no index of any queue lies outside its array.
pub record Inv (p : Ptys) : Type 0 where
  pub slots_in : (i : ℕ) → SlotInBounds (p.slots i)
  pub dropped_fits : p.dropped_bytes < 2 ^ 64

-- What a transfer on `id` leaves alone: every other slot, the mark that the slot is taken, and the
-- count of invalid operations.
pub record Elsewhere (p : Ptys) (id : ℤ) (q : Ptys) : Type 0 where
  pub others : (j : ℕ) → j ≢ index id → q.slots j ≡ p.slots j
  pub taken : (q.slots (index id)).allocated ≡ (p.slots (index id)).allocated
  pub invalid_ops : q.invalid_ops ≡ p.invalid_ops

-- A store of a slot with good queues keeps the invariant, and is seen nowhere else.
store_slot :
    {p : Ptys}
    → Inv p
    → (id : ℤ) (s : Slot) (dropped : ℕ) → SlotInBounds s
    → s.allocated ≡ (p.slots (index id)).allocated
    → dropped < 2 ^ 64
    → let q = record p { slots = set p.slots (index id) s; dropped_bytes = dropped } in
      Elsewhere p id q × Inv q
store_slot {p} v id s dropped h taken fits = (
  record {
    others = λ j ne. set_other p.slots (index id) j s ne;
    taken = rw (==_refl (index id)) taken;
    invalid_ops = refl;
  },
  record { slots_in = set_all SlotInBounds p.slots (index id) s v.slots_in h; dropped_fits = fits },
)

module _ {p : Ptys} (v : Inv p) (id : ℤ) (ok : is_valid p id ≡ true) where
  -- On a valid terminal `pty_master_write` puts into the queue to the slave as many bytes of `buf`
  -- as fit, in order and behind those that wait there, returns their number and adds the number of
  -- the others to the count of dropped bytes; the other queue, the other terminals and the count of
  -- invalid operations stay, and the invariant holds.
  pub master_write-Sent :
      (buf : List ℕ)
      → let (q, n) = master_write p id (some buf) in
        Sent (p.slots (index id)).m2s (q.slots (index id)).m2s buf p.dropped_bytes q.dropped_bytes n
        × ((q.slots (index id)).s2m ≡ (p.slots (index id)).s2m)
        × Elsewhere p id q
        × Inv q
  unfolding master_write
  master_write-Sent buf =
      let s = p.slots (index id) in
      let b = v.slots_in (index id) in
      let w = queue_write-Sent s.m2s buf p.dropped_bytes b.0 v.dropped_fits in
      let fits : (queue_write s.m2s buf 0 p.dropped_bytes).dropped < 2 ^ 64 =
        omega (arith, w.lost) in
      let (elsewhere, inv) = store_slot v id _ _ (w.inside, b.1) refl fits in
      rw (ok, ==_refl (index id)) (w, refl, elsewhere, inv)

  pub slave_write-Sent :
      (buf : List ℕ)
      → let (q, n) = slave_write p id (some buf) in
        Sent (p.slots (index id)).s2m (q.slots (index id)).s2m buf p.dropped_bytes q.dropped_bytes n
        × ((q.slots (index id)).m2s ≡ (p.slots (index id)).m2s)
        × Elsewhere p id q
        × Inv q
  unfolding slave_write
  slave_write-Sent buf =
      let s = p.slots (index id) in
      let b = v.slots_in (index id) in
      let w = queue_write-Sent s.s2m buf p.dropped_bytes b.1 v.dropped_fits in
      let fits : (queue_write s.s2m buf 0 p.dropped_bytes).dropped < 2 ^ 64 =
        omega (arith, w.lost) in
      let (elsewhere, inv) = store_slot v id _ _ (b.0, w.inside) refl fits in
      rw (ok, ==_refl (index id)) (w, refl, elsewhere, inv)

  -- On a valid terminal `pty_slave_read` with a buffer of `n` bytes returns the oldest bytes that
  -- wait for the slave, at most `n`, and leaves the others; nothing else changes.
  pub slave_read-TookFront :
      (n : ℕ)
      → let (q, got) = slave_read p id true n in
        TookFront
          (p.slots (index id)).m2s
          n
          (record { ring = (q.slots (index id)).m2s; bytes = got })
        × ((q.slots (index id)).s2m ≡ (p.slots (index id)).s2m)
        × (q.dropped_bytes ≡ p.dropped_bytes)
        × Elsewhere p id q
        × Inv q
  unfolding slave_read
  slave_read-TookFront n =
      let s = p.slots (index id) in
      let b = v.slots_in (index id) in
      let t = queue_read-TookFront s.m2s n b.0 in
      let (elsewhere, inv) = store_slot v id _ _ (t.inside, b.1) refl v.dropped_fits in
      rw (ok, ==_refl (index id)) (t, refl, refl, elsewhere, inv)

  pub master_read-TookFront :
      (n : ℕ)
      → let (q, got) = master_read p id true n in
        TookFront
          (p.slots (index id)).s2m
          n
          (record { ring = (q.slots (index id)).s2m; bytes = got })
        × ((q.slots (index id)).m2s ≡ (p.slots (index id)).m2s)
        × (q.dropped_bytes ≡ p.dropped_bytes)
        × Elsewhere p id q
        × Inv q
  unfolding master_read
  master_read-TookFront n =
      let s = p.slots (index id) in
      let b = v.slots_in (index id) in
      let t = queue_read-TookFront s.s2m n b.1 in
      let (elsewhere, inv) = store_slot v id _ _ (b.0, t.inside) refl v.dropped_fits in
      rw (ok, ==_refl (index id)) (t, refl, refl, elsewhere, inv)

-- A null buffer is refused on every identifier.
pub refused_null :
    (p : Ptys) (id : ℤ) (n : ℕ)
    → (master_write p id none ≡ (invalid p, 0))
      × (slave_write p id none ≡ (invalid p, 0))
      × (slave_read p id false n ≡ (invalid p, []))
      × (master_read p id false n ≡ (invalid p, []))
unfolding master_write slave_write slave_read master_read
refused_null p id n = elim (Bool-cases (is_valid p id)) [
  | inl ok ↦ rw ok (refl, refl, refl, refl)
  | inr bad ↦ rw bad (refl, refl, refl, refl)
]

-- What the four functions do where `is_valid` refuses the identifier, with a buffer or without.
pub refused_invalid :
    (p : Ptys) (id : ℤ) (buf : Option (List ℕ)) (has_buf : Bool) (n : ℕ)
    → is_valid p id ≡ false
    → (master_write p id buf ≡ (record p { invalid_ops = inc64 p.invalid_ops }, 0))
      × (slave_write p id buf ≡ (record p { invalid_ops = inc64 p.invalid_ops }, 0))
      × (slave_read p id has_buf n ≡ (record p { invalid_ops = inc64 p.invalid_ops }, []))
      × (master_read p id has_buf n ≡ (record p { invalid_ops = inc64 p.invalid_ops }, []))
unfolding master_write slave_write slave_read master_read
refused_invalid p id none has_buf n bad = rw bad (refl, refl, refl, refl)
refused_invalid p id (some buf) has_buf n bad = rw bad (refl, refl, refl, refl)

invalid-Inv : {p : Ptys} → Inv p → Inv (invalid p)
invalid-Inv v = record { slots_in = v.slots_in; dropped_fits = v.dropped_fits }

module _ {p : Ptys} (v : Inv p) (id : ℤ) where
  pub master_write-Inv : (buf : Option (List ℕ)) → Inv (master_write p id buf).0
  master_write-Inv none = rw (refused_null p id 0).0 (invalid-Inv v)
  master_write-Inv (some buf) = elim (Bool-cases (is_valid p id)) [
    | inl ok ↦ (master_write-Sent v id ok buf).3
    | inr bad ↦ rw (refused_invalid p id (some buf) true 0 bad).0 (invalid-Inv v)
  ]

  pub slave_write-Inv : (buf : Option (List ℕ)) → Inv (slave_write p id buf).0
  slave_write-Inv none = rw (refused_null p id 0).1 (invalid-Inv v)
  slave_write-Inv (some buf) = elim (Bool-cases (is_valid p id)) [
    | inl ok ↦ (slave_write-Sent v id ok buf).3
    | inr bad ↦ rw (refused_invalid p id (some buf) true 0 bad).1 (invalid-Inv v)
  ]

  pub slave_read-Inv : (has_buf : Bool) (n : ℕ) → Inv (slave_read p id has_buf n).0
  slave_read-Inv false n = rw (refused_null p id n).2 (invalid-Inv v)
  slave_read-Inv true n = elim (Bool-cases (is_valid p id)) [
    | inl ok ↦ (slave_read-TookFront v id ok n).4
    | inr bad ↦ rw (refused_invalid p id none true n bad).2 (invalid-Inv v)
  ]

  pub master_read-Inv : (has_buf : Bool) (n : ℕ) → Inv (master_read p id has_buf n).0
  master_read-Inv false n = rw (refused_null p id n).3 (invalid-Inv v)
  master_read-Inv true n = elim (Bool-cases (is_valid p id)) [
    | inl ok ↦ (master_read-TookFront v id ok n).4
    | inr bad ↦ rw (refused_invalid p id none true n bad).3 (invalid-Inv v)
  ]

pub is_valid-Elsewhere :
    {p : Ptys} {id : ℤ} {q : Ptys} → is_valid p id ≡ true → Elsewhere p id q → is_valid q id ≡ true
unfolding is_valid
is_valid-Elsewhere {id = pos i} ok e = rw e.taken ok
is_valid-Elsewhere {id = negsuc i} ok e = ok

-- What the master writes to a terminal whose queue is empty, the slave reads back unchanged, if it
-- is at most 2047 bytes and the slave asks for at least as many; nothing is lost or left over.
pub slave_read-master_write :
    {p : Ptys} (id : ℤ) (buf : List ℕ) (n : ℕ)
    → Inv p
    → is_valid p id ≡ true
    → contents queue_size (p.slots (index id)).m2s ≡ []
    → length buf < queue_size
    → length buf ≤ n
    → let (q, wrote) = master_write p id (some buf) in
      let (r, got) = slave_read q id true n in
      (wrote ≡ length buf)
      × (got ≡ buf)
      × (contents queue_size (r.slots (index id)).m2s ≡ [])
      × (r.dropped_bytes ≡ p.dropped_bytes)
slave_read-master_write {p} id buf n v ok empty short enough =
    let s = p.slots (index id) in
    let (sent, same, e, inv) = master_write-Sent v id ok buf in
    let q = (master_write p id (some buf)).0 in
    let (took, same', kept, e', inv') = slave_read-TookFront inv id (is_valid-Elsewhere ok e) n in
    let all : (master_write p id (some buf)).1 ≡ length buf = omega (
      arith,
      sent.sent,
      ap length empty,
      length-contents queue_size s.m2s (v.slots_in (index id)).0,
    ) in
    let queued : contents queue_size (q.slots (index id)).m2s ≡ buf =
      sent.bytes ∙ rw (empty, all) (take_all (length buf) buf (omega arith)) in
    (
      all,
      took.bytes ∙ rw queued (take_all n buf enough),
      took.left ∙ rw queued (drop_all n buf enough),
      kept ∙ sent.lost ∙ omega (arith, all, v.dropped_fits),
    )
