-- ===== src/Pty/Defs.antt =====
-- The state and the functions of kernel/src/core/pty.c.
use walu_os.Prelude.{
  ℕ, zero, suc, ◌+◌, Bool, true, false, ◌&&◌, if◌then◌else◌, ltb, Option, none, some, List, [], ◌∷◌,
  set, length, ℤ, pos, negsuc, minus_one, u64, inc64,
}
use walu_os.Ring.{Ring, is_full, is_empty, put, drop_front, front}

abbrev pub pty_max : ℕ
pty_max = 8

abbrev pub queue_size : ℕ
queue_size = 2048

pub record Slot : Type 0 where
  pub allocated : Bool
  pub m2s : Ring ℕ
  pub s2m : Ring ℕ

pub record Ptys : Type 0 where
  pub slots : ℕ → Slot
  pub dropped_bytes : ℕ  -- uint64_t
  pub invalid_ops : ℕ  -- uint64_t

pub record Write : Type 0 where
  pub ring : Ring ℕ
  pub written : ℕ
  pub dropped : ℕ

-- `written` is the loop's variable and `dropped` the counter `g_pty_dropped_bytes`; the list is
-- `buf[written..len)`.
unfoldable pub queue_write : Ring ℕ → List ℕ → ℕ → ℕ → Write
queue_write r [] written dropped = record { ring = r; written = written; dropped = dropped }
queue_write r (x ∷ xs) written dropped =
    let rest = queue_write (put queue_size r x) xs (written + 1) dropped in
    if is_full queue_size r
    then (record { ring = r; written = written; dropped = u64 (dropped + length (x ∷ xs)) })
    else rest

pub record Read : Type 0 where
  pub ring : Ring ℕ
  pub bytes : List ℕ

-- The number is `len - read`; the bytes are what the loop stores into `buf`, and their number is
-- what it returns.
unfoldable pub queue_read : Ring ℕ → ℕ → Read
queue_read r zero = record { ring = r; bytes = [] }
queue_read r (suc n) =
    let rest = queue_read (drop_front queue_size r) n in
    if is_empty r
    then (record { ring = r; bytes = [] })
    else (record { ring = rest.ring; bytes = front r ∷ rest.bytes })

abbrev pub zero_ring : Ring ℕ
zero_ring = record { queue = λ i. 0; head = 0; tail = 0 }

-- `memset` to zero
unfoldable pub init : Ptys
init = record {
  slots = λ i. record { allocated = false; m2s = zero_ring; s2m = zero_ring };
  dropped_bytes = 0;
  invalid_ops = 0;
}

unfoldable pub is_valid : Ptys → ℤ → Bool
is_valid p (pos i) = ltb i pty_max && (p.slots i).allocated
is_valid p (negsuc i) = false

-- The indices restart at 0 and the bytes of the queues stay.
abbrev pub opened : Slot → Slot
opened s = record {
  allocated = true;
  m2s = record s.m2s { head = 0; tail = 0 };
  s2m = record s.s2m { head = 0; tail = 0 };
}

-- The loop of `pty_alloc` at index `i`, with the number of rounds left first.
unfoldable pub alloc_from : ℕ → ℕ → Ptys → Ptys × ℤ
alloc_from zero i p = (p, minus_one)
alloc_from (suc n) i p =
    let rest = alloc_from n (i + 1) p in
    if (p.slots i).allocated
    then rest
    else (record p { slots = set p.slots i (opened (p.slots i)) }, pos i)

unfoldable pub alloc : Ptys → Ptys × ℤ
alloc p = alloc_from pty_max 0 p

-- The slot that a valid identifier names.
abbrev pub index : ℤ → ℕ
index (pos i) = i
index (negsuc i) = 0

abbrev pub invalid : Ptys → Ptys
invalid p = record p { invalid_ops = inc64 p.invalid_ops }

unfoldable pub master_write : Ptys → ℤ → Option (List ℕ) → Ptys × ℕ
unfolding is_valid
master_write p id none = (invalid p, 0)
master_write p id (some buf) =
    let s = p.slots (index id) in
    let w = queue_write s.m2s buf 0 p.dropped_bytes in
    if is_valid p id
    then (
      record p {
        slots = set p.slots (index id) (record s { m2s = w.ring });
        dropped_bytes = w.dropped;
      },
      w.written,
    )
    else (invalid p, 0)

unfoldable pub slave_write : Ptys → ℤ → Option (List ℕ) → Ptys × ℕ
unfolding is_valid
slave_write p id none = (invalid p, 0)
slave_write p id (some buf) =
    let s = p.slots (index id) in
    let w = queue_write s.s2m buf 0 p.dropped_bytes in
    if is_valid p id
    then (
      record p {
        slots = set p.slots (index id) (record s { s2m = w.ring });
        dropped_bytes = w.dropped;
      },
      w.written,
    )
    else (invalid p, 0)

-- A read has a flag for `buf` not being null. It returns the bytes stored.
unfoldable pub master_read : Ptys → ℤ → Bool → ℕ → Ptys × List ℕ
unfolding is_valid
master_read p id has_buf len =
    let s = p.slots (index id) in
    let r = queue_read s.s2m len in
    if is_valid p id && has_buf
    then (record p { slots = set p.slots (index id) (record s { s2m = r.ring }) }, r.bytes)
    else (invalid p, [])

unfoldable pub slave_read : Ptys → ℤ → Bool → ℕ → Ptys × List ℕ
unfolding is_valid
slave_read p id has_buf len =
    let s = p.slots (index id) in
    let r = queue_read s.m2s len in
    if is_valid p id && has_buf
    then (record p { slots = set p.slots (index id) (record s { m2s = r.ring }) }, r.bytes)
    else (invalid p, [])
